-- ===== src/RedeemPeers.antt =====
-- Redemption through the connected peers: redeemThroughPeers of packages/daemon/src/daemon.ts, and
-- the reply of a peer, _handleRedeemRequest. The replies and the timer are events, one after
-- another; the replication that a success starts is left out.
pub mod Settled
pub mod Verdicts
use openpact.Prelude.{
  ℕ, zero, suc, ◌+◌, ◌-◌, Text, codes, text_eq, truthy, Option, none, some, List, [], ◌∷◌, ◌++◌,
  Bool, true, false, not, ◌&&◌, ◌||◌, ◌==◌, if◌then◌else◌,
}
use openpact.Wire.{Bytes, RedeemResponse}

pub data Outcome : Type 0 where
  redeemed_as : Text → Outcome
  failed : Text → Text → Outcome

-- `outstanding`, `responses` and `settled`, with what the promise resolves to.
pub record Broadcast : Type 0 where
  pub outstanding : ℕ
  pub responses : List RedeemResponse
  pub settled : Option Outcome

abbrev pub or_code : Option Text → Text → Text
or_code (some code) other = code
or_code none other = other

-- `text || other`
abbrev pub or_text : Option Text → Text → Text
or_text none other = other
or_text (some s) other = if truthy s then s else other

-- What `done` resolves to.
unfoldable pub outcome_of : RedeemResponse → Outcome
outcome_of res =
    let failure =
      failed (or_code res.code (codes "INTERNAL")) (or_text res.message (codes "redeem failed")) in
    elim res.nonce [
      | some nonce ↦ if res.ok && truthy nonce then redeemed_as nonce else failure
      | none ↦ failure
    ]

abbrev pub settle : Broadcast → Outcome → Broadcast
settle b o = elim b.settled [ some earlier ↦ b | none ↦ record b { settled = some o } ]

abbrev pub has_code : RedeemResponse → Text → Bool
has_code res code = elim res.code [ none ↦ false | some c ↦ text_eq c code ]

-- A failure other than that the peer is no indexer, or does not know the pact.
abbrev pub is_terminal : RedeemResponse → Bool
is_terminal res =
    not res.ok
    && (not (has_code res (codes "INVITE_NOT_INDEXER"))
        && not (has_code res (codes "UNKNOWN_PACT")))

unfoldable pub find_terminal : List RedeemResponse → Option RedeemResponse
find_terminal [] = none
find_terminal (r ∷ rs) = if is_terminal r then some r else find_terminal rs

abbrev pub no_indexer : Text → Outcome
no_indexer message = failed (codes "NO_INDEXER_REACHABLE") message

-- The end, when nobody redeemed.
unfoldable pub all_replied : List RedeemResponse → Outcome
all_replied responses = elim (find_terminal responses) [
  | some terminal ↦ outcome_of terminal
  | none ↦ no_indexer (codes "no connected peer is an indexer for this pact")
]

unfoldable pub on_reply : Broadcast → RedeemResponse → Broadcast
on_reply b res =
    let heard = record b { responses = b.responses ++ res ∷ [] } in
    let fewer = record heard { outstanding = b.outstanding - 1 } in
    if res.ok
    then settle heard (outcome_of res)
    else if fewer.outstanding == 0
    then settle fewer (all_replied heard.responses)
    else fewer

abbrev pub last_response : List RedeemResponse → Option RedeemResponse
last_response [] = none
last_response (r ∷ rs) = elim (last_response rs) [ none ↦ some r | some l ↦ some l ]

unfoldable pub on_timeout : Broadcast → Broadcast
on_timeout b = elim (last_response b.responses) [
  | none ↦ settle b (no_indexer (codes "no indexer responded"))
  | some last ↦ settle b (
      failed (or_code last.code (codes "NO_INDEXER_REACHABLE"))
        (or_text last.message (codes "timeout")))
]

-- The links, each with whether it has a channel and whether the channel takes the request.
unfoldable pub count_sent : List (Bool × Bool) → ℕ
count_sent [] = 0
count_sent ((channel, sent) ∷ links) =
    let rest = count_sent links in if channel && sent then suc rest else rest

unfoldable pub start_broadcast : List (Bool × Bool) → Broadcast
start_broadcast [] = record {
  outstanding = 0;
  responses = [];
  settled = some (failed (codes "NO_AGENTS") (codes "no agents connected"));
}
start_broadcast (link ∷ links) =
    let sent = count_sent (link ∷ links) in
    record {
      outstanding = sent;
      responses = [];
      settled =
          if sent == 0
          then some (no_indexer (codes "no peer accepted the invite channel"))
          else none;
    }

pub data Event : Type 0 where
  replied : RedeemResponse → Event
  timed_out : Event

abbrev pub on_event : Broadcast → Event → Broadcast
on_event b (replied res) = on_reply b res
on_event b timed_out = on_timeout b

unfoldable pub on_events : Broadcast → List Event → Broadcast
on_events b [] = b
on_events b (e ∷ es) = on_events (on_event b e) es
