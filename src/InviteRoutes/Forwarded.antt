-- ===== src/InviteRoutes/Forwarded.antt =====
-- What a redemption through peers answers, against what the indexer among them answers.
use mathlib.Core.List.{append-nil}
use openpact.Prelude.{
  ℕ, suc, ◌+◌, Text, codes, truthy, Option, none, some, List, [], ◌∷◌, ◌++◌, Bool, true, false,
  ◌||◌, ◌≡◌, ◌≢◌, refl, sym, ap, ◌∙◌, arith, length, length-append, map, All,
}
use openpact.Wire.{Bytes, RedeemResponse}
use openpact.Pact.{
  RedeemErrorCode, invite_bad_shape, invite_wrong_pact, unknown_invite, invite_expired,
  invite_revoked, invite_spent, invite_not_indexer, status_of, RedeemResult, redeemed, refused,
}
use openpact.RedeemPeers.{
  Outcome, outcome_of, has_code, is_terminal, find_terminal, all_replied, count_sent,
  start_broadcast, replied, on_events,
}
use openpact.RedeemPeers.Settled.{first_ok, verdict, request_is_settled}
use openpact.InviteRoutes.{
  code_text, error_status, handle_redeem_request, local_reply, forward_reply, redeem_route,
}

-- The reply of a peer that is no indexer, or does not know the pact.
abbrev pub IsBystander : RedeemResponse → Type 0
IsBystander res =
    (res.ok ≡ false)
    × ((has_code res (codes "INVITE_NOT_INDEXER") || has_code res (codes "UNKNOWN_PACT")) ≡ true)

-- What an indexer answers: it redeems a nonce that is not empty, or refuses as an indexer.
abbrev pub IsDecisive : RedeemResult → Type 0
IsDecisive (redeemed nonce) = truthy nonce ≡ true
IsDecisive (refused code) = code ≢ invite_not_indexer

first_ok-bystanders :
    (xs rs : List RedeemResponse) → All IsBystander xs → first_ok (xs ++ rs) ≡ first_ok rs
unfolding first_ok
first_ok-bystanders [] rs h = refl
first_ok-bystanders (x ∷ xs) rs ((refuses, code), hs) = rw refuses (first_ok-bystanders xs rs hs)

find_terminal-bystanders :
    (xs rs : List RedeemResponse) → All IsBystander xs → find_terminal (xs ++ rs) ≡ find_terminal rs
unfolding find_terminal
find_terminal-bystanders [] rs h = refl
find_terminal-bystanders (x ∷ xs) rs ((refuses, code), hs) =
    ground (arith, find_terminal-bystanders xs rs hs)

first_ok-none : (xs : List RedeemResponse) → All IsBystander xs → first_ok xs ≡ none
unfolding first_ok
first_ok-none [] h = refl
first_ok-none (x ∷ xs) ((refuses, code), hs) = rw refuses (first_ok-none xs hs)

-- A success among bystanders, and a refusal among them.
verdict-success :
    (xs ys : List RedeemResponse) (res : RedeemResponse)
    → All IsBystander xs
    → res.ok ≡ true
    → verdict (xs ++ res ∷ ys) ≡ outcome_of res
unfolding verdict first_ok
verdict-success xs ys res hs ok = rw (verdict, first_ok-bystanders xs (res ∷ ys) hs, ok) refl

first_ok-refusal :
    (ys : List RedeemResponse) (res : RedeemResponse)
    → All IsBystander ys
    → res.ok ≡ false
    → first_ok (res ∷ ys) ≡ none
unfolding first_ok
first_ok-refusal ys res ks refuses = rw refuses (first_ok-none ys ks)

find_terminal-refusal :
    (ys : List RedeemResponse) (res : RedeemResponse)
    → is_terminal res ≡ true
    → find_terminal (res ∷ ys) ≡ some res
unfolding find_terminal
find_terminal-refusal ys res final = ground arith

verdict-refusal :
    (xs ys : List RedeemResponse) (res : RedeemResponse)
    → All IsBystander xs
    → All IsBystander ys
    → is_terminal res ≡ true
    → res.ok ≡ false
    → verdict (xs ++ res ∷ ys) ≡ outcome_of res
unfolding verdict all_replied
verdict-refusal xs ys res hs ks final refuses =
    rw
      (
        verdict,
        first_ok-bystanders xs (res ∷ ys) hs,
        first_ok-refusal ys res ks refuses,
        all_replied,
        find_terminal-bystanders xs (res ∷ ys) hs,
        find_terminal-refusal ys res final,
      )
      refl

-- The two tables of statuses agree.
error_status-code_text : (code : RedeemErrorCode) → error_status (code_text code) ≡ status_of code
unfolding error_status
error_status-code_text invite_bad_shape = refl
error_status-code_text invite_wrong_pact = refl
error_status-code_text unknown_invite = refl
error_status-code_text invite_expired = refl
error_status-code_text invite_revoked = refl
error_status-code_text invite_spent = refl
error_status-code_text invite_not_indexer = refl

refusal-is_terminal :
    (corr : Option Bytes) (code : RedeemErrorCode) (message : Text)
    → code ≢ invite_not_indexer
    → is_terminal (handle_redeem_request corr (some (refused code)) message) ≡ true
unfolding handle_redeem_request
refusal-is_terminal corr invite_bad_shape message other = refl
refusal-is_terminal corr invite_wrong_pact message other = refl
refusal-is_terminal corr unknown_invite message other = refl
refusal-is_terminal corr invite_expired message other = refl
refusal-is_terminal corr invite_revoked message other = refl
refusal-is_terminal corr invite_spent message other = refl
refusal-is_terminal corr invite_not_indexer message other = absurd (other refl)

-- The verdict on the replies of an indexer and of bystanders, as the route reports it.
indexer_verdict :
    (corr : Option Bytes) (xs ys : List RedeemResponse) (result : RedeemResult) (message : Text)
    → All IsBystander xs
    → All IsBystander ys
    → IsDecisive result
    → forward_reply (verdict (xs ++ handle_redeem_request corr (some result) message ∷ ys))
      ≡ local_reply result
unfolding forward_reply handle_redeem_request outcome_of
indexer_verdict corr xs ys (redeemed nonce) message hs ks given =
    rw
      (
        verdict-success xs ys (handle_redeem_request corr (some (redeemed nonce)) message) hs refl,
        given,
      )
      refl
indexer_verdict corr xs ys (refused code) message hs ks other =
    let reply = handle_redeem_request corr (some (refused code)) message in
    rw
      (
        verdict-refusal xs ys reply hs ks (refusal-is_terminal corr code message other) refl,
        error_status-code_text code,
      )
      refl

settled_verdict :
    (links : List (Bool × Bool)) (rs : List RedeemResponse) (n : ℕ)
    → count_sent links ≡ length rs
    → length rs ≡ suc n
    → (on_events (start_broadcast links) (map replied rs)).settled ≡ some (verdict rs)
settled_verdict links [] n sent h = absurd (omega arith)
settled_verdict links (r ∷ rs) n sent h =
    ap (λ es. (on_events (start_broadcast links) es).settled)
      (sym (append-nil (map replied (r ∷ rs))))
    ∙ (request_is_settled links r rs sent).0 []

-- A redemption that is forwarded to peers, of which one is an indexer and the others are not, or do
-- not know the pact, gets the reply of the same route on the indexer, with the same HTTP status and
-- code, in whatever order the peers reply, once all have replied; the indexer redeems a nonce that is
-- not empty, or refuses as an indexer.
pub indexer_decides :
    (links : List (Bool × Bool)) (corr : Option Bytes) (xs ys : List RedeemResponse)
    (result here : RedeemResult) (key : Text) (other : Option Text) (there : Outcome)
    (message : Text)
    → count_sent links ≡ length (xs ++ handle_redeem_request corr (some result) message ∷ ys)
    → All IsBystander xs
    → All IsBystander ys
    → IsDecisive result
    → (o : Outcome) × ((on_events
          (start_broadcast links)
          (map replied (xs ++ handle_redeem_request corr (some result) message ∷ ys))).settled
        ≡ some o)
      × (redeem_route true false (some key) here o ≡ redeem_route true true other result there)
unfolding redeem_route
indexer_decides links corr xs ys result here key other there message sent hs ks decisive =
    let reply = handle_redeem_request corr (some result) message in
    (
      verdict (xs ++ reply ∷ ys),
      settled_verdict links (xs ++ reply ∷ ys) (length xs + length ys) sent
          (length-append xs (reply ∷ ys) ∙ omega arith),
      indexer_verdict corr xs ys result message hs ks decisive,
    )
