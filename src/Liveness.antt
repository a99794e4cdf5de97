-- ===== src/Liveness.antt =====
-- The liveness of a link: packages/daemon/src/member-auth-channel.ts (startLiveness and the handler
-- of pongs) and peer-link.ts (stopLiveness). The random `corr` of a ping, and whether the channel
-- took it, are inputs.
pub mod Verdicts
use openpact.Prelude.{
  ℕ, ◌+◌, Text, text_eq, List, [], ◌∷◌, ◌++◌, Bool, true, false, ◌&&◌, not, leb, ltb, if◌then◌else◌,
}

abbrev pub max_misses : ℕ
max_misses = 3

-- `running` says that the interval is set. Pending pings are the keys of their `corr`s.
pub record Liveness : Type 0 where
  pub running : Bool
  pub last_pong_at : ℕ
  pub missed : ℕ
  pub pending : List Text
  pub has_ponged : Bool

-- The calls of the handlers.
pub data Report : Type 0 where
  miss dead : ℕ → Report
  recover : Report

abbrev pub is_empty : List Text → Bool
is_empty [] = true
is_empty (k ∷ ks) = false

unfoldable pub has_key : Text → List Text → Bool
has_key k [] = false
has_key k (j ∷ ks) = if text_eq j k then true else has_key k ks

unfoldable pub delete_key : Text → List Text → List Text
delete_key k [] = []
delete_key k (j ∷ ks) = let rest = delete_key k ks in if text_eq j k then rest else j ∷ rest

unfoldable pub start_liveness : ℕ → Liveness
start_liveness now = record {
  running = true;
  last_pong_at = now;
  missed = 0;
  pending = [];
  has_ponged = false;
}

unfoldable pub stop_liveness : Liveness → Liveness
stop_liveness l = record l { running = false; pending = [] }

-- The end of a tick: a fresh ping, which is forgotten if the channel did not take it.
unfoldable pub send_ping : Liveness → Text → Bool → Liveness
send_ping l key sent = if sent then record l { pending = key ∷ l.pending } else l

unfoldable pub tick : Liveness → Text → Bool → Liveness × List Report
tick l key sent =
    let missed = l.missed + 1 in
    let late = record l { missed = missed; pending = [] } in
    if is_empty l.pending
    then (send_ping l key sent, [])
    else if l.has_ponged && leb max_misses missed
    then (stop_liveness late, miss missed ∷ dead missed ∷ [])
    else (send_ping late key sent, miss missed ∷ [])

unfoldable pub pong : Liveness → Text → ℕ → Liveness × List Report
pong l key now =
    if has_key key l.pending
    then (
      record l {
        last_pong_at = now;
        missed = 0;
        pending = delete_key key l.pending;
        has_ponged = true;
      },
      if ltb 0 l.missed then recover ∷ [] else [],
    )
    else (l, [])
