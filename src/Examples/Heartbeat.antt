-- ===== src/Examples/Heartbeat.antt =====
-- The liveness of a link whose peer answered once.
use openpact.Prelude.{Text, codes, List, [], ◌∷◌, Bool, true, false, ◌≡◌, refl, arith, inl, inr}
use openpact.Liveness.{Liveness}
use openpact.Liveness.Verdicts.{ticks, stays_up, silent_link_stops}

abbrev answered : Liveness
answered = record {
  running = true;
  last_pong_at = 5;
  missed = 0;
  pending = codes "aa" ∷ [];
  has_ponged = true;
}

abbrev new_link : Liveness
new_link = record { running = true; last_pong_at = 5; missed = 0; pending = []; has_ponged = false }

abbrev three : List (Text × Bool)
three = (codes "bb", true) ∷ (codes "cc", true) ∷ (codes "dd", true) ∷ []

stays_up_example : (ticks answered ((codes "bb", true) ∷ (codes "cc", true) ∷ [])).running ≡ true
stays_up_example =
    stays_up answered ((codes "bb", true) ∷ (codes "cc", true) ∷ []) refl (inl (omega arith))

-- A peer that never answered.
new_link_runs : (ticks new_link three).running ≡ true
new_link_runs = stays_up new_link three refl (inr refl)

silent_link_stops_example : (ticks answered three).running ≡ false
silent_link_stops_example =
    silent_link_stops answered three refl refl (refl, (refl, (refl, tt))) (omega arith)
      (omega arith)
