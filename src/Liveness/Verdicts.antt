-- ===== src/Liveness/Verdicts.antt =====
-- When a link is declared dead.
use openpact.Prelude.{
  ◌+◌, ◌≤◌, ◌<◌, Text, List, [], ◌∷◌, Bool, true, false, ◌≡◌, ◌⊎◌, inl, inr, refl, ap, sym, subst,
  ◌∙◌, arith, leb, length, if◌then◌else◌, Bool-cases, All,
}
use openpact.Liveness.{Liveness, max_misses, is_empty, send_ping, stop_liveness, tick}

-- Ticks of the interval with no pong between them, each with its ping and whether it was sent. A
-- link that was stopped ticks no more.
unfoldable pub ticks : Liveness → List (Text × Bool) → Liveness
ticks l [] = l
ticks l ((key, sent) ∷ more) =
    let after = ticks (tick l key sent).0 more in if l.running then after else l

ticks-running :
    (l : Liveness) (key : Text) (sent : Bool) (ts : List (Text × Bool))
    → l.running ≡ true
    → ticks l ((key, sent) ∷ ts) ≡ ticks (tick l key sent).0 ts
unfolding ticks
ticks-running l key sent ts h = ap (λ b. if b then ticks (tick l key sent).0 ts else l) h

ticks-stopped : (l : Liveness) (ts : List (Text × Bool)) → l.running ≡ false → ticks l ts ≡ l
unfolding ticks
ticks-stopped l [] h = refl
ticks-stopped l ((key, sent) ∷ ts) h = ap (λ b. if b then ticks (tick l key sent).0 ts else l) h

tick-patient :
    (l : Liveness) (key : Text) (sent : Bool)
    → l.running ≡ true
    → l.missed + 1 < max_misses
    → ((tick l key sent).0.running ≡ true) × ((tick l key sent).0.missed ≤ l.missed + 1)
unfolding tick send_ping stop_liveness
tick-patient l key sent h m = (ground arith, ground arith)

patient_stays_up :
    (l : Liveness) (ts : List (Text × Bool))
    → l.running ≡ true
    → l.missed + length ts < max_misses
    → (ticks l ts).running ≡ true
unfolding ticks
patient_stays_up l [] h m = h
patient_stays_up l ((key, sent) ∷ ts) h m =
    let (up, few) = tick-patient l key sent h (omega arith) in
    ap (λ t. t.running) (ticks-running l key sent ts h)
    ∙ patient_stays_up (tick l key sent).0 ts up (omega arith)

tick-unponged :
    (l : Liveness) (key : Text) (sent : Bool)
    → l.running ≡ true
    → l.has_ponged ≡ false
    → ((tick l key sent).0.running ≡ true) × ((tick l key sent).0.has_ponged ≡ false)
unfolding tick send_ping stop_liveness
tick-unponged l key sent h p = (ground arith, ground arith)

unponged_stays_up :
    (l : Liveness) (ts : List (Text × Bool))
    → l.running ≡ true
    → l.has_ponged ≡ false
    → (ticks l ts).running ≡ true
unfolding ticks
unponged_stays_up l [] h p = h
unponged_stays_up l ((key, sent) ∷ ts) h p =
    let (up, silent) = tick-unponged l key sent h p in
    ap (λ t. t.running) (ticks-running l key sent ts h)
    ∙ unponged_stays_up (tick l key sent).0 ts up silent

-- A running link stays up through fewer ticks than the misses it has left, and through any number
-- of ticks if its peer has never answered a ping.
pub stays_up :
    (l : Liveness) (ts : List (Text × Bool))
    → l.running ≡ true
    → (l.missed + length ts < max_misses) ⊎ (l.has_ponged ≡ false)
    → (ticks l ts).running ≡ true
stays_up l ts h (inl few) = patient_stays_up l ts h few
stays_up l ts h (inr never) = unponged_stays_up l ts h never

tick-silent :
    (l : Liveness) (key : Text)
    → l.has_ponged ≡ true
    → is_empty l.pending ≡ false
    → ((tick l key true).0.running ≡ false)
      ⊎ (((tick l key true).0.has_ponged ≡ true)
          × (is_empty (tick l key true).0.pending ≡ false)
          × ((tick l key true).0.missed ≡ l.missed + 1)
          × (l.missed + 1 < max_misses))
unfolding tick send_ping stop_liveness
tick-silent l key p q = elim (Bool-cases (leb max_misses (l.missed + 1))) [
  | inl last ↦ inl (ground arith)
  | inr room ↦ inr (ground arith, ground arith, ground arith, ground arith)
]

-- A link whose peer has answered before, with a ping pending, is stopped once it has had as many
-- ticks as the misses it has left with no pong between them, if its pings are sent.
pub silent_link_stops :
    (l : Liveness) (ts : List (Text × Bool))
    → l.has_ponged ≡ true
    → is_empty l.pending ≡ false
    → All (λ t. t.1 ≡ true) ts
    → l.missed < max_misses
    → max_misses ≤ l.missed + length ts
    → (ticks l ts).running ≡ false
silent_link_stops l [] p q s m n = absurd (omega arith)
silent_link_stops l ((key, sent) ∷ ts) p q (s, ss) m n = elim (Bool-cases l.running) [
  | inr stopped ↦ ap (λ t. t.running) (ticks-stopped l ((key, sent) ∷ ts) stopped) ∙ stopped
  | inl up ↦
      ap (λ t. t.running) (ticks-running l key sent ts up)
      ∙ subst (λ b. (ticks (tick l key b).0 ts).running ≡ false) (sym s)
          (elim (tick-silent l key p q) [
            | inl stopped ↦
                ap (λ t. t.running) (ticks-stopped (tick l key true).0 ts stopped) ∙ stopped
            | inr (ponged, waiting, count, room) ↦
                silent_link_stops (tick l key true).0 ts ponged waiting ss (omega arith)
                  (omega arith)
          ])
]
