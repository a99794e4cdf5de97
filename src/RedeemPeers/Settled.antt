-- ===== src/RedeemPeers/Settled.antt =====
-- How the redemption through peers is settled.
use openpact.Prelude.{
  ℕ, suc, Option, none, some, List, [], ◌∷◌, ◌++◌, Bool, true, false, ◌≡◌, inl, inr, refl, sym, ap,
  ◌∙◌, arith, if◌then◌else◌, length, map, Bool-cases, Option-cases, is_some,
}
use openpact.Wire.{RedeemResponse}
use openpact.RedeemPeers.{
  Outcome, Broadcast, outcome_of, settle, all_replied, on_reply, on_timeout, count_sent,
  start_broadcast, Event, replied, timed_out, on_event, on_events,
}

-- The first success among replies.
unfoldable pub first_ok : List RedeemResponse → Option RedeemResponse
first_ok [] = none
first_ok (r ∷ rs) = if r.ok then some r else first_ok rs

-- What the replies of all peers amount to: the first success, or else the first terminal failure,
-- or else that no indexer was reached.
unfoldable pub verdict : List RedeemResponse → Outcome
verdict rs = elim (first_ok rs) [ some success ↦ outcome_of success | none ↦ all_replied rs ]

settle-settled :
    (b : Broadcast) (o p : Outcome) → b.settled ≡ some o → (settle b p).settled ≡ some o
settle-settled b o p h = ground arith

on_event-settled :
    (b : Broadcast) (o : Outcome) (e : Event) → b.settled ≡ some o → (on_event b e).settled ≡ some o
unfolding on_reply on_timeout
on_event-settled b o (replied res) h = ground arith
on_event-settled b o timed_out h = ground arith

on_events-settled :
    (b : Broadcast) (o : Outcome) (es : List Event)
    → b.settled ≡ some o
    → (on_events b es).settled ≡ some o
unfolding on_events
on_events-settled b o [] h = h
on_events-settled b o (e ∷ es) h = on_events-settled (on_event b e) o es (on_event-settled b o e h)

on_events-append :
    (b : Broadcast) (es fs : List Event) → on_events b (es ++ fs) ≡ on_events (on_events b es) fs
unfolding on_events
on_events-append b [] fs = refl
on_events-append b (e ∷ es) fs = on_events-append (on_event b e) es fs

first_ok-append :
    (seen rs : List RedeemResponse) → first_ok seen ≡ none → first_ok (seen ++ rs) ≡ first_ok rs
unfolding first_ok
first_ok-append [] rs h = refl
first_ok-append (r ∷ seen) rs h = ground (arith, first_ok-append seen rs)

snoc-append :
    (seen : List RedeemResponse) (r : RedeemResponse) (rs : List RedeemResponse)
    → (seen ++ r ∷ []) ++ rs ≡ seen ++ r ∷ rs
snoc-append [] r rs = refl
snoc-append (s ∷ seen) r rs = ap (λ l. s ∷ l) (snoc-append seen r rs)

-- The state before the replies of `n` peers.
abbrev waiting : ℕ → List RedeemResponse → Broadcast
waiting n seen = record { outstanding = n; responses = seen; settled = none }

verdict-ok :
    (seen : List RedeemResponse) (r : RedeemResponse) (rs : List RedeemResponse)
    → first_ok seen ≡ none
    → r.ok ≡ true
    → verdict (seen ++ r ∷ rs) ≡ outcome_of r
unfolding verdict first_ok
verdict-ok seen r rs none_yet ok = rw (verdict, first_ok-append seen (r ∷ rs) none_yet, ok) refl

first_ok-snoc :
    (seen : List RedeemResponse) (r : RedeemResponse)
    → first_ok seen ≡ none
    → r.ok ≡ false
    → first_ok (seen ++ r ∷ []) ≡ none
unfolding first_ok
first_ok-snoc seen r none_yet refused = rw (first_ok-append seen (r ∷ []) none_yet, refused) refl

verdict-refused :
    (seen : List RedeemResponse) (r : RedeemResponse)
    → first_ok seen ≡ none
    → r.ok ≡ false
    → verdict (seen ++ r ∷ []) ≡ all_replied (seen ++ r ∷ [])
unfolding verdict
verdict-refused seen r none_yet refused = rw (verdict, first_ok-snoc seen r none_yet refused) refl

reply_ok :
    (n : ℕ) (seen : List RedeemResponse) (r : RedeemResponse)
    → r.ok ≡ true
    → (on_reply (waiting n seen) r).settled ≡ some (outcome_of r)
unfolding on_reply
reply_ok n seen r ok = rw ok refl

reply_last :
    (seen : List RedeemResponse) (r : RedeemResponse)
    → r.ok ≡ false
    → (on_reply (waiting 1 seen) r).settled ≡ some (all_replied (seen ++ r ∷ []))
unfolding on_reply
reply_last seen r refused = rw refused refl

reply_other :
    (n : ℕ) (seen : List RedeemResponse) (r : RedeemResponse)
    → r.ok ≡ false
    → on_reply (waiting (suc (suc n)) seen) r ≡ waiting (suc n) (seen ++ r ∷ [])
unfolding on_reply
reply_other n seen r refused = ground arith

-- After the replies `seen`, none a success, the replies of the others settle it.
replies_settle :
    (seen : List RedeemResponse) (r : RedeemResponse) (rs : List RedeemResponse)
    → first_ok seen ≡ none
    → (on_events (waiting (suc (length rs)) seen) (map replied (r ∷ rs))).settled
      ≡ some (verdict (seen ++ r ∷ rs))
unfolding on_events
replies_settle seen r [] none_yet = elim (Bool-cases r.ok) [
  | inl ok ↦ reply_ok 1 seen r ok ∙ ap some (sym (verdict-ok seen r [] none_yet ok))
  | inr refused ↦
      reply_last seen r refused ∙ ap some (sym (verdict-refused seen r none_yet refused))
]
replies_settle seen r (s ∷ rs) none_yet = elim (Bool-cases r.ok) [
  | inl ok ↦
      on_events-settled (on_reply (waiting (suc (suc (length rs))) seen) r) (outcome_of r)
        (map replied (s ∷ rs)) (reply_ok (suc (suc (length rs))) seen r ok)
      ∙ ap some (sym (verdict-ok seen r (s ∷ rs) none_yet ok))
  | inr refused ↦
      ap (λ b. (on_events b (map replied (s ∷ rs))).settled)
        (reply_other (length rs) seen r refused)
      ∙ (replies_settle (seen ++ r ∷ []) s rs (first_ok-snoc seen r none_yet refused)
          ∙ ap (λ l. some (verdict l)) (snoc-append seen r (s ∷ rs)))
]

timeout-settled : (b : Broadcast) → is_some (on_timeout b).settled ≡ true
unfolding on_timeout
timeout-settled b = ground arith

on_events_timed_out :
    (b : Broadcast) (later : List Event) → is_some (on_events b (timed_out ∷ later)).settled ≡ true
unfolding on_events
on_events_timed_out b later = elim (Option-cases (on_timeout b).settled) [
  | inl open_ ↦ absurd (ground (arith, timeout-settled b))
  | inr (o, done) ↦ ap is_some (on_events-settled (on_timeout b) o later done)
]

started :
    (links : List (Bool × Bool)) (n : ℕ)
    → count_sent links ≡ suc n
    → start_broadcast links ≡ waiting (suc n) []
unfolding start_broadcast count_sent
started [] n h = absurd (omega arith)
started (link ∷ links) n h = rw h (ground arith)

-- A request that at least one peer took is settled by their replies, and any by the timer.
pub request_is_settled :
    (links : List (Bool × Bool)) (r : RedeemResponse) (rs : List RedeemResponse)
    → count_sent links ≡ suc (length rs)
    → ((later : List Event)
        → (on_events (start_broadcast links) (map replied (r ∷ rs) ++ later)).settled
          ≡ some (verdict (r ∷ rs)))
      × ((before later : List Event)
          → is_some (on_events (start_broadcast links) (before ++ timed_out ∷ later)).settled
            ≡ true)
unfolding first_ok
request_is_settled links r rs sent = (
  λ later.
      ap (λ b. b.settled) (on_events-append (start_broadcast links) (map replied (r ∷ rs)) later)
      ∙ on_events-settled (on_events (start_broadcast links) (map replied (r ∷ rs)))
          (verdict (r ∷ rs)) later
          (ap (λ b. (on_events b (map replied (r ∷ rs))).settled) (started links (length rs) sent)
            ∙ replies_settle [] r rs refl),
  λ before later.
      ap (λ b. is_some b.settled)
        (on_events-append (start_broadcast links) before (timed_out ∷ later))
      ∙ on_events_timed_out (on_events (start_broadcast links) before) later,
)
