-- ===== src/Pact/Once.antt =====
-- The life of an invite at the indexer that minted it.
use openpact.Prelude.{
  ℕ, Text, truthy, to_lower_case, Option, some, true, ◌≡◌, sym, subst, ◌≢◌, ◌⊎◌, inl, inr,
  Bool-cases, ap, refl, arith, Option-cases, ◌||◌,
}
use openpact.Json.{Json}
use openpact.Invites.{Invite, TokenCodec, is_dead, is_spent}
use openpact.Pact.{
  Pact, RedeemResult, redeemed, find_invite, update_invite, mark_spent, accept_invite,
  create_invite, revoke_invite, redeem_invite,
}
use openpact.Pact.Redeem.{redeem_invite-checked}
use openpact.Pact.Lookup.{IsGone, find_invite-append, find_invite-update, update-IsGone}

module _ (c : TokenCodec) (to_iso : ℕ → Text) where
  -- The operations on a pact, and a change of the view's rows by the applied log.
  pub data Step : Pact → Pact → Type 0 where
    creates :
        (p : Pact) (nonce : Text) (ttl_ms now : ℕ) {token : Text} {q : Pact}
        → create_invite c to_iso p nonce ttl_ms now ≡ (token, q)
        → Step p q
    revokes :
        (p : Pact) (nonce : Text) (now : ℕ) {q : Pact}
        → revoke_invite to_iso p nonce now ≡ some q
        → Step p q
    redeems :
        (p : Pact) (token writer_key : Text) (now later : ℕ) {r : RedeemResult} {q : Pact}
        → redeem_invite c to_iso p token writer_key now later ≡ (r, q)
        → Step p q
    syncs : (p : Pact) (rows : Text → Option Json) → Step p (record p { redeemed_row = rows })

  pub data Reaches : Pact → Pact → Type 0 where
    here : (p : Pact) → Reaches p p
    then_ : {p q r : Pact} → Step p q → Reaches q r → Reaches p r

  abbrev revoke_at : ℕ → Invite → Invite
  revoke_at now i = record i { revoked = true; revoked_at = some (to_iso now) }

  revoke_invite-cases :
      (p q : Pact) (nonce : Text) (now : ℕ)
      → revoke_invite to_iso p nonce now ≡ some q
      → ((inv : Invite) × (find_invite nonce p.invites ≡ some inv) × (inv.revoked ≡ true) × (q ≡ p))
        ⊎ ((inv : Invite) × (find_invite nonce p.invites ≡ some inv)
            × (q ≡ record p { invites = update_invite nonce (revoke_at now) p.invites }))
  unfolding revoke_invite
  revoke_invite-cases p q nonce now run = elim (Option-cases (find_invite nonce p.invites)) [
    | inl unknown ↦ absurd (ground arith)
    | inr (inv, found) ↦ elim (Bool-cases inv.revoked) [
      | inl already ↦ inl (inv, found, already, ground arith)
      | inr live ↦ inr (inv, found, ground arith)
    ]
  ]

  module _ (dated : (ms : ℕ) → truthy (to_iso ms) ≡ true) where
    spent_buries :
        (ms : ℕ) (joiner : Text) (i : Invite)
        → ((mark_spent (to_iso ms) joiner i).revoked
            || is_spent (mark_spent (to_iso ms) joiner i).spent_at)
          ≡ true
    spent_buries ms joiner i = ground (arith, dated ms)

    accept-IsGone :
        (p : Pact) (nonce other joiner : Text) (ms : ℕ)
        → IsGone nonce p.invites
        → IsGone nonce (accept_invite p other joiner (to_iso ms)).invites
    unfolding accept_invite
    accept-IsGone p nonce other joiner ms h =
        update-IsGone nonce other (mark_spent (to_iso ms) joiner) (λ i. refl)
          (spent_buries ms joiner) p.invites h

    redeem_invite-IsGone :
        (p : Pact) (nonce token writer_key : Text) (now later : ℕ) {r : RedeemResult} {q : Pact}
        → redeem_invite c to_iso p token writer_key now later ≡ (r, q)
        → IsGone nonce p.invites
        → IsGone nonce q.invites
    redeem_invite-IsGone p nonce token writer_key now later run h =
        elim (redeem_invite-checked c to_iso p token writer_key now later run) [
          | inl (code, answer, same) ↦ rw same h
          | inr (ok, answer, after) ↦
              rw after (accept-IsGone p nonce ok.payload.nonce (to_lower_case writer_key) later h)
        ]

    revoke_invite-IsGone :
        (p q : Pact) (nonce other : Text) (now : ℕ)
        → revoke_invite to_iso p other now ≡ some q
        → IsGone nonce p.invites
        → IsGone nonce q.invites
    revoke_invite-IsGone p q nonce other now run h = elim (revoke_invite-cases p q other now run) [
      | inl (inv, found, revoked, same) ↦ rw same h
      | inr (inv, found, after) ↦
          rw after (update-IsGone nonce other (revoke_at now) (λ i. refl) (λ i. refl) p.invites h)
    ]

    Step-IsGone :
        (nonce : Text) {p q : Pact} → Step p q → IsGone nonce p.invites → IsGone nonce q.invites
    unfolding create_invite
    Step-IsGone nonce (creates p other ttl_ms now {token} {q} run) h =
        subst (λ r. IsGone nonce r.invites) (ap (λ r. r.1) run)
          (record {
            invite = h.invite;
            found = find_invite-append nonce p.invites _ h.invite h.found;
            gone = h.gone;
          })
    Step-IsGone nonce (revokes p other now run) h = revoke_invite-IsGone p _ nonce other now run h
    Step-IsGone nonce (redeems p token writer_key now later run) h =
        redeem_invite-IsGone p nonce token writer_key now later run h
    Step-IsGone nonce (syncs p rows) h = h

    Reaches-IsGone :
        (nonce : Text) {p q : Pact} → Reaches p q → IsGone nonce p.invites → IsGone nonce q.invites
    Reaches-IsGone nonce (here p) h = h
    Reaches-IsGone nonce (then_ step more) h = Reaches-IsGone nonce more (Step-IsGone nonce step h)

    gone_is_refused :
        (p : Pact) (nonce token writer_key : Text) (now later : ℕ) {q : Pact}
        → IsGone nonce p.invites
        → redeem_invite c to_iso p token writer_key now later ≢ (redeemed nonce, q)
    unfolding is_dead
    gone_is_refused p nonce token writer_key now later h run =
        elim (redeem_invite-checked c to_iso p token writer_key now later run) [
          | inl (code, answer, same) ↦ cc
          | inr (ok, answer, after) ↦
              ground (arith, h.found, h.gone, ok.redeemable.found, ok.redeemable.live)
        ]

    -- After a nonce was redeemed at an indexer, whatever invites it creates, revokes or redeems
    -- and whatever its view becomes, it redeems the nonce for no writer key again, if timestamps
    -- are not empty.
    pub redeemed_once :
        (p q r s : Pact) (nonce token writer_key other_token other_key : Text)
        (now later then_now then_later : ℕ)
        → redeem_invite c to_iso p token writer_key now later ≡ (redeemed nonce, q)
        → Reaches q r
        → redeem_invite c to_iso r other_token other_key then_now then_later ≢ (redeemed nonce, s)
    unfolding accept_invite
    redeemed_once p q r s nonce token writer_key other_token other_key now later then_now then_later
          run more again =
        elim (redeem_invite-checked c to_iso p token writer_key now later run) [
          | inl (code, answer, same) ↦ cc
          | inr (ok, answer, after) ↦
              let n = ok.payload.nonce in
              let mark = mark_spent (to_iso later) (to_lower_case writer_key) in
              let spent : IsGone n (update_invite n mark p.invites) = record {
                invite = mark ok.redeemable.invite;
                found =
                    find_invite-update n mark (λ i. refl) p.invites ok.redeemable.invite
                      ok.redeemable.found;
                gone = spent_buries later (to_lower_case writer_key) ok.redeemable.invite;
              } in
              let gone : IsGone n q.invites = subst (λ t. IsGone n t.invites) (sym after) spent in
              let same : nonce ≡ n = ground arith in
              gone_is_refused r n other_token other_key then_now then_later
                (Reaches-IsGone n more gone)
                (subst
                  (λ m.
                    redeem_invite c to_iso r other_token other_key then_now then_later
                    ≡ (redeemed m, s))
                  same again)
        ]

    -- After an indexer revoked a nonce, it redeems it for no writer key, whatever operations
    -- follow, if timestamps are not empty.
    pub revoked_is_final :
        (p q r s : Pact) (nonce token writer_key : Text) (now then_now then_later : ℕ)
        → revoke_invite to_iso p nonce now ≡ some q
        → Reaches q r
        → redeem_invite c to_iso r token writer_key then_now then_later ≢ (redeemed nonce, s)
    revoked_is_final p q r s nonce token writer_key now then_now then_later run more =
        let gone : IsGone nonce q.invites = elim (revoke_invite-cases p q nonce now run) [
          | inl (inv, found, revoked, same) ↦
              rw same (record { invite = inv; found = found; gone = ground arith })
          | inr (inv, found, after) ↦ rw after (record {
            invite = revoke_at now inv;
            found = find_invite-update nonce (revoke_at now) (λ i. refl) p.invites inv found;
            gone = refl;
          })
        ] in
        gone_is_refused r nonce token writer_key then_now then_later
          (Reaches-IsGone nonce more gone)
