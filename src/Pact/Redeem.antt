-- ===== src/Pact/Redeem.antt =====
-- The checks of a redemption, and its outcomes.
use openpact.Prelude.{
  ℕ, Text, text_eq, to_lower_case, none, some, true, false, ◌≡◌, ◌⊎◌, inl, inr, Bool-cases, refl,
  arith, Option-cases,
}
use openpact.Invites.{
  Invite, InviteTokenPayload, InviteDecodeCode, Decoded, decoded, decode_error, TokenCodec,
  is_hex_text, is_dead, decode_token,
}
use openpact.Pact.{
  Pact, RedeemErrorCode, RedeemResult, redeemed, refused, invite_bad_shape, invite_wrong_pact,
  invite_not_indexer, find_invite, check_invite, accept_invite, redeem_nonce, redeem_payload,
  redeem_invite,
}

Decoded-cases :
    (d : Decoded)
    → ((code : InviteDecodeCode) × (d ≡ decode_error code))
      ⊎ ((payload : InviteTokenPayload) × (d ≡ decoded payload))
Decoded-cases (decoded payload) = inr (payload, refl)
Decoded-cases (decode_error code) = inl (code, refl)

module _ (c : TokenCodec) where
  -- The nonce has a live invite here, and no row in the view.
  pub record IsRedeemable (p : Pact) (nonce : Text) (now : ℕ) : Type 0 where
    pub invite : Invite
    pub found : find_invite nonce p.invites ≡ some invite
    pub live : is_dead c.parse_date invite now ≡ false
    pub no_row : p.redeemed_row nonce ≡ none

  -- A call that is to succeed: the token is one of this pact, and the writer key is a key.
  pub record IsAcceptable (p : Pact) (token writer_key : Text) (now : ℕ) : Type 0 where
    pub payload : InviteTokenPayload
    pub key : is_hex_text 64 writer_key ≡ true
    pub token_of : decode_token c token ≡ decoded payload
    pub same_pact : text_eq (to_lower_case payload.pact_id) (to_lower_case p.pact_key) ≡ true
    pub indexer : p.is_indexer ≡ true
    pub redeemable : IsRedeemable p payload.nonce now

  check_invite-IsRedeemable :
      (p : Pact) (nonce : Text) (now : ℕ)
      → check_invite c p nonce (find_invite nonce p.invites) now ≡ none
      → IsRedeemable p nonce now
  unfolding check_invite is_dead
  check_invite-IsRedeemable p nonce now h = elim (Option-cases (find_invite nonce p.invites)) [
    | inl unknown ↦ absurd (ground arith)
    | inr (inv, found) ↦ record {
      invite = inv;
      found = found;
      live = ground arith;
      no_row = ground arith;
    }
  ]

  pub IsRedeemable-check_invite :
      (p : Pact) (nonce : Text) (now : ℕ)
      → IsRedeemable p nonce now
      → check_invite c p nonce (find_invite nonce p.invites) now ≡ none
  unfolding check_invite is_dead
  IsRedeemable-check_invite p nonce now h = ground (arith, h.found, h.live, h.no_row)

  module _ (to_iso : ℕ → Text) where
    -- A redemption is refused and leaves the pact as it was, or every check passed.
    pub redeem_invite-checked :
        (p : Pact) (token writer_key : Text) (now later : ℕ) {q : Pact} {r : RedeemResult}
        → redeem_invite c to_iso p token writer_key now later ≡ (r, q)
        → ((code : RedeemErrorCode) × (r ≡ refused code) × (q ≡ p))
          ⊎ ((ok : IsAcceptable p token writer_key now) × (r ≡ redeemed ok.payload.nonce)
              × (q ≡ accept_invite p ok.payload.nonce (to_lower_case writer_key) (to_iso later)))
    unfolding redeem_invite redeem_payload redeem_nonce
    redeem_invite-checked p token writer_key now later {q} {r} run =
        elim (Bool-cases (is_hex_text 64 writer_key)) [
          | inr bad ↦ inl (invite_bad_shape, ground arith, ground arith)
          | inl key ↦ elim (Decoded-cases (decode_token c token)) [
            | inl (code, undecoded) ↦ inl (invite_bad_shape, ground arith, ground arith)
            | inr (payload, token_of) ↦
                elim (Bool-cases
                  (text_eq (to_lower_case payload.pact_id) (to_lower_case p.pact_key))) [
                    | inr other ↦ inl (invite_wrong_pact, ground arith, ground arith)
                    | inl same_pact ↦ elim (Bool-cases p.is_indexer) [
                      | inr member ↦ inl (invite_not_indexer, ground arith, ground arith)
                      | inl indexer ↦
                          elim (Option-cases (
                            check_invite c p payload.nonce (find_invite payload.nonce p.invites)
                              now)) [
                                | inr (code, failed) ↦ inl (code, ground arith, ground arith)
                                | inl passed ↦ inr (
                                  record {
                                    payload = payload;
                                    key = key;
                                    token_of = token_of;
                                    same_pact = same_pact;
                                    indexer = indexer;
                                    redeemable =
                                        check_invite-IsRedeemable p payload.nonce now passed;
                                  },
                                  ground arith,
                                  ground arith,
                                )
                              ]
                    ]
                  ]
          ]
        ]

    -- A redemption succeeds when, at the clock of its expiry test, the writer key is a hexadecimal
    -- text of 64 digits, the token decodes and names this pact, the peer is an indexer, and the
    -- nonce has an invite that is not dead and no row in the view.
    pub redeem_invite-succeeds :
        (p : Pact) (token writer_key : Text) (now later : ℕ)
        (ok : IsAcceptable p token writer_key now)
        → redeem_invite c to_iso p token writer_key now later ≡ (
          redeemed ok.payload.nonce,
          accept_invite p ok.payload.nonce (to_lower_case writer_key) (to_iso later),
        )
    unfolding redeem_invite redeem_payload redeem_nonce
    redeem_invite-succeeds p token writer_key now later ok = ground (
      arith,
      ok.key,
      ok.token_of,
      ok.same_pact,
      ok.indexer,
      IsRedeemable-check_invite p ok.payload.nonce now ok.redeemable,
    )
