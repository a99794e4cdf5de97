-- ===== src/Pact/Minted.antt =====
-- A minted invite, from `create_invite` to `redeem_invite`.
use openpact.Prelude.{
  ℕ, ◌+◌, ◌<◌, Text, text_eq, text_eq_refl, to_lower_case, none, some, List, [], ◌∷◌, ◌++◌, true,
  false, ◌≡◌, subst, ap, arith,
}
use openpact.Invites.{
  Invite, InviteTokenPayload, TokenCodec, is_dead, is_hex_text, decode_token, decoded,
}
use openpact.Invites.Token.{IsCodec, decode_token-encode_token}
use openpact.Pact.{Pact, redeemed, find_invite, create_invite, redeem_invite}
use openpact.Pact.Redeem.{IsAcceptable, IsRedeemable, redeem_invite-succeeds}

find_invite-new :
    (nonce : Text) (xs : List Invite) (inv : Invite)
    → find_invite nonce xs ≡ none
    → text_eq inv.nonce nonce ≡ true
    → find_invite nonce (xs ++ inv ∷ []) ≡ some inv
unfolding find_invite
find_invite-new nonce [] inv h own = ground arith
find_invite-new nonce (x ∷ xs) inv h own = ground (arith, find_invite-new nonce xs inv)

module _ (c : TokenCodec) (laws : IsCodec c) (to_iso : ℕ → Text)
    (dates : (ms : ℕ) → c.parse_date (to_iso ms) ≡ some ms) where
  -- At an indexer whose pact key is a key, the token that `create_invite` gives for a new nonce
  -- of 48 hexadecimal digits is redeemed by any writer key before its expiry, if no redemption of
  -- the nonce has been applied, dates are read back as printed, and tokens as encoded.
  pub created_is_redeemable :
      (p q : Pact) (token nonce writer_key : Text) (ttl_ms minted now later : ℕ)
      → create_invite c to_iso p nonce ttl_ms minted ≡ (token, q)
      → is_hex_text 64 p.pact_key ≡ true
      → is_hex_text 48 nonce ≡ true
      → is_hex_text 64 writer_key ≡ true
      → p.is_indexer ≡ true
      → find_invite nonce p.invites ≡ none
      → p.redeemed_row nonce ≡ none
      → now < minted + ttl_ms
      → (redeem_invite c to_iso q token writer_key now later).0 ≡ redeemed nonce
  unfolding create_invite
  created_is_redeemable p q token nonce writer_key ttl_ms minted now later run pact_hex nonce_hex
        key_hex indexer new no_row in_time =
      let expires_at = to_iso (minted + ttl_ms) in
      let inv : Invite = record {
        nonce = nonce;
        expires_at = expires_at;
        created_at = to_iso minted;
        ttl_ms = ttl_ms;
        pact_name = p.pact_name;
        issuer_display = p.display_name;
        revoked = false;
        revoked_at = none;
        spent_at = none;
        spent_by = none;
      } in
      let payload : InviteTokenPayload = record {
        pact_id = p.pact_key;
        nonce = nonce;
        expires_at = expires_at;
        pact_name = p.pact_name;
        pact_purpose = p.pact_purpose;
        issuer_display = p.display_name;
      } in
      let after : record p { invites = p.invites ++ inv ∷ [] } ≡ q = ap (λ r. r.1) run in
      let token_of : decode_token c token ≡ decoded payload =
        subst (λ t. decode_token c t ≡ decoded payload) (ap (λ r. r.0) run)
          (decode_token-encode_token c laws payload (minted + ttl_ms) pact_hex nonce_hex
            (dates (minted + ttl_ms))) in
      let redeemable : IsRedeemable c (record p { invites = p.invites ++ inv ∷ [] }) nonce now =
        record {
          invite = inv;
          found = find_invite-new nonce p.invites inv new (text_eq_refl nonce);
          live = unfold is_dead in ground (arith, dates (minted + ttl_ms));
          no_row = no_row;
        } in
      let ok : IsAcceptable c (record p { invites = p.invites ++ inv ∷ [] }) token writer_key now =
        record {
          payload = payload;
          key = key_hex;
          token_of = token_of;
          same_pact = text_eq_refl (to_lower_case p.pact_key);
          indexer = indexer;
          redeemable = redeemable;
        } in
      subst (λ r. (redeem_invite c to_iso r token writer_key now later).0 ≡ redeemed nonce) after
        (ap (λ r. r.0) (redeem_invite-succeeds c to_iso _ token writer_key now later ok))
