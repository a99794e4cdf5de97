-- ===== src/Examples/Joining.antt =====
-- packages/daemon/src/pact.ts: a pact that mints, redeems and revokes one invite.
use openpact.Prelude.{
  Text, codes, to_lower_case, none, some, [], ◌∷◌, true, false, ◌≡◌, ◌≢◌, ◌⊎◌, refl, arith,
  text_eq_refl,
}
use openpact.Invites.{Invite, InviteTokenPayload, decode_token, encode_token, decoded, is_dead}
use openpact.Invites.Token.{decode_token-encode_token}
use openpact.Pact.{
  Pact, RedeemErrorCode, redeemed, refused, accept_invite, redeem_invite, create_invite,
  revoke_invite, find_invite, update_invite,
}
use openpact.Pact.Redeem.{IsAcceptable, redeem_invite-succeeds}
use openpact.Pact.Accepted.{IsRedeemed, redeem_invite-cases}
use openpact.Pact.Once.{here, redeemed_once, revoked_is_final}
use openpact.Pact.Minted.{created_is_redeemable}
use openpact.Examples.Codec.{codec, codec_laws, print_date}

abbrev pact_key : Text
pact_key = codes "0123456789abcdef0123456789abcdef0123456789abcdef0123456789abcdef"

abbrev joiner : Text
joiner = codes "fedcba9876543210fedcba9876543210fedcba9876543210fedcba9876543210"

abbrev nonce : Text
nonce = codes "0123456789abcdef0123456789abcdef0123456789abcdef"

abbrev fresh : Pact
fresh = record {
  pact_key = pact_key;
  is_indexer = true;
  peer_handle = codes "anon-ada";
  display_name = none;
  pact_name = some (codes "Trip");
  pact_purpose = none;
  invites = [];
  redeemed_row = λ n. none;
  log = [];
}

abbrev invite : Invite
invite = record {
  nonce = nonce;
  expires_at = print_date 110;
  created_at = print_date 10;
  ttl_ms = 100;
  pact_name = some (codes "Trip");
  issuer_display = none;
  revoked = false;
  revoked_at = none;
  spent_at = none;
  spent_by = none;
}

abbrev payload : InviteTokenPayload
payload = record {
  pact_id = pact_key;
  nonce = nonce;
  expires_at = print_date 110;
  pact_name = some (codes "Trip");
  pact_purpose = none;
  issuer_display = none;
}

abbrev minted : Pact
minted = record fresh { invites = invite ∷ [] }

abbrev token : Text
token = encode_token codec payload

created : create_invite codec print_date fresh nonce 100 10 ≡ (token, minted)
unfolding create_invite
created = refl

decode_token-encode_token_example : decode_token codec token ≡ decoded payload
decode_token-encode_token_example =
    decode_token-encode_token codec codec_laws payload 110 refl refl refl

acceptable : IsAcceptable codec minted token joiner 20
unfolding is_dead find_invite decode_token encode_token
acceptable = record {
  payload = payload;
  key = refl;
  token_of = decode_token-encode_token codec codec_laws payload 110 refl refl refl;
  same_pact = text_eq_refl (to_lower_case pact_key);
  indexer = refl;
  redeemable = record { invite = invite; found = refl; live = refl; no_row = refl };
}

abbrev spent : Pact
spent = accept_invite minted nonce (to_lower_case joiner) (print_date 21)

succeeded : redeem_invite codec print_date minted token joiner 20 21 ≡ (redeemed nonce, spent)
unfolding acceptable
succeeded = redeem_invite-succeeds codec print_date minted token joiner 20 21 acceptable

redeem_invite-cases_example :
    ((code : RedeemErrorCode) × (redeemed nonce ≡ refused code) × (spent ≡ minted))
    ⊎ ((ok : IsAcceptable codec minted token joiner 20) × (redeemed nonce
          ≡ redeemed ok.payload.nonce)
        × IsRedeemed minted spent ok.payload.nonce
            (to_lower_case joiner)
            (print_date 21)
            ok.redeemable.invite)
redeem_invite-cases_example =
    redeem_invite-cases codec print_date minted token joiner 20 21 {q = spent} {r = redeemed nonce}
      succeeded

redeemed_once_example :
    redeem_invite codec print_date spent token joiner 30 31 ≢ (redeemed nonce, spent)
redeemed_once_example =
    redeemed_once codec print_date (λ ms. refl) minted spent spent spent nonce token joiner token
      joiner 20 21 30 31 succeeded (here spent)

abbrev withdrawn : Pact
withdrawn = record fresh {
  invites = record invite { revoked = true; revoked_at = some (print_date 15) } ∷ [];
}

revoked : revoke_invite print_date minted nonce 15 ≡ some withdrawn
unfolding revoke_invite find_invite update_invite
revoked = refl

revoked_is_final_example :
    redeem_invite codec print_date withdrawn token joiner 30 31 ≢ (redeemed nonce, withdrawn)
revoked_is_final_example =
    revoked_is_final codec print_date (λ ms. refl) minted withdrawn withdrawn withdrawn nonce token
      joiner 15 30 31 revoked (here withdrawn)

created_is_redeemable_example :
    (redeem_invite codec print_date minted token joiner 20 21).0 ≡ redeemed nonce
unfolding find_invite
created_is_redeemable_example =
    created_is_redeemable codec codec_laws print_date (λ ms. refl) fresh minted token nonce joiner
      100 10 20 21 created refl refl refl refl refl refl (omega arith)
