-- ===== src/Invites/Token.antt =====
-- Decoding a token that was encoded.
use openpact.Prelude.{ℕ, Text, truthy, Option, none, some, true, ◌≡◌, refl, arith}
use openpact.Invites.{
  InviteTokenPayload, TokenCodec, token_json, nullable, as_text, is_hex_text, encode_token,
  decode_token, check_token, decoded,
}

-- What is asked of the codings: they are inverse to each other on the tokens' JSON texts, and
-- base64url makes no empty text of one.
pub record IsCodec (c : TokenCodec) : Type 0 where
  pub parse-stringify :
      (p : InviteTokenPayload) → c.parse (c.stringify (token_json p)) ≡ some (token_json p)
  pub from-to :
      (p : InviteTokenPayload)
      → c.from_base64url (c.to_base64url (c.stringify (token_json p)))
        ≡ some (c.stringify (token_json p))
  pub not_empty :
      (p : InviteTokenPayload) → truthy (c.to_base64url (c.stringify (token_json p))) ≡ true

pub as_text-nullable : (o : Option Text) → as_text (some (nullable o)) ≡ o
as_text-nullable none = refl
as_text-nullable (some s) = refl

check_token-token_json :
    (c : TokenCodec) (p : InviteTokenPayload) (ms : ℕ)
    → is_hex_text 64 p.pact_id ≡ true
    → is_hex_text 48 p.nonce ≡ true
    → c.parse_date p.expires_at ≡ some ms
    → check_token c (token_json p) ≡ decoded p
unfolding check_token
check_token-token_json c p ms id nonce date = ground (
  arith,
  as_text-nullable p.pact_name,
  as_text-nullable p.pact_purpose,
  as_text-nullable p.issuer_display,
)

-- A token decodes to its payload, if the pact id and the nonce are hex texts of 64 and 48 digits
-- and the expiry is a date.
pub decode_token-encode_token :
    (c : TokenCodec) (laws : IsCodec c) (p : InviteTokenPayload) (ms : ℕ)
    → is_hex_text 64 p.pact_id ≡ true
    → is_hex_text 48 p.nonce ≡ true
    → c.parse_date p.expires_at ≡ some ms
    → decode_token c (encode_token c p) ≡ decoded p
unfolding decode_token encode_token
decode_token-encode_token c laws p ms id nonce date =
    rw (laws.not_empty, laws.from-to, laws.parse-stringify)
      (check_token-token_json c p ms id nonce date)
