-- ===== src/Invites.antt =====
-- packages/daemon/src/invites.ts: invite tokens and the records of minted invites.
-- `JSON.stringify` and `JSON.parse`, the base64url coding of a text and `Date.parse` are
-- parameters. Times are milliseconds counted from the earliest date that `Date` holds.
pub mod Token
use openpact.Prelude.{
  ℕ, zero, suc, ◌*◌, Text, codes, truthy, text_eq, Option, none, some, List, [], ◌∷◌, Bool, true,
  false, not, ◌&&◌, ◌||◌, leb, if◌then◌else◌, length, all, ◌==◌,
}
use openpact.Json.{Json, null, bool, num, str, arr, obj, end, entry, field, text_of, is_object}
use openpact.Hex.{is_hex}

abbrev pub default_ttl_ms : ℕ
default_ttl_ms = 7 * 24 * 60 * 60 * 1000

pub record Invite : Type 0 where
  pub nonce : Text
  pub expires_at : Text
  pub created_at : Text
  pub ttl_ms : ℕ
  pub pact_name : Option Text
  pub issuer_display : Option Text
  pub revoked : Bool
  pub revoked_at : Option Text
  pub spent_at : Option Text
  pub spent_by : Option Text

-- The `v` of a payload is always 1.
pub record InviteTokenPayload : Type 0 where
  pub pact_id : Text
  pub nonce : Text
  pub expires_at : Text
  pub pact_name : Option Text
  pub pact_purpose : Option Text
  pub issuer_display : Option Text

pub data InviteDecodeCode : Type 0 where
  bad_token bad_version bad_shape : InviteDecodeCode

pub data Decoded : Type 0 where
  decoded : InviteTokenPayload → Decoded
  decode_error : InviteDecodeCode → Decoded

-- Strings in JSON are null or a text.
abbrev pub nullable : Option Text → Json
nullable none = null
nullable (some s) = str s

abbrev pub token_json : InviteTokenPayload → Json
token_json p = obj (
    entry (codes "v") (num (codes "1")) (
      entry (codes "pactId") (str p.pact_id) (
        entry (codes "nonce") (str p.nonce) (
          entry (codes "expiresAt") (str p.expires_at) (
            entry (codes "pactName") (nullable p.pact_name) (
              entry (codes "pactPurpose") (nullable p.pact_purpose)
                (entry (codes "issuerDisplay") (nullable p.issuer_display) end)))))))

pub record TokenCodec : Type 0 where
  pub stringify : Json → Text
  pub parse : Text → Option Json
  pub to_base64url : Text → Text
  pub from_base64url : Text → Option Text
  pub parse_date : Text → Option ℕ

-- `[0-9a-f]` under the flag `i`
abbrev pub is_hex_i : ℕ → Bool
is_hex_i c = is_hex c || leb 65 c && leb c 70

-- `/^[0-9a-f]{n}$/i`
abbrev pub is_hex_text : ℕ → Text → Bool
is_hex_text n s = length s == n && all is_hex_i s

-- The text of a value that is a text.
abbrev pub as_text : Option Json → Option Text
as_text (some (str s)) = some s
as_text none = none
as_text (some null) = none
as_text (some (bool b)) = none
as_text (some (num n)) = none
as_text (some (arr xs)) = none
as_text (some (obj fs)) = none

abbrev pub is_one : Option Json → Bool
is_one (some (num n)) = text_eq n (codes "1")
is_one none = false
is_one (some null) = false
is_one (some (bool b)) = false
is_one (some (str s)) = false
is_one (some (arr xs)) = false
is_one (some (obj fs)) = false

module _ (c : TokenCodec) where
  unfoldable pub encode_token : InviteTokenPayload → Text
  encode_token p = c.to_base64url (c.stringify (token_json p))

  -- `typeof value === 'string' && test(value)`
  abbrev pub text_that : (Text → Bool) → Option Text → Bool
  text_that test none = false
  text_that test (some s) = test s

  is_date : Text → Bool
  is_date s = elim (c.parse_date s) [ none ↦ false | some ms ↦ true ]

  -- The checks of the decoded value, in their order.
  unfoldable pub check_token : Json → Decoded
  unfolding is_date
  check_token p =
      if not (is_object p)
      then decode_error bad_shape
      else if not (is_one (field "v" p))
      then decode_error bad_version
      else if text_that (is_hex_text 64) (as_text (field "pactId" p))
          && (text_that (is_hex_text 48) (as_text (field "nonce" p))
              && text_that is_date (as_text (field "expiresAt" p)))
      then decoded (record {
        pact_id = text_of (field "pactId" p);
        nonce = text_of (field "nonce" p);
        expires_at = text_of (field "expiresAt" p);
        pact_name = as_text (field "pactName" p);
        pact_purpose = as_text (field "pactPurpose" p);
        issuer_display = as_text (field "issuerDisplay" p);
      })
      else decode_error bad_shape

  unfoldable pub decode_token : Text → Decoded
  decode_token token =
      if truthy token
      then (elim (c.from_base64url token) [
        | none ↦ decode_error bad_token
        | some json ↦ elim (c.parse json) [
          | none ↦ decode_error bad_token
          | some value ↦ check_token value
        ]
      ])
      else decode_error bad_token

-- `Date.parse(expiresAt) <= now`, false where the date is NaN.
abbrev pub has_expired : Option ℕ → ℕ → Bool
has_expired none now = false
has_expired (some ms) now = leb ms now

abbrev pub is_spent : Option Text → Bool
is_spent none = false
is_spent (some at) = truthy at

-- `isDead`: the invite is no longer redeemable.
unfoldable pub is_dead : (Text → Option ℕ) → Invite → ℕ → Bool
is_dead parse_date inv now =
    if inv.revoked
    then true
    else if is_spent inv.spent_at
    then true
    else has_expired (parse_date inv.expires_at) now

pub record InviteSummary : Type 0 where
  pub nonce : Text
  pub expires_at : Text
  pub created_at : Text
  pub pact_name : Option Text
  pub issuer_display : Option Text
  pub revoked : Bool
  pub spent_at : Option Text
  pub spent_by : Option Text
  pub dead : Bool

unfoldable pub summarise : (Text → Option ℕ) → Invite → ℕ → InviteSummary
summarise parse_date inv now = record {
  nonce = inv.nonce;
  expires_at = inv.expires_at;
  created_at = inv.created_at;
  pact_name = inv.pact_name;
  issuer_display = inv.issuer_display;
  revoked = inv.revoked;
  spent_at = inv.spent_at;
  spent_by = inv.spent_by;
  dead = is_dead parse_date inv now;
}
