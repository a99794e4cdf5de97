-- ===== src/Wire.antt =====
-- packages/daemon/src/member-auth-wire.ts and invite-wire.ts: the frames of the two protocols. The
-- codings of strings, buffers and flags are those of compact-encoding, an interface here. `encode`
-- gives the bytes that it writes at its place, `decode` what it reads and the bytes after it.
pub mod RoundTrip
pub mod Sizes
use openpact.Prelude.{
  ℕ, ◌+◌, Text, truthy, Option, none, some, List, [], ◌∷◌, ◌++◌, Bool, true, false, ◌>>=◌,
}

abbrev pub Bytes : Type 0
Bytes = List ℕ

-- A buffer may be null once it is decoded.
pub record Coding : Type 0 where
  pub string_size : Text → ℕ
  pub string_encode : Text → Bytes
  pub string_decode : Bytes → Option (Text × Bytes)
  pub buffer_size : Bytes → ℕ
  pub buffer_encode : Bytes → Bytes
  pub buffer_decode : Bytes → Option (Option Bytes × Bytes)
  pub bool_size : Bool → ℕ
  pub bool_encode : Bool → Bytes
  pub bool_decode : Bytes → Option (Bool × Bytes)

pub record MemberAuthRequest : Type 0 where
  pub pact_id : Text
  pub challenge : Option Bytes
  pub corr : Option Bytes

pub record MemberAuthResponse : Type 0 where
  pub corr : Option Bytes
  pub ok : Bool
  pub member_key : Option Text
  pub signer_key : Option Text
  pub signer_namespace : Option Text
  pub compat : Option Bool
  pub signature : Option Bytes
  pub code : Option Text
  pub message : Option Text

-- Pings and pongs have one field each.
pub record MemberAuthPing : Type 0 where
  pub corr : Option Bytes

pub record RedeemRequest : Type 0 where
  pub pact_id : Text
  pub token : Text
  pub writer_key : Text
  pub corr : Option Bytes

pub record RedeemResponse : Type 0 where
  pub corr : Option Bytes
  pub ok : Bool
  pub code : Option Text
  pub message : Option Text
  pub nonce : Option Text

-- `value || ''`, and `value || undefined` of what is decoded.
abbrev pub or_empty : Option Text → Text
or_empty none = []
or_empty (some s) = s

abbrev pub or_undefined : Text → Option Text
or_undefined [] = none
or_undefined (c ∷ s) = some (c ∷ s)

-- `compat === true`
abbrev pub is_true : Option Bool → Bool
is_true none = false
is_true (some b) = b

-- `signature || Buffer.alloc(0)`; a null buffer is coded as an empty one.
abbrev pub or_alloc : Option Bytes → Bytes
or_alloc none = []
or_alloc (some b) = b

-- `signature && signature.length > 0 ? signature : undefined`
abbrev pub signature_of : Option Bytes → Option Bytes
signature_of none = none
signature_of (some []) = none
signature_of (some (b ∷ bs)) = some (b ∷ bs)

module _ (c : Coding) where
  unfoldable pub member_request_size : MemberAuthRequest → ℕ
  member_request_size m =
      c.string_size m.pact_id
      + (c.buffer_size (or_alloc m.challenge) + c.buffer_size (or_alloc m.corr))

  unfoldable pub member_request_encode : MemberAuthRequest → Bytes
  member_request_encode m =
      c.string_encode m.pact_id
      ++ (c.buffer_encode (or_alloc m.challenge) ++ c.buffer_encode (or_alloc m.corr))

  unfoldable pub member_request_decode : Bytes → Option (MemberAuthRequest × Bytes)
  member_request_decode s = do
    (pact_id, s1) ← c.string_decode s
    (challenge, s2) ← c.buffer_decode s1
    (corr, s3) ← c.buffer_decode s2
    some (record { pact_id = pact_id; challenge = challenge; corr = corr }, s3)

  unfoldable pub member_response_size : MemberAuthResponse → ℕ
  member_response_size m =
      c.buffer_size (or_alloc m.corr)
      + (c.bool_size m.ok
          + (c.string_size (or_empty m.member_key)
              + (c.string_size (or_empty m.signer_key)
                  + (c.string_size (or_empty m.signer_namespace)
                      + (c.bool_size (is_true m.compat)
                          + (c.buffer_size (or_alloc m.signature)
                              + (c.string_size (or_empty m.code)
                                  + c.string_size (or_empty m.message))))))))

  unfoldable pub member_response_encode : MemberAuthResponse → Bytes
  member_response_encode m =
      c.buffer_encode (or_alloc m.corr)
      ++ (c.bool_encode m.ok
          ++ (c.string_encode (or_empty m.member_key)
              ++ (c.string_encode (or_empty m.signer_key)
                  ++ (c.string_encode (or_empty m.signer_namespace)
                      ++ (c.bool_encode (is_true m.compat)
                          ++ (c.buffer_encode (or_alloc m.signature)
                              ++ (c.string_encode (or_empty m.code)
                                  ++ c.string_encode (or_empty m.message))))))))

  unfoldable pub member_response_decode : Bytes → Option (MemberAuthResponse × Bytes)
  member_response_decode s = do
    (corr, s1) ← c.buffer_decode s
    (ok, s2) ← c.bool_decode s1
    (member_key, s3) ← c.string_decode s2
    (signer_key, s4) ← c.string_decode s3
    (signer_namespace, s5) ← c.string_decode s4
    (compat, s6) ← c.bool_decode s5
    (signature, s7) ← c.buffer_decode s6
    (code, s8) ← c.string_decode s7
    (message, s9) ← c.string_decode s8
    some (
      record {
        corr = corr;
        ok = ok;
        member_key = or_undefined member_key;
        signer_key = or_undefined signer_key;
        signer_namespace = or_undefined signer_namespace;
        compat = some compat;
        signature = signature_of signature;
        code = or_undefined code;
        message = or_undefined message;
      },
      s9,
    )

  unfoldable pub ping_size : MemberAuthPing → ℕ
  ping_size m = c.buffer_size (or_alloc m.corr)

  unfoldable pub ping_encode : MemberAuthPing → Bytes
  ping_encode m = c.buffer_encode (or_alloc m.corr)

  unfoldable pub ping_decode : Bytes → Option (MemberAuthPing × Bytes)
  ping_decode s = do (corr, s1) ← c.buffer_decode s; some (record { corr = corr }, s1)

  unfoldable pub redeem_request_encode : RedeemRequest → Bytes
  redeem_request_encode m =
      c.string_encode m.pact_id
      ++ (c.string_encode m.token
          ++ (c.string_encode m.writer_key ++ c.buffer_encode (or_alloc m.corr)))

  unfoldable pub redeem_request_decode : Bytes → Option (RedeemRequest × Bytes)
  redeem_request_decode s = do
    (pact_id, s1) ← c.string_decode s
    (token, s2) ← c.string_decode s1
    (writer_key, s3) ← c.string_decode s2
    (corr, s4) ← c.buffer_decode s3
    some (record { pact_id = pact_id; token = token; writer_key = writer_key; corr = corr }, s4)

  unfoldable pub redeem_response_size : RedeemResponse → ℕ
  redeem_response_size m =
      c.buffer_size (or_alloc m.corr)
      + (c.bool_size m.ok
          + (c.string_size (or_empty m.code)
              + (c.string_size (or_empty m.message) + c.string_size (or_empty m.nonce))))

  unfoldable pub redeem_response_encode : RedeemResponse → Bytes
  redeem_response_encode m =
      c.buffer_encode (or_alloc m.corr)
      ++ (c.bool_encode m.ok
          ++ (c.string_encode (or_empty m.code)
              ++ (c.string_encode (or_empty m.message) ++ c.string_encode (or_empty m.nonce))))

  unfoldable pub redeem_response_decode : Bytes → Option (RedeemResponse × Bytes)
  redeem_response_decode s = do
    (corr, s1) ← c.buffer_decode s
    (ok, s2) ← c.bool_decode s1
    (code, s3) ← c.string_decode s2
    (message, s4) ← c.string_decode s3
    (nonce, s5) ← c.string_decode s4
    some (
      record {
        corr = corr;
        ok = ok;
        code = or_undefined code;
        message = or_undefined message;
        nonce = or_undefined nonce;
      },
      s5,
    )
