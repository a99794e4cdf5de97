-- ===== src/Wire/RoundTrip.antt =====
-- Decoding a frame that was encoded.
use openpact.Prelude.{
  Text, Option, none, some, [], ◌∷◌, ◌++◌, Bool, true, ◌≡◌, not, ◌&&◌, leb, if◌then◌else◌,
}
use mathlib.Core.List.{append_assoc}
use openpact.Wire.{
  Bytes, Coding, MemberAuthResponse, RedeemRequest, or_empty, or_undefined, is_true, or_alloc,
  signature_of, member_response_encode, member_response_decode, redeem_request_encode,
  redeem_request_decode,
}

abbrev pub null_if_empty : Bytes → Option Bytes
null_if_empty [] = none
null_if_empty (b ∷ bs) = some (b ∷ bs)

-- No surrogate stands alone, so that UTF-8 keeps the text.
unfoldable pub is_well_formed : Text → Bool
is_well_formed [] = true
is_well_formed (c ∷ []) = not (leb 55296 c && leb c 57343)
is_well_formed (c ∷ d ∷ s) =
    let after_pair = is_well_formed s in
    let after_one = is_well_formed (d ∷ s) in
    if leb 55296 c && leb c 56319
    then leb 56320 d && leb d 57343 && after_pair
    else not (leb 56320 c && leb c 57343) && after_one

-- What compact-encoding documents: each decoder reads back what its encoder wrote, and leaves the
-- rest; an empty buffer is read back as null, and a string is coded in UTF-8.
pub record IsCoding (c : Coding) : Type 0 where
  pub string :
      (s : Text)
      → is_well_formed s ≡ true
      → (rest : Bytes) → c.string_decode (c.string_encode s ++ rest) ≡ some (s, rest)
  pub buffer :
      (b rest : Bytes) → c.buffer_decode (c.buffer_encode b ++ rest) ≡ some (null_if_empty b, rest)
  pub flag : (b : Bool) (rest : Bytes) → c.bool_decode (c.bool_encode b ++ rest) ≡ some (b, rest)

-- The texts of a response are well-formed.
pub record HasTexts (m : MemberAuthResponse) : Type 0 where
  pub member_key : is_well_formed (or_empty m.member_key) ≡ true
  pub signer_key : is_well_formed (or_empty m.signer_key) ≡ true
  pub signer_namespace : is_well_formed (or_empty m.signer_namespace) ≡ true
  pub code : is_well_formed (or_empty m.code) ≡ true
  pub message : is_well_formed (or_empty m.message) ≡ true

module _ (c : Coding) (laws : IsCoding c) where
  -- A member-auth response with well-formed texts decodes to its fields, and leaves the bytes
  -- after it: empty texts and an empty signature become undefined, an empty `corr` null, and a
  -- missing `compat` false.
  pub member_response-round_trip :
      (m : MemberAuthResponse) (texts : HasTexts m) (rest : Bytes)
      → member_response_decode c (member_response_encode c m ++ rest)
        ≡ some (
          record {
            corr = null_if_empty (or_alloc m.corr);
            ok = m.ok;
            member_key = or_undefined (or_empty m.member_key);
            signer_key = or_undefined (or_empty m.signer_key);
            signer_namespace = or_undefined (or_empty m.signer_namespace);
            compat = some (is_true m.compat);
            signature = signature_of (null_if_empty (or_alloc m.signature));
            code = or_undefined (or_empty m.code);
            message = or_undefined (or_empty m.message);
          },
          rest,
        )
  unfolding member_response_encode member_response_decode
  member_response-round_trip m texts rest = simp (
    append_assoc,
    laws.string (or_empty m.member_key) texts.member_key,
    laws.string (or_empty m.signer_key) texts.signer_key,
    laws.string (or_empty m.signer_namespace) texts.signer_namespace,
    laws.string (or_empty m.code) texts.code,
    laws.string (or_empty m.message) texts.message,
    laws.buffer,
    laws.flag,
  )

  -- A redeem request with well-formed texts decodes to its fields, an empty `corr` to null, and
  -- leaves the bytes after it.
  redeem_request-round_trip :
      (m : RedeemRequest) (rest : Bytes)
      → is_well_formed m.pact_id ≡ true
      → is_well_formed m.token ≡ true
      → is_well_formed m.writer_key ≡ true
      → redeem_request_decode c (redeem_request_encode c m ++ rest)
        ≡ some (record m { corr = null_if_empty (or_alloc m.corr) }, rest)
  unfolding redeem_request_encode redeem_request_decode
  redeem_request-round_trip m rest p t w = simp (
    append_assoc,
    laws.string m.pact_id p,
    laws.string m.token t,
    laws.string m.writer_key w,
    laws.buffer,
  )
