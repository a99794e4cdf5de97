-- ===== src/Examples/Entries.antt =====
-- packages/daemon/src/entry-id.ts, peer-handle.ts and schemas/index.ts on single values.
use openpact.Prelude.{
  ℕ, Text, codes, some, List, [], ◌∷◌, Bool, true, false, ◌≡◌, ◌↔◌, refl, arith, All, take,
}
use openpact.Json.{Json, str, obj, end, entry, to_text}
use openpact.Hex.{to_hex, IsByte}
use openpact.Words.{word_list}
use openpact.EntryId
use openpact.EntryId.{encode, decode, buffer}
use openpact.EntryId.RoundTrip.{decode-encode}
use openpact.PeerHandle
use openpact.PeerHandle.Canonical.{derive-is_valid}
use openpact.Schemas.{
  EntryType, ValidationResult, validate, find_validator, is_truthy, check_schema, check_size,
  validate_type,
}
use openpact.Schemas.Accepts.{IsAccepted, validate_iff}

abbrev key : List ℕ
key = 1 ∷ 2 ∷ 3 ∷ 4 ∷ 5 ∷ 6 ∷ []

key_bytes : All IsByte key
key_bytes =
    (omega arith, (omega arith, (omega arith, (omega arith, (omega arith, (omega arith, tt))))))

decode-encode_example :
    (id : Text) × (encode (buffer key) 12 ≡ some id)
    × (decode id ≡ some (record { writer_short = take 8 (to_hex key); seq = 12 }))
    × (EntryId.is_valid id ≡ true)
decode-encode_example = decode-encode key 12 key_bytes (omega arith) (omega arith)

derived : PeerHandle.derive key ≡ some (codes "anon-cobra-03040506")
unfolding PeerHandle.derive PeerHandle.word_index word_list to_hex
derived = refl

derive-is_valid_example : PeerHandle.is_valid (codes "anon-cobra-03040506") ≡ true
derive-is_valid_example = derive-is_valid key (codes "anon-cobra-03040506") key_bytes derived

abbrev refuses : EntryType → Json → Bool
refuses t e = false

abbrev knows : EntryType → Json → Bool
knows t e = true

abbrev small : Json → ℕ
small j = 10

abbrev of_type : Text → Json
of_type t = obj (entry (codes "type") (str t) (entry (codes "payload") (str (codes "p")) end))

-- An entry that no schema accepts passes under an inherited name.
validate_runs :
    (validate refuses small (of_type (codes "constructor")) ≡ ValidationResult.valid)
    × (validate knows small (of_type (codes "message")) ≡ ValidationResult.valid)
unfolding validate validate_type is_truthy check_schema find_validator to_text check_size
validate_runs = (refl, refl)

validate_iff_example :
    (validate knows small (of_type (codes "message")) ≡ ValidationResult.valid)
    ↔ IsAccepted knows small (of_type (codes "message"))
validate_iff_example = validate_iff knows small (of_type (codes "message"))
