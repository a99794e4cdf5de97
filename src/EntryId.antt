-- ===== src/EntryId.antt =====
-- packages/daemon/src/entry-id.ts: the ids `<first 8 hex digits of the writer key>-<seq>`.
-- `none` is a thrown error. Sequence numbers are safe integers, which JavaScript prints and reads
-- without rounding.
pub mod Decimal
pub mod RoundTrip
use openpact.Prelude.{
  ℕ, zero, suc, Text, codes, Option, none, some, List, [], ◌∷◌, ◌++◌, Bool, true, false, ◌&&◌, ltb,
  leb, ◌==◌, if◌then◌else◌, is_some, length, take, to_lower_case,
}
use openpact.Hex.{to_hex, is_hex}
use Decimal.{to_decimal, of_digits, is_digit, all_digits}

pub data WriterKey : Type 0 where
  buffer : List ℕ → WriterKey
  hex_text : Text → WriterKey

pub record DecodedId : Type 0 where
  pub writer_short : Text
  pub seq : ℕ

abbrev pub short_len : ℕ
short_len = 8

unfoldable pub hex_of : WriterKey → Text
hex_of (hex_text s) = to_lower_case s
hex_of (buffer bs) = to_lower_case (to_hex bs)

-- The type of `seq` leaves out what the first test of the source refuses.
unfoldable pub encode : WriterKey → ℕ → Option Text
unfolding hex_of
encode writer_key seq =
    let hex = hex_of writer_key in
    if ltb (length hex) short_len
    then none
    else some (take short_len hex ++ (codes "-" ++ to_decimal seq))

-- The tail of `ID_RE` after the eight digits: `-(\d+)$`.
after_short : Text → Text → Option DecodedId
after_short short [] = none
after_short short (c ∷ s) =
    if c == b'-' && all_digits s
    then some (record { writer_short = short; seq = of_digits s })
    else none

-- `n` more digits of `[0-9a-f]{8}`; `read` holds those before, `short` is their text.
match_short : ℕ → Text → Text → Option DecodedId
match_short zero short s = after_short short s
match_short (suc n) short [] = none
match_short (suc n) short (c ∷ s) =
    let more = match_short n (short ++ c ∷ []) s in if is_hex c then more else none

unfoldable pub decode : Text → Option DecodedId
unfolding match_short after_short
decode id = match_short short_len [] id

unfoldable pub is_valid : Text → Bool
unfolding decode
is_valid id = is_some (decode id)
