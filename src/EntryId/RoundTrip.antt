-- ===== src/EntryId/RoundTrip.antt =====
-- Decoding an entry id that was encoded.
use mathlib.Core.List.{append_assoc, append-nil}
use openpact.Prelude.{
  ℕ, zero, suc, ◌≤◌, ◌≡◌, refl, Text, codes, some, List, [], ◌∷◌, ◌++◌, true, length, take, all,
  All, arith,
}
use openpact.Hex.{to_hex, is_hex, IsByte, to_hex-is_hex, to_lower_case-to_hex, length-to_hex}
use openpact.EntryId.{encode, decode, is_valid, buffer, match_short, after_short}
use openpact.EntryId.Decimal.{to_decimal, of_digits-to_decimal, all_digits-to_decimal}

match_short-append :
    (n : ℕ) (short t rest : Text)
    → length t ≡ n
    → all is_hex t ≡ true
    → match_short n short (t ++ rest) ≡ after_short (short ++ t) rest
unfolding match_short
match_short-append zero short [] rest e h = simp append-nil
match_short-append zero short (c ∷ t) rest e h = absurd (omega arith)
match_short-append (suc n) short [] rest e h = absurd (omega arith)
match_short-append (suc n) short (c ∷ t) rest e h = ground (
  arith,
  match_short-append n (short ++ c ∷ []) t rest (omega arith),
  append_assoc short (c ∷ []) t,
)

length-take_le : (n : ℕ) (s : Text) → n ≤ length s → length (take n s) ≡ n
length-take_le zero s h = omega arith
length-take_le (suc n) [] h = absurd (omega arith)
length-take_le (suc n) (c ∷ s) h = omega (arith, length-take_le n s)

all-take : (n : ℕ) (s : Text) → all is_hex s ≡ true → all is_hex (take n s) ≡ true
all-take zero s h = refl
all-take (suc n) [] h = refl
all-take (suc n) (c ∷ s) h = ground (arith, all-take n s)

encode-buffer :
    (bs : List ℕ) (seq : ℕ)
    → All IsByte bs
    → 4 ≤ length bs
    → encode (buffer bs) seq ≡ some (take 8 (to_hex bs) ++ (codes "-" ++ to_decimal seq))
unfolding encode
encode-buffer bs seq bytes h = ground (arith, to_lower_case-to_hex bs bytes, length-to_hex bs)

decode-short :
    (short : Text) (seq : ℕ)
    → length short ≡ 8
    → all is_hex short ≡ true
    → decode (short ++ (codes "-" ++ to_decimal seq))
      ≡ some (record { writer_short = short; seq = seq })
unfolding decode
decode-short short seq e h =
    rw (match_short-append 8 [] short _ e h)
      (ground (arith, all_digits-to_decimal seq, of_digits-to_decimal seq))

-- What `encode` makes of a writer key (a buffer of at least four bytes) and a sequence number that
-- is a safe integer decodes to the first eight hex digits of the key and that number, and is a valid id.
pub decode-encode :
    (bs : List ℕ) (seq : ℕ)
    → All IsByte bs
    → 4 ≤ length bs
    → seq ≤ 9007199254740991
    → (id : Text) × (encode (buffer bs) seq ≡ some id)
      × (decode id ≡ some (record { writer_short = take 8 (to_hex bs); seq = seq }))
      × (is_valid id ≡ true)
unfolding is_valid
decode-encode bs seq bytes h safe =
    let decoded =
      decode-short (take 8 (to_hex bs)) seq
        (length-take_le 8 (to_hex bs) (omega (arith, length-to_hex bs)))
        (all-take 8 (to_hex bs) (to_hex-is_hex bs bytes)) in
    (_, encode-buffer bs seq bytes h, decoded, rw (is_valid, decoded))
