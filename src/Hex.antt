-- ===== src/Hex.antt =====
-- `Buffer.toString('hex')` and `Buffer.from(text, 'hex')`, on lists of bytes.
use openpact.Prelude.{
  ℕ, ◌+◌, ◌-◌, ◌*◌, ◌/◌, ◌%◌, ◌<◌, ◌≡◌, refl, ◌∙◌, ap, to_lower_case, Text, Option, none, some,
  List, [], ◌∷◌, Bool, ◌&&◌, ◌||◌, true, ltb, leb, arith, if◌then◌else◌, All, all, length,
}

hex_digit : ℕ → ℕ
hex_digit n = if ltb n 10 then 48 + n else 87 + n

unfoldable pub to_hex : List ℕ → Text
unfolding hex_digit
to_hex [] = []
to_hex (b ∷ bs) = hex_digit (b / 16) ∷ hex_digit (b % 16) ∷ to_hex bs

hex_value : ℕ → Option ℕ
hex_value c =
    if leb 48 c && leb c 57
    then some (c - 48)
    else if leb 97 c && leb c 102
    then some (c - 87)
    else if leb 65 c && leb c 70
    then some (c - 55)
    else none

with_digits : Option ℕ → Option ℕ → List ℕ → List ℕ
with_digits (some hi) (some lo) rest = (hi * 16 + lo) ∷ rest
with_digits (some hi) none rest = []
with_digits none lo rest = []

-- Decoding stops at the first pair that is not two digits.
unfoldable pub from_hex : Text → List ℕ
unfolding hex_value with_digits
from_hex [] = []
from_hex (c ∷ []) = []
from_hex (c ∷ d ∷ s) = with_digits (hex_value c) (hex_value d) (from_hex s)

abbrev pub IsByte : ℕ → Type 0
IsByte b = b < 256

hex_value-hex_digit : (n : ℕ) → n < 16 → hex_value (hex_digit n) ≡ some n
unfolding hex_value hex_digit
hex_value-hex_digit n h = ground arith

from_hex_step :
    (hi lo : ℕ) (s : Text)
    → hi < 16
    → lo < 16
    → from_hex (hex_digit hi ∷ hex_digit lo ∷ s) ≡ (hi * 16 + lo) ∷ from_hex s
unfolding from_hex with_digits
from_hex_step hi lo s h k = rw (hex_value-hex_digit hi h, hex_value-hex_digit lo k)

pub from_hex-to_hex : (bs : List ℕ) → All IsByte bs → from_hex (to_hex bs) ≡ bs
unfolding to_hex
from_hex-to_hex [] h = unfold from_hex in refl
from_hex-to_hex (b ∷ bs) (h, hs) =
    from_hex_step (b / 16) (b % 16) (to_hex bs) (omega arith) (omega arith)
    ∙ ground (arith, from_hex-to_hex bs hs)

pub length-to_hex : (bs : List ℕ) → length (to_hex bs) ≡ 2 * length bs
unfolding to_hex
length-to_hex [] = omega arith
length-to_hex (b ∷ bs) = omega (arith, length-to_hex bs)

-- `[0-9a-f]`
abbrev pub is_hex : ℕ → Bool
is_hex c = leb 48 c && leb c 57 || leb 97 c && leb c 102

hex_digit-is_hex : (n : ℕ) → n < 16 → is_hex (hex_digit n) ≡ true
unfolding hex_digit
hex_digit-is_hex n h = ground arith

pub to_hex-is_hex : (bs : List ℕ) → All IsByte bs → all is_hex (to_hex bs) ≡ true
unfolding to_hex
to_hex-is_hex [] h = refl
to_hex-is_hex (b ∷ bs) (h, hs) = ground (
  arith,
  hex_digit-is_hex (b / 16) (omega arith),
  hex_digit-is_hex (b % 16) (omega arith),
  to_hex-is_hex bs hs,
)

lower-hex_digit :
    (n : ℕ) (s : Text) → to_lower_case (hex_digit n ∷ s) ≡ hex_digit n ∷ to_lower_case s
unfolding to_lower_case hex_digit
lower-hex_digit n s = ground arith

pub to_lower_case-to_hex : (bs : List ℕ) → All IsByte bs → to_lower_case (to_hex bs) ≡ to_hex bs
unfolding to_hex
to_lower_case-to_hex [] h = unfold to_lower_case in refl
to_lower_case-to_hex (b ∷ bs) (h, hs) =
    lower-hex_digit (b / 16) _
    ∙ ap (λ s. hex_digit (b / 16) ∷ s)
        (lower-hex_digit (b % 16) _ ∙ ap (λ s. hex_digit (b % 16) ∷ s) (to_lower_case-to_hex bs hs))
