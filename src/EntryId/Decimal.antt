-- ===== src/EntryId/Decimal.antt =====
-- Decimal texts of natural numbers: the template's `${seq}` and `Number` on `\d+`.
use Prim.Native.Nat.{◌^◌}
use openpact.Prelude.{
  ℕ, zero, suc, ◌+◌, ◌-◌, ◌*◌, ◌/◌, ◌%◌, ◌<◌, ◌≡◌, refl, Text, [], ◌∷◌, Bool, true, ◌&&◌, ltb, leb,
  ◌≤◌, length, if◌then◌else◌, truthy, all, arith,
}

-- `fuel` bounds the number of digits.
digits_from : ℕ → ℕ → Text → Text
digits_from zero n acc = acc
digits_from (suc fuel) n acc =
    let more = digits_from fuel (n / 10) ((48 + n % 10) ∷ acc) in
    if ltb n 10 then (48 + n) ∷ acc else more

unfoldable pub to_decimal : ℕ → Text
unfolding digits_from
to_decimal n = digits_from (suc n) n []

abbrev pub is_digit : ℕ → Bool
is_digit c = leb 48 c && leb c 57

-- `\d+`
abbrev pub all_digits : Text → Bool
all_digits s = truthy s && all is_digit s

value_from : ℕ → Text → ℕ
value_from n [] = n
value_from n (c ∷ s) = value_from (n * 10 + (c - 48)) s

unfoldable pub of_digits : Text → ℕ
unfolding value_from
of_digits s = value_from 0 s

value_from-digits_from :
    (fuel n : ℕ) (acc : Text) → n < fuel → value_from 0 (digits_from fuel n acc) ≡ value_from n acc
unfolding value_from digits_from
value_from-digits_from zero n acc h = elim h [ ]
value_from-digits_from (suc fuel) n acc h =
    ground (arith, value_from-digits_from fuel (n / 10) ((48 + n % 10) ∷ acc))

all_digits-digits_from :
    (fuel n : ℕ) (acc : Text)
    → n < fuel
    → all is_digit acc ≡ true
    → all_digits (digits_from fuel n acc) ≡ true
unfolding digits_from
all_digits-digits_from zero n acc h k = elim h [ ]
all_digits-digits_from (suc fuel) n acc h k =
    ground (arith, all_digits-digits_from fuel (n / 10) ((48 + n % 10) ∷ acc))

pub of_digits-to_decimal : (n : ℕ) → of_digits (to_decimal n) ≡ n
of_digits-to_decimal n =
    unfold of_digits to_decimal value_from in value_from-digits_from (suc n) n [] (omega arith)

pub all_digits-to_decimal : (n : ℕ) → all_digits (to_decimal n) ≡ true
unfolding to_decimal
all_digits-to_decimal n = all_digits-digits_from (suc n) n [] (omega arith) refl

length-digits_from :
    (k fuel n : ℕ) (acc : Text)
    → n < 10 ^ suc k
    → length (digits_from fuel n acc) ≤ suc k + length acc
unfolding digits_from
length-digits_from k zero n acc h = omega arith
length-digits_from zero (suc fuel) n acc h = ground arith
length-digits_from (suc k) (suc fuel) n acc h =
    ground (arith, length-digits_from k fuel (n / 10) ((48 + n % 10) ∷ acc))

-- A number below 10 ^ (k + 1) has at most k + 1 digits.
pub length-to_decimal : (k n : ℕ) → n < 10 ^ suc k → length (to_decimal n) ≤ suc k
unfolding to_decimal
length-to_decimal k n h = omega (arith, length-digits_from k (suc n) n [] h)
