-- ===== src/PeerHandle/Canonical.antt =====
-- Handles that `derive` makes, against `HANDLE_RE`.
use Prim.Native.String.{String}
use mathlib.Core.Option.{some-injective}
use openpact.Prelude.{
  ℕ, zero, suc, ◌<◌, ◌≡◌, refl, subst, Text, codes, some, List, [], ◌∷◌, ◌++◌, Bool, true, false,
  ◌&&◌, ◌||◌, length, all, All, arith, truthy,
}
use openpact.Hex.{to_hex, is_hex, IsByte, to_hex-is_hex, length-to_hex}
use openpact.Words.{word_list}
use openpact.PeerHandle.{derive, is_valid, word_at, word_index, is_lower, match_word, match_hex}

is_word : Text → Bool
is_word w = truthy w && all is_lower w

words_ok : all (λ w. is_word (codes w)) word_list ≡ true
unfolding is_word word_list
words_ok = refl

length-word_list : length word_list ≡ 256
unfolding word_list
length-word_list = refl

word_at-is_word :
    (ws : List String) (i : ℕ)
    → all (λ w. is_word (codes w)) ws ≡ true
    → i < length ws
    → is_word (word_at ws i) ≡ true
word_at-is_word [] i h k = absurd (omega arith)
word_at-is_word (w ∷ ws) zero h k = ground arith
word_at-is_word (w ∷ ws) (suc i) h k = ground (arith, word_at-is_word ws i)

match_word-append :
    (seen : Bool) (w s : Text)
    → all is_lower w ≡ true
    → match_word seen (w ++ (codes "-" ++ s)) ≡ ((seen || truthy w) && match_hex 8 s)
unfolding match_word
match_word-append seen [] s h = ground arith
match_word-append seen (c ∷ w) s h = ground (arith, match_word-append true w s)

match_hex-all : (n : ℕ) (s : Text) → length s ≡ n → all is_hex s ≡ true → match_hex n s ≡ true
unfolding match_hex
match_hex-all zero [] e h = refl
match_hex-all zero (c ∷ s) e h = absurd (omega arith)
match_hex-all (suc n) [] e h = absurd (omega arith)
match_hex-all (suc n) (c ∷ s) e h = ground (arith, match_hex-all n s (omega arith))

chosen_word : (b0 b1 : ℕ) → is_word (word_at word_list (word_index b0 b1)) ≡ true
unfolding word_index
chosen_word b0 b1 = word_at-is_word word_list _ words_ok (omega (arith, length-word_list))

handle_form :
    (b0 b1 : ℕ) (bs : List ℕ)
    → All IsByte bs
    → length bs ≡ 4
    → is_valid (codes "anon-" ++ (word_at word_list (word_index b0 b1) ++ (codes "-" ++ to_hex bs)))
      ≡ true
unfolding is_valid
handle_form b0 b1 bs bytes e =
    let wordy : (truthy (word_at word_list (word_index b0 b1))
          && all is_lower (word_at word_list (word_index b0 b1)))
        ≡ true =
      (unfold is_word in chosen_word b0 b1) in
    ground (
      arith,
      wordy,
      match_word-append false (word_at word_list (word_index b0 b1)) (to_hex bs),
      match_hex-all 8 (to_hex bs) (omega (arith, length-to_hex bs)) (to_hex-is_hex bs bytes),
    )

-- What `derive` makes of a public key, a list of bytes, is a valid handle.
pub derive-is_valid :
    (bs : List ℕ) (handle : Text) → All IsByte bs → derive bs ≡ some handle → is_valid handle ≡ true
unfolding derive
derive-is_valid (b0 ∷ b1 ∷ b2 ∷ b3 ∷ b4 ∷ b5 ∷ rest) handle (_, (_, (k2, (k3, (k4, (k5, _)))))) e =
    subst (λ t. is_valid t ≡ true) (some-injective _ _ e)
      (handle_form b0 b1 (b2 ∷ b3 ∷ b4 ∷ b5 ∷ []) (k2, (k3, (k4, (k5, tt)))) refl)
derive-is_valid bs handle bytes e = cc
