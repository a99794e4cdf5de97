-- ===== src/Aliases/Slugs.antt =====
-- The shape of what slugify makes.
use openpact.Prelude.{
  ℕ, zero, suc, Text, [], ◌∷◌, Bool, true, false, not, ◌==◌, ◌≤◌, ◌≡◌, inl, inr, refl, arith,
  length, take, all, truthy, Bool-cases,
}
use openpact.Aliases.{
  is_alnum, is_alias_char, alias_max, validate_alias, lower_text, dash_runs, trim_left, trim_right,
  slugify, slug_or_pact,
}

all_chars-dash_runs : (b : Bool) (s : Text) → all is_alias_char (dash_runs b s) ≡ true
unfolding dash_runs
all_chars-dash_runs b [] = refl
all_chars-dash_runs b (c ∷ s) = ground (arith, all_chars-dash_runs (not (is_alnum c)) s)

-- Every unit may stand in an alias, and the first is no dash.
IsTrimmed : Text → Type 0
IsTrimmed [] = Unit
IsTrimmed (c ∷ s) = (is_alnum c ≡ true) × (all is_alias_char s ≡ true)

trim_left-IsTrimmed : (s : Text) → all is_alias_char s ≡ true → IsTrimmed (trim_left s)
unfolding trim_left IsTrimmed
trim_left-IsTrimmed [] h = tt
trim_left-IsTrimmed (c ∷ s) h = elim (Bool-cases (c == 45)) [
  | inl dash ↦ rw dash (trim_left-IsTrimmed s (ground arith))
  | inr other ↦ rw other (ground arith, ground arith)
]

all_chars-trim_right :
    (s : Text) → all is_alias_char s ≡ true → all is_alias_char (trim_right s) ≡ true
unfolding trim_right
all_chars-trim_right [] h = refl
all_chars-trim_right (c ∷ s) h = ground (arith, all_chars-trim_right s)

trim_right-IsTrimmed : (s : Text) → IsTrimmed s → IsTrimmed (trim_right s)
unfolding trim_right IsTrimmed
trim_right-IsTrimmed [] h = tt
trim_right-IsTrimmed (c ∷ s) (h, k) = elim (Bool-cases (c == 45)) [
  | inl dash ↦ absurd (ground arith)
  | inr other ↦ rw other (h, all_chars-trim_right s k)
]

all_chars-take :
    (n : ℕ) (s : Text) → all is_alias_char s ≡ true → all is_alias_char (take n s) ≡ true
all_chars-take zero s h = refl
all_chars-take (suc n) [] h = refl
all_chars-take (suc n) (c ∷ s) h = ground (arith, all_chars-take n s)

length-take : (n : ℕ) (s : Text) → length (take n s) ≤ n
length-take zero s = omega arith
length-take (suc n) [] = omega arith
length-take (suc n) (c ∷ s) = omega (arith, length-take n s)

take-validate_alias :
    (s : Text)
    → IsTrimmed s
    → truthy (take alias_max s) ≡ true
    → validate_alias (take alias_max s) ≡ true
unfolding validate_alias IsTrimmed
take-validate_alias [] h k = absurd (ground arith)
take-validate_alias (c ∷ s) (h, hs) k = ground (arith, all_chars-take 47 s hs, length-take 47 s)

slugify-validate_alias :
    (name : Text) → truthy (slugify name) ≡ true → validate_alias (slugify name) ≡ true
unfolding slugify
slugify-validate_alias name h =
    let dashed = dash_runs false (lower_text name) in
    take-validate_alias (trim_right (trim_left dashed))
      (trim_right-IsTrimmed (trim_left dashed)
        (trim_left-IsTrimmed dashed (all_chars-dash_runs false (lower_text name))))
      h

pub slug-validate_alias : (name : Text) → validate_alias (slug_or_pact name) ≡ true
unfolding validate_alias
slug-validate_alias name = elim (Bool-cases (truthy (slugify name))) [
  | inl slug ↦ rw slug (slugify-validate_alias name slug)
  | inr empty ↦ rw empty refl
]
