-- ===== src/Aliases/Fresh.antt =====
-- Aliases that no entry has.
use openpact.Prelude.{
  ℕ, zero, suc, ◌+◌, ◌≤◌, ◌<◌, Text, codes, text_eq, text_eq_iff, some, List, [], ◌∷◌, ◌++◌, Bool,
  true, false, ◌==◌, leb, ◌≡◌, inl, inr, refl, sym, ap, ◌∙◌, subst, arith, ◌⊎◌, if◌then◌else◌,
  length, length-append, all, Bool-cases,
}
use openpact.EntryId.Decimal.{
  to_decimal, of_digits, of_digits-to_decimal, is_digit, all_digits-to_decimal, length-to_decimal,
}
use openpact.Aliases.{
  RegistryEntry, is_alias_char, validate_alias, slug_or_pact, some_alias, numbered, first_free,
  unique_alias_from_name,
}
use openpact.Aliases.Slugs.{slug-validate_alias}

-- The list without the first entry of an alias.
drop_alias : Text → List RegistryEntry → List RegistryEntry
drop_alias a [] = []
drop_alias a (p ∷ ps) = let rest = drop_alias a ps in if text_eq p.alias a then ps else p ∷ rest

length-drop_alias :
    (a : Text) (ps : List RegistryEntry)
    → some_alias a ps ≡ true
    → suc (length (drop_alias a ps)) ≡ length ps
unfolding drop_alias some_alias
length-drop_alias a [] h = absurd (ground arith)
length-drop_alias a (p ∷ ps) h = ground (arith, length-drop_alias a ps)

some_alias-drop_alias :
    (a b : Text) (ps : List RegistryEntry)
    → text_eq a b ≡ false
    → some_alias b ps ≡ true
    → some_alias b (drop_alias a ps) ≡ true
unfolding drop_alias some_alias
some_alias-drop_alias a b [] ne h = h
some_alias-drop_alias a b (p ∷ ps) ne h = elim (Bool-cases (text_eq p.alias a)) [
  | inl same ↦ rw same (elim (Bool-cases (text_eq p.alias b)) [
    | inl both ↦
        absurd (ground (arith, text_eq_iff p.alias a, text_eq_iff p.alias b, text_eq_iff a b))
    | inr other ↦ ground arith
  ])
  | inr differs ↦ rw differs (ground (arith, some_alias-drop_alias a b ps ne))
]

-- Each of `n` texts is the alias of an entry of its own.
pigeonhole :
    (f : ℕ → Text) (distinct : (i j : ℕ) → i < j → text_eq (f i) (f j) ≡ false) (n : ℕ)
    (ps : List RegistryEntry)
    → ((i : ℕ) → i < n → some_alias (f i) ps ≡ true)
    → n ≤ length ps
pigeonhole f distinct zero ps h = omega arith
pigeonhole f distinct (suc n) ps h =
    let fewer : n ≤ length (drop_alias (f n) ps) =
      pigeonhole f distinct n (drop_alias (f n) ps) (λ i small.
        some_alias-drop_alias (f n) (f i) ps
          (ground (arith, distinct i n small, text_eq_iff (f n) (f i), text_eq_iff (f i) (f n)))
          (h i (omega arith))) in
    omega (arith, length-drop_alias (f n) ps (h n (omega arith)))

-- The names in the order in which they are tried.
candidate : Text → ℕ → Text
candidate base zero = base
candidate base (suc k) = numbered base (k + 2)

text_eq-append : (s t u : Text) → text_eq (s ++ t) (s ++ u) ≡ text_eq t u
text_eq-append [] t u = refl
text_eq-append (c ∷ s) t u = ground (arith, text_eq-append s t u)

text_eq-longer : (s t : Text) → length s < length t → text_eq s t ≡ false
text_eq-longer [] [] h = absurd (omega arith)
text_eq-longer [] (y ∷ t) h = refl
text_eq-longer (x ∷ s) [] h = refl
text_eq-longer (x ∷ s) (y ∷ t) h = ground (arith, text_eq-longer s t (omega arith))

to_decimal-distinct : (i j : ℕ) → i < j → text_eq (to_decimal i) (to_decimal j) ≡ false
to_decimal-distinct i j h = elim (Bool-cases (text_eq (to_decimal i) (to_decimal j))) [
  | inr ne ↦ ne
  | inl same ↦
      let e : i ≡ j =
        sym (of_digits-to_decimal i)
        ∙ (ap of_digits ((text_eq_iff (to_decimal i) (to_decimal j)).0 same)
            ∙ of_digits-to_decimal j) in
      absurd (omega arith)
]

candidate-distinct :
    (base : Text) (i j : ℕ) → i < j → text_eq (candidate base i) (candidate base j) ≡ false
unfolding candidate numbered
candidate-distinct base i zero h = absurd (omega arith)
candidate-distinct base zero (suc j) h =
    text_eq-longer base (base ++ (codes "-" ++ to_decimal (j + 2)))
      (omega (arith, length-append base (codes "-" ++ to_decimal (j + 2))))
candidate-distinct base (suc i) (suc j) h =
    text_eq-append base (codes "-" ++ to_decimal (i + 2)) (codes "-" ++ to_decimal (j + 2))
    ∙ to_decimal-distinct (i + 2) (j + 2) (omega arith)

-- The loop stops at a free name, or every name that it tried is taken.
first_free-cases :
    (base : Text) (ps : List RegistryEntry) (fuel i : ℕ)
    → ((j : ℕ) × (i ≤ j)
        × (j < i + fuel)
        × (first_free base ps fuel i ≡ some (numbered base j))
        × (some_alias (numbered base j) ps ≡ false))
      ⊎ ((j : ℕ) → i ≤ j → j < i + fuel → some_alias (numbered base j) ps ≡ true)
unfolding first_free numbered
first_free-cases base ps zero i = inr (λ j low high. absurd (omega arith))
first_free-cases base ps (suc fuel) i = elim (Bool-cases (some_alias (numbered base i) ps)) [
  | inr free ↦ inl (i, omega arith, omega arith, rw (first_free, free) refl, free)
  | inl taken ↦ elim (first_free-cases base ps fuel (i + 1)) [
    | inl (j, low, high, found, free) ↦
        inl (j, omega arith, omega arith, rw (first_free, taken) found, free)
    | inr all_taken ↦ inr (λ j low high. elim (Bool-cases (i == j)) [
      | inl same ↦ subst (λ k. some_alias (numbered base k) ps ≡ true) (ground arith) taken
      | inr other ↦ all_taken j (ground arith) (omega arith)
    ])
  ]
]

candidate-taken :
    (base : Text) (ps : List RegistryEntry)
    → some_alias base ps ≡ true
    → ((j : ℕ) → 2 ≤ j → j < 9999 → some_alias (numbered base j) ps ≡ true)
    → (i : ℕ) → i < 9998
    → some_alias (candidate base i) ps ≡ true
unfolding candidate
candidate-taken base ps taken all_taken zero small = taken
candidate-taken base ps taken all_taken (suc k) small =
    all_taken (k + 2) (omega arith) (omega arith)

-- Nine thousand names are too many for the registry to have them all.
not_all_taken :
    (base : Text) (ps : List RegistryEntry)
    → length ps ≤ 9997
    → some_alias base ps ≡ true
    → ((j : ℕ) → 2 ≤ j → j < 9999 → some_alias (numbered base j) ps ≡ true)
    → ⊥
not_all_taken base ps few taken all_taken =
    let tried : (i : ℕ) → i < 9998 → some_alias (candidate base i) ps ≡ true =
      λ i small. candidate-taken base ps taken all_taken i small in
    omega (arith, pigeonhole (candidate base) (candidate-distinct base) 9998 ps tried)

all-append : (t : ℕ → Bool) (s u : Text) → all t s ≡ true → all t u ≡ true → all t (s ++ u) ≡ true
all-append t [] u h k = k
all-append t (c ∷ s) u h k = ground (arith, all-append t s u)

digits-all_chars : (s : Text) → all is_digit s ≡ true → all is_alias_char s ≡ true
digits-all_chars [] h = refl
digits-all_chars (c ∷ s) h = ground (arith, digits-all_chars s)

numbered-validate_alias :
    (base : Text) (i : ℕ)
    → validate_alias base ≡ true
    → length base ≤ 43
    → i < 9999
    → validate_alias (numbered base i) ≡ true
unfolding validate_alias numbered
numbered-validate_alias [] i h short small = absurd (ground arith)
numbered-validate_alias (c ∷ s) i h short small =
    let number = to_decimal i in
    let digits : all is_alias_char number ≡ true =
      digits-all_chars number (ground (arith, all_digits-to_decimal i)) in
    ground (
      arith,
      all-append is_alias_char s (45 ∷ number) (ground arith) (ground arith),
      length-append s (45 ∷ number),
      length-to_decimal 3 i (omega arith),
    )

-- With at most 9,997 pacts on the host, the loop finds a name that none of them has; and the name
-- may be refused as an alias only if the slug of the pact's name is longer than 43 characters.
pub unique_alias-found :
    (name : Text) (existing : List RegistryEntry)
    → length existing ≤ 9997
    → (a : Text) × (unique_alias_from_name name existing ≡ some a)
      × (some_alias a existing ≡ false)
      × ((validate_alias a ≡ true) ⊎ (43 < length (slug_or_pact name)))
unfolding unique_alias_from_name
unique_alias-found name existing few =
    let base = slug_or_pact name in
    elim (Bool-cases (some_alias base existing)) [
      | inr free ↦
          (base, rw (unique_alias_from_name, free) refl, free, inl (slug-validate_alias name))
      | inl taken ↦ elim (first_free-cases base existing 9997 2) [
        | inr all_taken ↦ absurd (not_all_taken base existing few taken all_taken)
        | inl (j, low, high, found, free) ↦ (
          numbered base j,
          rw (unique_alias_from_name, taken) found,
          free,
          elim (Bool-cases (leb (length base) 43)) [
            | inl short ↦ inl (
                numbered-validate_alias base j (slug-validate_alias name) (ground arith)
                  (omega arith))
            | inr long ↦ inr (ground arith)
          ],
        )
      ]
    ]

-- A numbered name of a slug of 47 or 48 characters is too long for an alias.
pub numbered_too_long :
    (base : Text) (i : ℕ) → 47 ≤ length base → validate_alias (numbered base i) ≡ false
unfolding validate_alias numbered
numbered_too_long base i long =
    ground (arith, length-append base (45 ∷ to_decimal i), all_digits-to_decimal i)
