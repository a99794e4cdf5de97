-- ===== src/Access/Bearer.antt =====
-- The bearer text of an Authorization header, against the pattern of packages/daemon/src/api/auth.ts.
use openpact.Prelude.{
  ℕ, Text, codes, truthy, text_eq, text_eq_iff, text_eq_refl, trim, trim_start, is_space,
  to_lower_case, some, [], ◌∷◌, ◌++◌, true, ◌≡◌, ◌≢◌, ◌↔◌, inl, inr, refl, ap, sym, ◌∙◌, arith, all,
  All, Bool-cases, Option-cases,
}
use openpact.Access.{is_dot, after_spaces, strip_prefix_i, bearer}

abbrev pub IsWhite : ℕ → Type 0
IsWhite c = is_space c ≡ true

-- No line feed, carriage return, line or paragraph separator.
abbrev pub StaysOnLine : ℕ → Type 0
StaysOnLine c = (c ≢ 10) × (c ≢ 13) × (c ≢ 8232) × (c ≢ 8233)

-- The header is, within white space, the word `bearer` in any case, white space, and a text on one
-- line; `shown` is that text without the white space around it.
pub record Bears (header shown : Text) : Type 0 where
  pub word : Text
  pub spaces : Text
  pub capture : Text
  pub parts : trim header ≡ word ++ (spaces ++ capture)
  pub is_bearer : to_lower_case word ≡ codes "bearer"
  pub spaced : spaces ≢ []
  pub white : All IsWhite spaces
  pub given : capture ≢ []
  pub starts : trim_start capture ≡ capture
  pub line : All StaysOnLine capture
  pub trimmed : shown ≡ trim capture

strip_prefix_i-word :
    (p s rest : Text)
    → strip_prefix_i p s ≡ some rest
    → (word : Text) × (s ≡ word ++ rest) × (to_lower_case word ≡ p)
unfolding strip_prefix_i to_lower_case
strip_prefix_i-word [] s rest h = ([], ground arith, refl)
strip_prefix_i-word (c ∷ p) [] rest h = absurd (ground arith)
strip_prefix_i-word (c ∷ p) (d ∷ s) rest h =
    elim (Bool-cases (text_eq (to_lower_case (d ∷ [])) (c ∷ []))) [
      | inl same ↦
          let (word, parts, lowered) = strip_prefix_i-word p s rest (ground arith) in
          let first = (text_eq_iff (to_lower_case (d ∷ [])) (c ∷ [])).0 same in
          (
            d ∷ word,
            ap (λ t. d ∷ t) parts,
            ap (λ t. t ++ to_lower_case word) first ∙ ap (λ t. c ∷ t) lowered,
          )
      | inr other ↦ absurd (ground arith)
    ]

strip_prefix_i-lower :
    (word rest : Text) → strip_prefix_i (to_lower_case word) (word ++ rest) ≡ some rest
unfolding strip_prefix_i to_lower_case
strip_prefix_i-lower [] rest = refl
strip_prefix_i-lower (d ∷ word) rest =
    rw (text_eq_refl (to_lower_case (d ∷ []))) (strip_prefix_i-lower word rest)

word-strip_prefix_i :
    (p word rest : Text) → to_lower_case word ≡ p → strip_prefix_i p (word ++ rest) ≡ some rest
word-strip_prefix_i p word rest h =
    ap (λ q. strip_prefix_i q (word ++ rest)) (sym h) ∙ strip_prefix_i-lower word rest

all_dots_iff : (s : Text) → (all is_dot s ≡ true) ↔ All StaysOnLine s
all_dots_iff [] = (λ h. tt, λ h. refl)
all_dots_iff (c ∷ s) = (
  λ h. (
    (
      λ e. absurd (ground arith),
      λ e. absurd (ground arith),
      λ e. absurd (ground arith),
      λ e. absurd (ground arith),
    ),
    (all_dots_iff s).0 (ground arith),
  ),
  λ ((a, b, c', d), k). ground (arith, (all_dots_iff s).1 k),
)

-- The white space at the start of a text, and what follows.
trim_start-parts : (s : Text) → (spaces : Text) × (s ≡ spaces ++ trim_start s) × All IsWhite spaces
unfolding trim_start
trim_start-parts [] = ([], refl, tt)
trim_start-parts (c ∷ s) = elim (Bool-cases (is_space c)) [
  | inl white ↦
      let (spaces, parts, all_white) = trim_start-parts s in
      (c ∷ spaces, rw white (ap (λ t. c ∷ t) parts), (white, all_white))
  | inr other ↦ ([], rw other refl, tt)
]

trim_start_idem : (s : Text) → trim_start (trim_start s) ≡ trim_start s
unfolding trim_start
trim_start_idem [] = refl
trim_start_idem (c ∷ s) = ground (arith, trim_start_idem s)

trim_start-append : (spaces s : Text) → All IsWhite spaces → trim_start (spaces ++ s) ≡ trim_start s
unfolding trim_start
trim_start-append [] s h = refl
trim_start-append (c ∷ spaces) s (white, h) = rw white (trim_start-append spaces s h)

pub record Follows (s capture : Text) : Type 0 where
  pub spaces : Text
  pub parts : s ≡ spaces ++ capture
  pub spaced : spaces ≢ []
  pub white : All IsWhite spaces
  pub given : capture ≢ []
  pub starts : trim_start capture ≡ capture
  pub line : All StaysOnLine capture

truthy-≢ : (s : Text) → truthy s ≡ true → s ≢ []
truthy-≢ [] h e = absurd (ground arith)
truthy-≢ (c ∷ s) h e = cc

≢-truthy : (s : Text) → s ≢ [] → truthy s ≡ true
≢-truthy [] h = absurd (h refl)
≢-truthy (c ∷ s) h = refl

after_spaces-Follows : (s capture : Text) → after_spaces s ≡ some capture → Follows s capture
unfolding after_spaces
after_spaces-Follows [] capture h = absurd (ground arith)
after_spaces-Follows (c ∷ s) capture h =
    let (spaces, parts, white) = trim_start-parts s in
    let same : trim_start s ≡ capture = ground arith in
    record {
      spaces = c ∷ spaces;
      parts = ap (λ t. c ∷ t) (parts ∙ ap (λ t. spaces ++ t) same);
      spaced = λ e. cc;
      white = (ground arith, white);
      given = truthy-≢ capture (ground arith);
      starts = ap trim_start (sym same) ∙ trim_start_idem s ∙ same;
      line = (all_dots_iff capture).0 (ground arith);
    }

Follows-after_spaces : (s capture : Text) → Follows s capture → after_spaces s ≡ some capture
unfolding after_spaces
Follows-after_spaces s capture f = rw (f.parts) (of_spaces f.spaces f.spaced f.white)
  where
    of_spaces :
        (spaces : Text)
        → spaces ≢ []
        → All IsWhite spaces
        → after_spaces (spaces ++ capture) ≡ some capture
    of_spaces [] spaced white = absurd (spaced refl)
    of_spaces (c ∷ spaces) spaced (white, all_white) =
        rw
          (
            white,
            trim_start-append spaces capture all_white,
            f.starts,
            ≢-truthy capture f.given,
            (all_dots_iff capture).1 f.line,
          )
          refl

-- The pattern finds a text in a header exactly if the header bears it.
pub bearer_iff : (header shown : Text) → (bearer header ≡ some shown) ↔ Bears header shown
unfolding bearer
bearer_iff header shown = (
  λ h. elim (Option-cases (strip_prefix_i (codes "bearer") (trim header))) [
    | inl other ↦ absurd (ground arith)
    | inr (s, stripped) ↦ elim (Option-cases (after_spaces s)) [
      | inl bare ↦ absurd (ground arith)
      | inr (capture, after) ↦
          let (word, parts, lowered) =
            strip_prefix_i-word (codes "bearer") (trim header) s stripped in
          let f = after_spaces-Follows s capture after in
          record {
            word = word;
            spaces = f.spaces;
            capture = capture;
            parts = parts ∙ ap (λ t. word ++ t) f.parts;
            is_bearer = lowered;
            spaced = f.spaced;
            white = f.white;
            given = f.given;
            starts = f.starts;
            line = f.line;
            trimmed = ground arith;
          }
    ]
  ],
  λ b.
      let f : Follows (b.spaces ++ b.capture) b.capture = record {
        spaces = b.spaces;
        parts = refl;
        spaced = b.spaced;
        white = b.white;
        given = b.given;
        starts = b.starts;
        line = b.line;
      } in
      rw
        (
          bearer,
          b.parts,
          word-strip_prefix_i (codes "bearer") b.word (b.spaces ++ b.capture) b.is_bearer,
          Follows-after_spaces (b.spaces ++ b.capture) b.capture f,
          b.trimmed,
        )
        refl,
)
