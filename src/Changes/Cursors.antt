-- ===== src/Changes/Cursors.antt =====
-- Cursors of the feed as texts.
use openpact.Prelude.{
  Text, truthy, some, [], ◌∷◌, ◌++◌, Bool, true, not, ◌==◌, ◌≡◌, refl, arith, all, inl, inr,
  Bool-cases,
}
use openpact.Changes.{Cursor, cursor_at, split_bar, parse_cursor, encode_cursor}

-- No unit of the text is `|`.
abbrev pub has_no_bar : Text → Bool
has_no_bar = all (λ c. not (c == 124))

split_bar-append :
    (ts id : Text) → has_no_bar ts ≡ true → split_bar (ts ++ (124 ∷ id)) ≡ some (ts, id)
unfolding split_bar
split_bar-append [] id h = refl
split_bar-append (c ∷ ts) id h = elim (Bool-cases (c == 124)) [
  | inl bar ↦ absurd (ground arith)
  | inr other ↦ rw (split_bar, other, split_bar-append ts id (ground arith)) refl
]

truthy-append : (s t : Text) → truthy s ≡ true → truthy (s ++ t) ≡ true
truthy-append [] t h = absurd (ground arith)
truthy-append (c ∷ s) t h = refl

-- The cursor of a key with a timestamp and an id, where the timestamp has no bar, is read back as
-- the key.
pub parse_cursor-encode_cursor :
    (c : Cursor)
    → truthy c.ts ≡ true
    → has_no_bar c.ts ≡ true
    → truthy c.id ≡ true
    → parse_cursor (encode_cursor c) ≡ cursor_at c
unfolding parse_cursor encode_cursor
parse_cursor-encode_cursor c some_ts no_bar some_id =
    rw
      (truthy-append c.ts (124 ∷ c.id) some_ts, split_bar-append c.ts c.id no_bar, some_ts, some_id)
      refl
