-- ===== src/Changes/Keys.antt =====
-- The order of keys, which are pairs of a timestamp and an id.
use openpact.Prelude.{
  text_eq_iff, text_le_refl, text_le_total, text_le_antisymm, text_le_trans, true, false, not, ◌≡◌,
  arith, Bool-cases, inl, inr,
}
use openpact.Changes.{Cursor, after_cursor, by_ts_then_id}

pub after_irrefl : (a : Cursor) → after_cursor a a ≡ false
unfolding after_cursor
after_irrefl a = ground (arith, text_le_refl a.ts, text_le_refl a.id)

pub after_trans :
    (a b c : Cursor) → after_cursor a b ≡ true → after_cursor b c ≡ true → after_cursor a c ≡ true
unfolding after_cursor
after_trans a b c h k = ground (
  arith,
  text_le_trans a.ts c.ts b.ts,
  text_le_trans a.ts b.ts c.ts,
  text_le_trans b.ts a.ts c.ts,
  text_le_trans b.ts c.ts a.ts,
  text_le_trans c.ts a.ts b.ts,
  text_le_trans c.ts b.ts a.ts,
  text_le_trans a.id c.id b.id,
  text_le_total a.ts b.ts,
  text_le_total b.ts c.ts,
  text_le_total a.ts c.ts,
  text_le_total b.id c.id,
)

pub after_asymm : (a b : Cursor) → after_cursor a b ≡ true → after_cursor b a ≡ false
after_asymm a b h = elim (Bool-cases (after_cursor b a)) [
  | inr no_ ↦ no_
  | inl both ↦ absurd (ground (arith, after_trans a b a h both, after_irrefl a))
]

-- The sort puts `a` before `b` unless `a` comes after `b`.
pub by_ts_then_id-after : (a b : Cursor) → by_ts_then_id a b ≡ not (after_cursor a b)
unfolding after_cursor by_ts_then_id
by_ts_then_id-after a b = ground (
  arith,
  text_eq_iff a.ts b.ts,
  text_eq_iff a.id b.id,
  text_le_total a.ts b.ts,
  text_le_antisymm a.ts b.ts,
  text_le_refl a.id,
  text_le_refl a.ts,
  text_le_refl b.ts,
  text_le_refl b.id,
)
