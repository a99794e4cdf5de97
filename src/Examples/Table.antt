-- ===== src/Examples/Table.antt =====
-- A view that keeps its rows in a list, newest first, for running packages/daemon/src/apply.ts.
use openpact.Prelude.{
  ℕ, Text, text_eq, text_eq_iff, text_le, Option, none, some, List, [], ◌∷◌, true, false, not, ◌&&◌,
  ◌≡◌, refl, arith, if◌then◌else◌,
}
use openpact.Json.{Json}
use openpact.Apply.View.{ApplyView, IsView, ApplyHost}

abbrev pub Rows : Type 0
Rows = List (Text × Json)

unfoldable pub row_of : Rows → Text → Option Json
row_of [] j = none
row_of ((k, x) ∷ v) j = if text_eq k j then some x else row_of v j

unfoldable pub without : Rows → Text → Rows
without [] j = []
without ((k, x) ∷ v) j = if text_eq k j then without v j else (k, x) ∷ without v j

unfoldable pub first_in : Rows → Text → Text → Option (Text × Json)
first_in [] gte lt = none
first_in ((k, x) ∷ v) gte lt =
    if text_le gte k && not (text_le lt k) then some (k, x) else first_in v gte lt

abbrev pub table : ApplyView
table = record {
  View = Rows;
  get = row_of;
  put = λ v k x. (k, x) ∷ v;
  del = without;
  peek = first_in;
}

row_of-without :
    (v : Rows) (k j : Text) → row_of (without v k) j ≡ (if text_eq k j then none else row_of v j)
unfolding row_of without
row_of-without [] k j = ground arith
row_of-without ((l, x) ∷ v) k j =
    ground (arith, row_of-without v k j, text_eq_iff l k, text_eq_iff k j, text_eq_iff l j)

first_in-row_of :
    (v : Rows) (gte lt k : Text)
    → first_in v gte lt ≡ none
    → text_le gte k ≡ true
    → text_le lt k ≡ false
    → row_of v k ≡ none
unfolding row_of first_in
first_in-row_of [] gte lt k e h g = refl
first_in-row_of ((l, x) ∷ v) gte lt k e h g =
    ground (arith, first_in-row_of v gte lt k, text_eq_iff l k)

pub table_laws : IsView table
unfolding row_of
table_laws = record {
  get-put = λ v k x j. refl;
  get-del = row_of-without;
  peek_none = first_in-row_of;
}

-- A host that holds the keys of its writers.
abbrev pub writers : ApplyHost
writers = record {
  State = List (List ℕ);
  add_writer = λ s k indexer. some (k ∷ s);
  remove_writer = λ s k. some s;
}
