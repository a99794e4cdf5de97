-- ===== src/Views/Pages.antt =====
-- One page of a listing, and the stream past its cursor.
use openpact.Prelude.{
  ℕ, ◌+◌, Text, text_le_total, text_le_trans, Option, none, some, List, [], ◌∷◌, ◌++◌, Bool, true,
  ◌&&◌, ◌≡◌, ◌⊎◌, inl, inr, refl, sym, ap, ◌∙◌, subst, arith, if◌then◌else◌, Bool-cases, All, leb,
}
use openpact.Json.{Json}
use openpact.Views.{Order, asc, desc, is_desc, range_past, range_start, range_end, take_page}
use openpact.Views.Store.{Row, ReadView, IsReadView, in_range, select, backwards}
use openpact.Views.Chains.{
  is_after, IsChain, select-IsChain, select-after, select-select, ascending-IsChain,
  backwards-IsChain, All-backwards, All-head, All-selected, select-backwards,
}

-- The values that a filter keeps.
unfoldable pub kept : (Json → Bool) → List Row → List Json
kept filter [] = []
kept filter ((key, value) ∷ rows) =
    let rest = kept filter rows in if filter value then value ∷ rest else rest

kept-append :
    (filter : Json → Bool) (xs ys : List Row)
    → kept filter (xs ++ ys) ≡ kept filter xs ++ kept filter ys
unfolding kept
kept-append filter [] ys = refl
kept-append filter ((k, x) ∷ xs) ys = ground (arith, kept-append filter xs ys)

-- The rows split at the last one that the page holds.
pub record Split (filter : Json → Bool) (rows : List Row) (es : List Json) (end_key : Option Text)
    : Type 0 where
  pub before : List Row
  pub key : Text
  pub value : Json
  pub after : List Row
  pub parts : rows ≡ before ++ (key, value) ∷ after
  pub ended : end_key ≡ some key
  pub entries : es ++ kept filter after ≡ kept filter rows

pub take_page-Split :
    (filter : Json → Bool) (limit n : ℕ) (last : Option Text) (rows : List Row)
    → (((take_page filter limit n last rows).0 ≡ [])
        × ((take_page filter limit n last rows).1 ≡ last)
        × (kept filter rows ≡ []))
      ⊎ Split filter rows
          (take_page filter limit n last rows).0
          (take_page filter limit n last rows).1
unfolding take_page kept
take_page-Split filter limit n last [] = inl (refl, refl, refl)
take_page-Split filter limit n last ((k, x) ∷ rows) = elim (Bool-cases (filter x)) [
  | inr out ↦ elim (take_page-Split filter limit n last rows) [
    | inl (a, b, c) ↦ inl (ground arith, ground arith, ground arith)
    | inr s ↦ inr (record {
      before = (k, x) ∷ s.before;
      key = s.key;
      value = s.value;
      after = s.after;
      parts = ap (λ l. (k, x) ∷ l) s.parts;
      ended = rw out (s.ended);
      entries = rw out (s.entries);
    })
  ]
  | inl in_ ↦ elim (Bool-cases (leb limit (n + 1))) [
    | inl full ↦ inr (record {
      before = [];
      key = k;
      value = x;
      after = rows;
      parts = refl;
      ended = rw (in_, full) refl;
      entries = rw (in_, full) refl;
    })
    | inr room ↦ elim (take_page-Split filter limit (n + 1) (some k) rows) [
      | inl (a, b, c) ↦ inr (record {
        before = [];
        key = k;
        value = x;
        after = rows;
        parts = refl;
        ended = rw (in_, room) b;
        entries = rw (in_, room, a, c) refl;
      })
      | inr s ↦ inr (record {
        before = (k, x) ∷ s.before;
        key = s.key;
        value = s.value;
        after = s.after;
        parts = ap (λ l. (k, x) ∷ l) s.parts;
        ended = rw (in_, room) (s.ended);
        entries = rw (in_, room) (ap (λ l. x ∷ l) s.entries);
      })
    ]
  ]
]

-- Past a key of the range, the next range has the rows of the last one that come after the key.
range_past-next :
    (type : Text) (o : Order) (c : Option Text) (k j : Text)
    → in_range (range_past type o c) k ≡ true
    → in_range (range_past type o (some k)) j ≡ (in_range (range_past type o c) j && is_after o k j)
unfolding in_range is_after
range_past-next type asc none k j h = ground (
  arith,
  text_le_total (range_start type) j,
  text_le_trans (range_start type) k j,
  text_le_total k j,
)
range_past-next type asc (some c) k j h =
    ground (arith, text_le_trans j c k, text_le_total c k, text_le_total k j)
range_past-next type desc none k j h =
    ground (arith, text_le_trans (range_end type) j k, text_le_total j k)
range_past-next type desc (some c) k j h = ground (arith, text_le_trans c j k, text_le_total j k)

module _ (v : ReadView) (laws : IsReadView v) where
  unfoldable pub stream : Text → Order → Option Text → List Row
  stream type o c = v.scan (range_past type o c) (is_desc o)

  -- The stream in terms of the rows.
  directed : Order → List Row → List Row
  directed asc rows = rows
  directed desc rows = backwards rows

  stream-directed :
      (type : Text) (o : Order) (c : Option Text)
      → stream type o c ≡ directed o (select (in_range (range_past type o c)) laws.rows)
  unfolding stream directed
  stream-directed type asc c = laws.scan-asc (range_past type asc c)
  stream-directed type desc c = laws.scan-desc (range_past type desc c)

  directed-IsChain : (o : Order) (rows : List Row) → IsChain asc rows → IsChain o (directed o rows)
  unfolding directed
  directed-IsChain asc rows h = h
  directed-IsChain desc rows h = backwards-IsChain rows h

  directed-All :
      (P : Row → Type 0) (o : Order) (rows : List Row) → All P rows → All P (directed o rows)
  unfolding directed
  directed-All P asc rows h = h
  directed-All P desc rows h = All-backwards P rows h

  select-directed :
      (t : Text → Bool) (o : Order) (rows : List Row)
      → select t (directed o rows) ≡ directed o (select t rows)
  unfolding directed
  select-directed t asc rows = refl
  select-directed t desc rows = select-backwards t rows

  -- The stream past a key of the stream is what follows it.
  pub stream-after :
      (type : Text) (o : Order) (c : Option Text) (xs : List Row) (k : Text) (x : Json)
      (ys : List Row)
      → stream type o c ≡ xs ++ (k, x) ∷ ys
      → stream type o (some k) ≡ ys
  stream-after type o c xs k x ys e =
      let p = in_range (range_past type o c) in
      let now = directed o (select p laws.rows) in
      let parts : now ≡ xs ++ (k, x) ∷ ys = sym (stream-directed type o c) ∙ e in
      let chain : IsChain o now =
        directed-IsChain o (select p laws.rows)
          (select-IsChain asc p laws.rows (ascending-IsChain laws.rows laws.ascending)) in
      let inside : All (λ r. p r.0 ≡ true) now =
        directed-All _ o (select p laws.rows) (All-selected p laws.rows) in
      let within : p k ≡ true =
        All-head _ xs (k, x) ys (subst (All (λ r. p r.0 ≡ true)) parts inside) in
      stream-directed type o (some k)
      ∙ (ap (directed o) (
            select-select p (is_after o k) (in_range (range_past type o (some k)))
              (λ j. range_past-next type o c k j within) laws.rows)
          ∙ (sym (select-directed (is_after o k) o (select p laws.rows))
              ∙ (ap (select (is_after o k)) parts
                  ∙ select-after o xs k x ys (subst (IsChain o) parts chain))))
