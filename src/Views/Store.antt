-- ===== src/Views/Store.antt =====
-- What packages/daemon/src/api/views.ts uses of a Hyperbee.
use openpact.Prelude.{
  Text, text_le, Option, none, some, List, [], ◌∷◌, Bool, true, false, not, ◌&&◌, ◌≡◌, ◌++◌, All,
  if◌then◌else◌,
}
use openpact.Json.{Json}

abbrev pub Row : Type 0
Row = Text × Json

-- `{ gte, lt }`, or `{ gt, lt }` if it is strict.
pub record Range : Type 0 where
  pub lower : Text
  pub strict : Bool
  pub upper : Text

pub record ReadView : Type 0 where
  -- `createReadStream(range, { reverse })`, to its end
  pub scan : Range → Bool → List Row
  pub peek : Range → Bool → Option Row

unfoldable pub in_range : Range → Text → Bool
in_range r key =
    (if r.strict then not (text_le key r.lower) else text_le r.lower key)
    && not (text_le r.upper key)

unfoldable pub select : (Text → Bool) → List Row → List Row
select test [] = []
select test ((key, value) ∷ rows) =
    let rest = select test rows in if test key then (key, value) ∷ rest else rest

-- Keys ascend strictly.
unfoldable pub IsAscending : List Row → Type 0
IsAscending [] = Unit
IsAscending ((key, value) ∷ rows) = All (λ r. text_le r.0 key ≡ false) rows × IsAscending rows

unfoldable pub backwards : List Row → List Row
backwards [] = []
backwards (r ∷ rows) = backwards rows ++ r ∷ []

unfoldable pub first : List Row → Option Row
first [] = none
first (r ∷ rows) = some r

-- What a Hyperbee documents: its rows are in the order of their keys, a read stream gives those in
-- the range, backwards if reversed, and a peek is the first of them.
pub record IsReadView (v : ReadView) : Type 0 where
  pub rows : List Row
  pub ascending : IsAscending rows
  pub scan-asc : (r : Range) → v.scan r false ≡ select (in_range r) rows
  pub scan-desc : (r : Range) → v.scan r true ≡ backwards (select (in_range r) rows)
  pub peek-scan : (r : Range) (reverse : Bool) → v.peek r reverse ≡ first (v.scan r reverse)
