-- ===== src/Views.antt =====
-- packages/daemon/src/api/views.ts: pages of the entries of a type, and look-ups by scanning.
-- The read stream and the peek of a Hyperbee are parameters.
pub mod Store
pub mod Chains
pub mod Pages
pub mod Walk
pub mod Lookup
use openpact.Prelude.{
  ℕ, suc, ◌+◌, Text, codes, truthy, text_eq, text_le, Option, none, some, List, [], ◌∷◌, ◌++◌, Bool,
  true, false, not, ◌&&◌, ◌||◌, map, ltb, leb, if◌then◌else◌, is_some, length, take,
}
use openpact.Json.{Json, null, bool, num, str, arr, obj, field, items}
use Store.{Row, Range, ReadView}

pub data Order : Type 0 where
  asc desc : Order

abbrev pub is_desc : Order → Bool
is_desc asc = false
is_desc desc = true

pub record ListPage : Type 0 where
  pub entries : List Json
  pub cursor : Option Text
  pub has_more : Bool

abbrev pub default_limit : ℕ
default_limit = 50

abbrev pub max_limit : ℕ
max_limit = 1000

-- The limit is a natural number, or was left out.
unfoldable pub clamp_limit : Option ℕ → ℕ
clamp_limit none = default_limit
clamp_limit (some n) = if ltb n 1 then default_limit else if ltb max_limit n then max_limit else n

-- `${type}/` and `${type}0`
abbrev pub range_start : Text → Text
range_start type = type ++ codes "/"

abbrev pub range_end : Text → Text
range_end type = type ++ codes "0"

abbrev pub starts_with : Text → Text → Bool
starts_with [] s = true
starts_with (c ∷ p) [] = false
starts_with (c ∷ p) (d ∷ s) = text_eq (c ∷ []) (d ∷ []) && starts_with p s

-- `parseCursor`; `none` is a `BadCursorError`.
unfoldable pub parse_cursor : Option Text → Text → Option (Option Text)
parse_cursor none type = some none
parse_cursor (some cursor) type =
    if not (truthy cursor)
    then none
    else if not (starts_with (range_start type) cursor)
    then none
    else some (some cursor)

-- The rows past a key, in the order of the page; all of the type's rows where there is no key.
abbrev pub range_past : Text → Order → Option Text → Range
range_past type desc none = record {
  lower = range_start type;
  strict = false;
  upper = range_end type;
}
range_past type desc (some key) = record { lower = range_start type; strict = false; upper = key }
range_past type asc none = record {
  lower = range_start type;
  strict = false;
  upper = range_end type;
}
range_past type asc (some key) = record { lower = key; strict = true; upper = range_end type }

-- The loop over the stream: `kept` is how many entries it has, and `last` the key of the last one.
unfoldable pub take_page : (Json → Bool) → ℕ → ℕ → Option Text → List Row → List Json × Option Text
take_page filter limit kept last [] = ([], last)
take_page filter limit kept last ((key, value) ∷ rows) =
    let skipped = take_page filter limit kept last rows in
    let (more, end_key) = take_page filter limit (kept + 1) (some key) rows in
    if not (filter value)
    then skipped
    else if leb limit (kept + 1)
    then (value ∷ [], some key)
    else (value ∷ more, end_key)

module _ (v : ReadView) where
  unfoldable pub peek_has_more : Text → Order → Option Text → Bool
  peek_has_more type order none = false
  peek_has_more type order (some key) =
      is_some (v.peek (range_past type order (some key)) (is_desc order))

  unfoldable pub list_page : Text → Order → ℕ → (Json → Bool) → Option Text → ListPage
  list_page type order limit filter cursor =
      let (entries, last) =
        take_page filter limit 0 none (v.scan (range_past type order cursor) (is_desc order)) in
      record { entries = entries; cursor = last; has_more = peek_has_more type order last }

  -- `listByType`, without a filter where the caller gives the one that keeps everything.
  unfoldable pub list_by_type :
      Text → Order → Option ℕ → Option Text → (Json → Bool) → Option ListPage
  list_by_type type order limit cursor filter = elim (parse_cursor cursor type) [
    | none ↦ none
    | some from ↦ some (list_page type order (clamp_limit limit) filter from)
  ]

-- `entry.id === id`, of a stored entry.
abbrev pub is_text_eq : Option Json → Text → Bool
is_text_eq (some (str s)) t = text_eq s t
is_text_eq none t = false
is_text_eq (some null) t = false
is_text_eq (some (bool b)) t = false
is_text_eq (some (num n)) t = false
is_text_eq (some (arr xs)) t = false
is_text_eq (some (obj fs)) t = false

abbrev pub has_id : Text → Json → Bool
has_id id entry = is_text_eq (field "id" entry) id

-- `refs.includes(id)`
unfoldable pub includes : Text → List Json → Bool
includes id [] = false
includes id (target ∷ refs) = is_text_eq (some target) id || includes id refs

abbrev pub refs_of : Option Json → List Json
refs_of (some (arr xs)) = items xs
refs_of none = []
refs_of (some null) = []
refs_of (some (bool b)) = []
refs_of (some (num n)) = []
refs_of (some (str s)) = []
refs_of (some (obj fs)) = []

-- The loops of `getById` and `findRefs`. What is no object has neither an id nor refs.
unfoldable pub find_id : Text → List Row → Option Json
find_id id [] = none
find_id id ((key, value) ∷ rows) = if has_id id value then some value else find_id id rows

unfoldable pub keep_refs : Text → List Row → List Json
keep_refs id [] = []
keep_refs id ((key, value) ∷ rows) =
    let out = keep_refs id rows in
    if has_id id value
    then value ∷ out
    else if includes id (refs_of (field "refs" value))
    then value ∷ out
    else out

-- `asStoredEntry` is not null.
abbrev pub is_stored : Json → Bool
is_stored (obj fs) = true
is_stored (arr xs) = true
is_stored null = false
is_stored (bool b) = false
is_stored (num n) = false
is_stored (str s) = false

unfoldable pub stored_entries : List Row → List Json
stored_entries [] = []
stored_entries ((key, value) ∷ rows) =
    let out = stored_entries rows in if is_stored value then value ∷ out else out

module _ (v : ReadView) where
  unfoldable pub get_by_id : Text → Text → Option Json
  get_by_id type id = find_id id (v.scan (range_past type asc none) false)

  unfoldable pub find_refs : Text → Text → List Json
  find_refs type ref_id = keep_refs ref_id (v.scan (range_past type asc none) false)

  -- `getEntryById`: the types in the order of `ENTRY_TYPES`.
  unfoldable pub first_by_id : List Text → Text → Option Json
  first_by_id [] id = none
  first_by_id (type ∷ types) id = elim (get_by_id type id) [
    | some found ↦ some found
    | none ↦ first_by_id types id
  ]

  unfoldable pub get_entry_by_id : Text → Option Json
  get_entry_by_id id =
      first_by_id (codes "knowledge" ∷ codes "task" ∷ codes "skill" ∷ codes "message" ∷ []) id

  -- The reverse index that `apply` writes.
  unfoldable pub find_referenced_by : Text → List Json
  find_referenced_by target_id = stored_entries (
      v.scan
        (record {
          lower = codes "ref/" ++ (target_id ++ codes "/");
          strict = false;
          upper = codes "ref/" ++ (target_id ++ codes "0");
        })
        false)
