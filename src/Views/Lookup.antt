-- ===== src/Views/Lookup.antt =====
-- The look-ups by id, and the history that `findRefs` gathers.
use openpact.Prelude.{Text, none, List, [], ◌∷◌, Bool, false, ◌||◌, ◌≡◌, refl, arith, is_some}
use openpact.Json.{Json}
use openpact.Views.{asc, range_past, has_id, find_id, keep_refs, get_by_id, find_refs}
use openpact.Views.Store.{Row, ReadView}

unfoldable pub any_has_id : Text → List Json → Bool
any_has_id id [] = false
any_has_id id (e ∷ es) = has_id id e || any_has_id id es

find_id-keep_refs :
    (id : Text) (rows : List Row) → is_some (find_id id rows) ≡ any_has_id id (keep_refs id rows)
unfolding find_id keep_refs any_has_id
find_id-keep_refs id [] = refl
find_id-keep_refs id ((k, x) ∷ rows) = ground (arith, find_id-keep_refs id rows)

-- An entry of the type is found by its id exactly when the history that `findRefs` gathers for the
-- id has an entry with that id.
get_by_id-find_refs :
    (v : ReadView) (type id : Text)
    → is_some (get_by_id v type id) ≡ any_has_id id (find_refs v type id)
unfolding get_by_id find_refs
get_by_id-find_refs v type id = find_id-keep_refs id (v.scan (range_past type asc none) false)
