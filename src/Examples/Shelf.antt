-- ===== src/Examples/Shelf.antt =====
-- packages/daemon/src/api/views.ts on a view of four rows.
use openpact.Prelude.{
  ◌<◌, ◌≤◌, Text, codes, text_le, none, List, [], ◌∷◌, Bool, true, false, ◌≡◌, ◌⊎◌, refl, arith,
  length, if◌then◌else◌,
}
use openpact.Json.{Json, str, obj, end, entry}
use openpact.Views.{desc, list_page, take_page, range_past, peek_has_more}
use openpact.Views.Store.{
  Row, Range, ReadView, IsReadView, IsAscending, in_range, select, backwards, first,
}
use openpact.Views.Walk.{walk, listing, walk_is_complete, page_ends}

abbrev note : Text → Json
note id = obj (entry (codes "id") (str id) end)

abbrev shelf : List Row
shelf =
    (codes "message/1/a", note (codes "a"))
    ∷ (codes "message/2/b", note (codes "b"))
    ∷ (codes "message/3/c", note (codes "c"))
    ∷ (codes "task/1/d", note (codes "d"))
    ∷ []

abbrev scan_shelf : Range → Bool → List Row
scan_shelf r reverse =
    if reverse then backwards (select (in_range r) shelf) else select (in_range r) shelf

abbrev shelf_view : ReadView
shelf_view = record { scan = scan_shelf; peek = λ r reverse. first (scan_shelf r reverse) }

shelf_laws : IsReadView shelf_view
unfolding IsAscending text_le
shelf_laws = record {
  rows = shelf;
  ascending = ((refl, (refl, (refl, tt))), ((refl, (refl, tt)), ((refl, tt), (tt, tt))));
  scan-asc = λ r. refl;
  scan-desc = λ r. refl;
  peek-scan = λ r reverse. refl;
}

abbrev all_entries : Json → Bool
all_entries e = true

four : length (shelf_view.scan (range_past (codes "message") desc none) true) < 4
unfolding select in_range backwards text_le
four = omega arith

walk_is_complete_example :
    walk shelf_view (codes "message") desc 2 all_entries 4 none
    ≡ listing shelf_view (codes "message") desc all_entries none
walk_is_complete_example =
    walk_is_complete shelf_view shelf_laws (codes "message") desc all_entries 2 4 none four

at_the_end : (list_page shelf_view (codes "message") desc 3 all_entries none).has_more ≡ false
unfolding list_page take_page peek_has_more select in_range backwards first text_le
at_the_end = refl

page_ends_example :
    (length (list_page shelf_view (codes "message") desc 2 all_entries none).entries ≤ 2)
    × (((list_page shelf_view (codes "message") desc 2 all_entries none).has_more ≡ true)
        ⊎ ((list_page shelf_view (codes "message") desc 2 all_entries none).entries
            ≡ listing shelf_view (codes "message") desc all_entries none))
page_ends_example =
    page_ends shelf_view shelf_laws (codes "message") desc all_entries 2 none (omega arith)
