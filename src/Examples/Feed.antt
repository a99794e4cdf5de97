-- ===== src/Examples/Feed.antt =====
-- packages/daemon/src/api/routes/changes.ts on a view of three entries.
use openpact.Prelude.{
  ◌<◌, Text, codes, none, some, List, [], ◌∷◌, Bool, true, ◌≡◌, refl, arith, if◌then◌else◌, length,
  All, truthy, text_le,
}
use openpact.Json.{Json, str, obj, end, entry}
use openpact.Views.Store.{Row, Range, ReadView, in_range, select, backwards, first}
use openpact.Changes.{
  Cursor, cursor_at, bad_cursor, no_cursor, parse_cursor, encode_cursor, collect, user_facing,
  head_cursor, read_changes_once, after_cursor, by_ts_then_id, head_from, insert_entry, keep_past,
  sort_entries, split_bar,
}
use openpact.Changes.Cursors.{has_no_bar, parse_cursor-encode_cursor}
use openpact.Changes.Sorted.{AreApart, past}
use openpact.Changes.Past.{feed}
use openpact.Changes.Follow.{IsKeyed, follow, follow_is_complete}

abbrev note : Text → Text → Json
note ts id = obj (entry (codes "timestamp") (str ts) (entry (codes "id") (str id) end))

abbrev rows : List Row
rows =
    (codes "message/1/a", note (codes "1") (codes "a"))
    ∷ (codes "message/3/c", note (codes "3") (codes "c"))
    ∷ (codes "task/2/b", note (codes "2") (codes "b"))
    ∷ []

abbrev scan_rows : Range → Bool → List Row
scan_rows r reverse =
    if reverse then backwards (select (in_range r) rows) else select (in_range r) rows

abbrev view : ReadView
view = record { scan = scan_rows; peek = λ r reverse. first (scan_rows r reverse) }

abbrev second : Cursor
second = record { ts = codes "2"; id = codes "b" }

second_read_back : parse_cursor (encode_cursor second) ≡ cursor_at second
second_read_back = parse_cursor-encode_cursor second refl refl refl

apart : AreApart (collect view none user_facing)
unfolding AreApart collect keep_past select in_range text_le
apart = ((refl, (refl, tt)), ((refl, tt), (tt, tt)))

is_keyed :
    (ts id : Text)
    → truthy ts ≡ true
    → has_no_bar ts ≡ true
    → truthy id ≡ true
    → IsKeyed (note ts id)
is_keyed ts id a b c = record {
  ts = ts;
  id = id;
  has_ts = refl;
  has_id = refl;
  some_ts = a;
  no_bar = b;
  some_id = c;
}

keyed : All IsKeyed (collect view none user_facing)
unfolding collect keep_past select in_range text_le
keyed = (
  is_keyed (codes "2") (codes "b") refl refl refl,
  (
    is_keyed (codes "1") (codes "a") refl refl refl,
    (is_keyed (codes "3") (codes "c") refl refl refl, tt),
  ),
)

few : length (feed view user_facing none) < 4
unfolding feed past sort_entries collect keep_past select in_range text_le insert_entry
    by_ts_then_id
few = omega arith

follow_is_complete_example : follow view user_facing 1 4 none ≡ feed view user_facing none
unfolding parse_cursor
follow_is_complete_example =
    follow_is_complete view user_facing 1 4 none none (omega arith) apart keyed refl few

-- The head, a page after a cursor, and cursors that are refused.
feed_runs :
    (head_cursor view user_facing ≡ some (codes "3|c"))
    × ((read_changes_once view user_facing (some second) 10 none).entries
        ≡ note (codes "3") (codes "c") ∷ [])
    × (parse_cursor (codes "no-bar") ≡ bad_cursor)
    × (parse_cursor (codes "|x") ≡ bad_cursor)
    × (parse_cursor [] ≡ no_cursor)
unfolding head_cursor head_from first backwards select in_range text_le after_cursor encode_cursor
    read_changes_once sort_entries collect keep_past insert_entry parse_cursor split_bar
feed_runs = (refl, refl, refl, refl, refl)
