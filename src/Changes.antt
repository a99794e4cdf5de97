-- ===== src/Changes.antt =====
-- packages/daemon/src/api/routes/changes.ts: the feed of the entries of a pact in the order of their
-- timestamps and ids. Timestamps and ids of stored entries are texts, or left out. What the long
-- poll waits for is the view that it reads afterwards.
pub mod Cursors
pub mod Keys
pub mod Sorted
pub mod Past
pub mod Follow
use openpact.Prelude.{
  ℕ, zero, suc, Text, codes, truthy, text_eq, text_le, Option, none, some, List, [], ◌∷◌, ◌++◌,
  Bool, true, false, not, ◌&&◌, ◌||◌, ◌==◌, ltb, if◌then◌else◌, length, take,
}
use openpact.Json.{Json, null, bool, num, str, arr, obj, field, text_of}
use openpact.Views.{range_start, range_end, is_stored}
use openpact.Views.Store.{Row, Range, ReadView}

abbrev pub user_facing : List Text
user_facing = codes "knowledge" ∷ codes "task" ∷ codes "skill" ∷ codes "message" ∷ []

abbrev pub default_limit : ℕ
default_limit = 50

pub record Cursor : Type 0 where
  pub ts : Text
  pub id : Text

pub data ParsedCursor : Type 0 where
  no_cursor bad_cursor : ParsedCursor
  cursor_at : Cursor → ParsedCursor

-- The parts before and after the first `|`.
unfoldable pub split_bar : Text → Option (Text × Text)
split_bar [] = none
split_bar (c ∷ s) = elim (c == 124) [
  | true ↦ some ([], s)
  | false ↦ elim (split_bar s) [ none ↦ none | some (before, after) ↦ some (c ∷ before, after) ]
]

unfoldable pub parse_cursor : Text → ParsedCursor
parse_cursor raw = if not (truthy raw) then no_cursor else elim (split_bar raw) [
  | none ↦ bad_cursor
  | some (ts, id) ↦
      if truthy ts && truthy id then cursor_at (record { ts = ts; id = id }) else bad_cursor
]

unfoldable pub encode_cursor : Cursor → Text
encode_cursor c = c.ts ++ (codes "|" ++ c.id)

-- `entry.timestamp ?? ''` and `entry.id ?? ''`
abbrev pub key_of : Json → Cursor
key_of e = record { ts = text_of (field "timestamp" e); id = text_of (field "id" e) }

-- `afterCursor`: the key comes after the cursor.
unfoldable pub after_cursor : Cursor → Cursor → Bool
after_cursor key c =
    if not (text_le key.ts c.ts)
    then true
    else if not (text_le c.ts key.ts)
    then false
    else not (text_le key.id c.id)

-- `byTsThenId(a, b) <= 0`
unfoldable pub by_ts_then_id : Cursor → Cursor → Bool
by_ts_then_id a b =
    if not (text_eq a.ts b.ts)
    then text_le a.ts b.ts
    else if not (text_eq a.id b.id)
    then text_le a.id b.id
    else true

-- `all.sort(byTsThenId)`, which is stable.
unfoldable pub insert_entry : Json → List Json → List Json
insert_entry e [] = e ∷ []
insert_entry e (f ∷ fs) =
    let rest = insert_entry e fs in
    if by_ts_then_id (key_of e) (key_of f) then e ∷ f ∷ fs else f ∷ rest

unfoldable pub sort_entries : List Json → List Json
sort_entries [] = []
sort_entries (e ∷ es) = insert_entry e (sort_entries es)

-- `!cursor || afterCursor(entry, cursor)`
abbrev pub is_past : Option Cursor → Json → Bool
is_past none e = true
is_past (some c) e = after_cursor (key_of e) c

unfoldable pub keep_past : Option Cursor → List Row → List Json
keep_past c [] = []
keep_past c ((key, value) ∷ rows) =
    let rest = keep_past c rows in if is_stored value && is_past c value then value ∷ rest else rest

pub record ChangesPage : Type 0 where
  pub entries : List Json
  pub cursor : Option Text
  pub has_more : Bool

abbrev pub last_of : List Json → Option Json
last_of [] = none
last_of (e ∷ es) = elim (last_of es) [ none ↦ some e | some f ↦ some f ]

-- The cursor of a value whose timestamp and id are texts.
abbrev pub cursor_of : Option Json → Option Json → Option Cursor
cursor_of (some (str ts)) (some (str id)) = some (record { ts = ts; id = id })
cursor_of (some (str ts)) none = none
cursor_of (some (str ts)) (some null) = none
cursor_of (some (str ts)) (some (bool b)) = none
cursor_of (some (str ts)) (some (num n)) = none
cursor_of (some (str ts)) (some (arr xs)) = none
cursor_of (some (str ts)) (some (obj fs)) = none
cursor_of none i = none
cursor_of (some null) i = none
cursor_of (some (bool b)) i = none
cursor_of (some (num n)) i = none
cursor_of (some (arr xs)) i = none
cursor_of (some (obj fs)) i = none

abbrev pub entry_cursor : Json → Option Cursor
entry_cursor e = cursor_of (field "timestamp" e) (field "id" e)

abbrev pub type_range : Text → Range
type_range type = record { lower = range_start type; strict = false; upper = range_end type }

unfoldable pub next_cursor : Option Json → Option Text → Option Text
next_cursor none fallback = fallback
next_cursor (some e) fallback = elim (entry_cursor e) [
  | none ↦ fallback
  | some c ↦ some (encode_cursor c)
]

module _ (v : ReadView) where
  unfoldable pub collect : Option Cursor → List Text → List Json
  collect c [] = []
  collect c (type ∷ types) = keep_past c (v.scan (type_range type) false) ++ collect c types

  unfoldable pub read_changes_once : List Text → Option Cursor → ℕ → Option Text → ChangesPage
  read_changes_once types c limit fallback =
      let sorted = sort_entries (collect c types) in
      let page = take limit sorted in
      record {
        entries = page;
        cursor = next_cursor (last_of page) fallback;
        has_more = ltb limit (length sorted);
      }

  abbrev pub later : Option Cursor → Option Cursor → Option Cursor
  later best none = best
  later none (some c) = some c
  later (some best) (some c) = if after_cursor c best then some c else some best

  abbrev pub value_cursor : Option Row → Option Cursor
  value_cursor none = none
  value_cursor (some (key, value)) = entry_cursor value

  -- The loop of `headCursor`, from the best cursor so far.
  unfoldable pub head_from : Option Cursor → List Text → Option Cursor
  head_from best [] = best
  head_from best (type ∷ types) =
      head_from (later best (value_cursor (v.peek (type_range type) true))) types

  unfoldable pub head_cursor : List Text → Option Text
  head_cursor types = elim (head_from none types) [ none ↦ none | some c ↦ some (encode_cursor c) ]

-- A request, after the check of its schema.
pub record ChangesQuery : Type 0 where
  pub since : Option Text
  pub wait : Option ℕ
  pub limit : Option ℕ
  pub type : Option Text
  pub from_head : Bool

pub data ChangesReply : Type 0 where
  bad_request : ChangesReply
  page_of : ChangesPage → ChangesReply

abbrev pub or_default {ℓ} : {A : Type ℓ} → Option A → A → A
or_default (some x) y = x
or_default none y = y

abbrev pub cursor_option : ParsedCursor → Option (Option Cursor)
cursor_option no_cursor = some none
cursor_option bad_cursor = none
cursor_option (cursor_at c) = some (some c)

abbrev pub is_empty_page : ChangesPage → Bool
is_empty_page p = length p.entries == 0

-- `now` is the view at the request, `later` the one after an update or the end of the wait.
unfoldable pub changes_route : ReadView → ReadView → ChangesQuery → ChangesReply
changes_route now later q =
    let limit = or_default q.limit default_limit in
    let wait = or_default q.wait 0 in
    let types = elim q.type as (λ t. List Text) [ some t ↦ t ∷ [] | none ↦ user_facing ] in
    elim (cursor_option (parse_cursor (or_default q.since []))) [
      | none ↦ bad_request
      | some c ↦
          let page = read_changes_once now types c limit q.since in
          if q.from_head
          then page_of (record { entries = []; cursor = head_cursor now types; has_more = false })
          else if not (is_empty_page page) || wait == 0
          then page_of page
          else page_of (read_changes_once later types c limit q.since)
    ]
