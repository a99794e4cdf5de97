-- ===== src/Changes/Follow.antt =====
-- A client that follows the cursors of the feed, as `GET /changes?since=` is called with each.
use openpact.Prelude.{
  ℕ, zero, suc, ◌≤◌, ◌<◌, Text, truthy, Option, none, some, List, [], ◌∷◌, ◌++◌, true, ◌≡◌, inl,
  inr, refl, sym, ap, ◌∙◌, subst, arith, if◌then◌else◌, All, length, length-append, take, ltb,
}
use openpact.Json.{Json, str, field}
use openpact.Views.Store.{ReadView}
use openpact.Changes.{
  Cursor, parse_cursor, encode_cursor, key_of, sort_entries, collect, last_of, next_cursor,
  ChangesPage, read_changes_once, or_default, cursor_option,
}
use openpact.Changes.Cursors.{has_no_bar, parse_cursor-encode_cursor}
use openpact.Changes.Sorted.{AreApart, All-sort_entries}
use openpact.Changes.Past.{feed, sorted-feed, feed-after, page_parts, past-All, All-of}

-- An entry with a timestamp and an id, as every stored entry has.
pub record IsKeyed (e : Json) : Type 0 where
  pub ts : Text
  pub id : Text
  pub has_ts : field "timestamp" e ≡ some (str ts)
  pub has_id : field "id" e ≡ some (str id)
  pub some_ts : truthy ts ≡ true
  pub no_bar : has_no_bar ts ≡ true
  pub some_id : truthy id ≡ true

-- A page, and the next request if it says that there is more.
abbrev and_then : ChangesPage → (Option Text → List Json) → List Json
and_then page next =
    let rest = next page.cursor in if page.has_more then page.entries ++ rest else page.entries

-- The entries that at most `fuel` requests return.
unfoldable pub follow : ReadView → List Text → ℕ → ℕ → Option Text → List Json
follow v types limit zero since = []
follow v types limit (suc fuel) since = elim (cursor_option (parse_cursor (or_default since []))) [
  | none ↦ []
  | some c ↦ and_then (read_changes_once v types c limit since) (follow v types limit fuel)
]

-- The cursor that a page gives for an entry is the entry's key.
keyed-cursor :
    (e : Json) (fallback : Option Text)
    → IsKeyed e
    → (next_cursor (some e) fallback ≡ some (encode_cursor (key_of e)))
      × (cursor_option (parse_cursor (encode_cursor (key_of e))) ≡ some (some (key_of e)))
unfolding next_cursor
keyed-cursor e fallback k =
    let c : Cursor = record { ts = k.ts; id = k.id } in
    (
      rw (next_cursor, k.has_ts, k.has_id) refl,
      rw (k.has_ts, k.has_id)
          (ap cursor_option (parse_cursor-encode_cursor c k.some_ts k.no_bar k.some_id)),
    )

snoc-append : (xs : List Json) (e : Json) (ys : List Json) → (xs ++ e ∷ []) ++ ys ≡ xs ++ e ∷ ys
snoc-append [] e ys = refl
snoc-append (x ∷ xs) e ys = ap (λ l. x ∷ l) (snoc-append xs e ys)

-- A page in terms of the feed.
abbrev page_from : List Json → ℕ → Option Text → ChangesPage
page_from es limit since = record {
  entries = take limit es;
  cursor = next_cursor (last_of (take limit es)) since;
  has_more = ltb limit (length es);
}

read_changes_once-feed :
    (v : ReadView) (types : List Text) (limit : ℕ) (since : Option Text) (c : Option Cursor)
    → AreApart (collect v none types)
    → read_changes_once v types c limit since ≡ page_from (feed v types c) limit since
unfolding read_changes_once
read_changes_once-feed v types limit since c apart =
    ap (λ es. page_from es limit since) (sorted-feed v types c apart)

-- When no two entries have the same timestamp and id, and each has a timestamp without a bar and an
-- id, then whatever the positive limit, a client that starts at a cursor and follows those of the
-- pages gets, in the order of timestamps and ids, every entry after its cursor once, if it may send
-- more requests than there are such entries.
pub follow_is_complete :
    (v : ReadView) (types : List Text) (limit fuel : ℕ) (since : Option Text) (c : Option Cursor)
    → 1 ≤ limit
    → AreApart (collect v none types)
    → All IsKeyed (collect v none types)
    → cursor_option (parse_cursor (or_default since [])) ≡ some c
    → length (feed v types c) < fuel
    → follow v types limit fuel since ≡ feed v types c
unfolding follow
follow_is_complete v types limit zero since c positive apart keyed parsed enough =
    absurd (omega arith)
follow_is_complete v types limit (suc fuel) since c positive apart keyed parsed enough =
    let next_page = page_from (feed v types c) limit since in
    let step : follow v types limit (suc fuel) since
        ≡ and_then next_page (follow v types limit fuel) =
      rw (follow, parsed)
        (ap (λ p. and_then p (follow v types limit fuel))
          (read_changes_once-feed v types limit since c apart)) in
    elim (page_parts limit (feed v types c) positive) [
      | inl (whole, over) ↦ step ∙ rw over whole
      | inr (xs, e, ys, parts, page, last, more) ↦
          let here : IsKeyed e = All-of IsKeyed xs e ys (
            subst (All IsKeyed) parts (
              unfold feed in
              past-All IsKeyed c (sort_entries (collect v none types))
                (All-sort_entries IsKeyed (collect v none types) keyed))) in
          let (next, again) = keyed-cursor e since here in
          let rest : feed v types (some (key_of e)) ≡ ys =
            feed-after v types c xs e ys apart parts in
          let shorter : length (feed v types (some (key_of e))) < fuel = rw rest (
            omega
              (arith, length-append xs (e ∷ ys), subst (λ l. length l < suc fuel) parts enough)) in
          step
          ∙ rw (more, last, next, page)
              (ap (λ l. (xs ++ e ∷ []) ++ l)
                  (follow_is_complete v types limit fuel (some (encode_cursor (key_of e)))
                      (some (key_of e)) positive apart keyed again shorter
                    ∙ rest)
                ∙ (snoc-append xs e ys ∙ sym parts))
    ]
