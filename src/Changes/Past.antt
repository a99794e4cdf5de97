-- ===== src/Changes/Past.antt =====
-- What of a feed comes after a cursor, and after the last entry of a page.
use openpact.Prelude.{
  ℕ, zero, suc, ◌≤◌, Text, Option, none, some, List, [], ◌∷◌, ◌++◌, true, false, ◌≡◌, ◌⊎◌, inl, inr,
  refl, sym, ap, ◌∙◌, subst, arith, All, Bool-cases, length, take, ltb,
}
use openpact.Json.{Json}
use openpact.Views.Store.{Row, ReadView}
use openpact.Changes.{
  Cursor, key_of, after_cursor, sort_entries, is_past, keep_past, collect, type_range, last_of,
}
use openpact.Changes.Keys.{after_irrefl, after_trans, after_asymm}
use openpact.Changes.Sorted.{past, IsFeed, AreApart, past-sort_entries, sort_entries-IsFeed}

past-append : (c : Option Cursor) (xs ys : List Json) → past c (xs ++ ys) ≡ past c xs ++ past c ys
unfolding past
past-append c [] ys = refl
past-append c (x ∷ xs) ys = ground (arith, past-append c xs ys)

keep_past-past :
    (c : Option Cursor) (rows : List Row) → keep_past c rows ≡ past c (keep_past none rows)
unfolding keep_past past
keep_past-past c [] = refl
keep_past-past c ((key, value) ∷ rows) = ground (arith, keep_past-past c rows)

-- The entries after a cursor are those of all.
pub collect-past :
    (v : ReadView) (c : Option Cursor) (types : List Text)
    → collect v c types ≡ past c (collect v none types)
unfolding collect past
collect-past v c [] = refl
collect-past v c (type ∷ types) =
    let rows = v.scan (type_range type) false in
    rw (keep_past-past c rows, collect-past v c types)
      (sym (past-append c (keep_past none rows) (collect v none types)))

-- The feed after a cursor.
unfoldable pub feed : ReadView → List Text → Option Cursor → List Json
feed v types c = past c (sort_entries (collect v none types))

pub sorted-feed :
    (v : ReadView) (types : List Text) (c : Option Cursor)
    → AreApart (collect v none types)
    → sort_entries (collect v c types) ≡ feed v types c
unfolding feed
sorted-feed v types c apart =
    ap sort_entries (collect-past v c types)
    ∙ sym (past-sort_entries c (collect v none types) apart)

pub past-All :
    (P : Json → Type 0) (c : Option Cursor) (es : List Json) → All P es → All P (past c es)
unfolding past
past-All P c [] h = tt
past-All P c (e ∷ es) (h, hs) = elim (Bool-cases (is_past c e)) [
  | inl in_ ↦ rw in_ (h, past-All P c es hs)
  | inr out ↦ rw out (past-All P c es hs)
]

pub past-IsFeed : (c : Option Cursor) (es : List Json) → IsFeed es → IsFeed (past c es)
unfolding past IsFeed
past-IsFeed c [] h = tt
past-IsFeed c (e ∷ es) (h, hs) = elim (Bool-cases (is_past c e)) [
  | inl in_ ↦ rw in_ (past-All _ c es h, past-IsFeed c es hs)
  | inr out ↦ rw out (past-IsFeed c es hs)
]

past_everything :
    (e : Json) (es : List Json)
    → All (λ f. after_cursor (key_of f) (key_of e) ≡ true) es
    → past (some (key_of e)) es ≡ es
unfolding past
past_everything e [] h = refl
past_everything e (f ∷ fs) (h, hs) = rw (h, past_everything e fs hs) refl

pub All-of :
    (P : Json → Type 0) (xs : List Json) (e : Json) (ys : List Json) → All P (xs ++ e ∷ ys) → P e
All-of P [] e ys (h, hs) = h
All-of P (x ∷ xs) e ys (h, hs) = All-of P xs e ys hs

-- Of a feed, the entries after one of its own are those that follow it.
past-follows :
    (xs : List Json) (e : Json) (ys : List Json)
    → IsFeed (xs ++ e ∷ ys)
    → past (some (key_of e)) (xs ++ e ∷ ys) ≡ ys
unfolding past IsFeed
past-follows [] e ys (h, hs) = rw (after_irrefl (key_of e)) (past_everything e ys h)
past-follows (x ∷ xs) e ys (h, hs) =
    rw (after_asymm (key_of e) (key_of x) (All-of _ xs e ys h)) (past-follows xs e ys hs)

past-past :
    (c : Option Cursor) (e : Json) (es : List Json)
    → is_past c e ≡ true
    → past (some (key_of e)) (past c es) ≡ past (some (key_of e)) es
unfolding past
past-past c e [] h = refl
past-past none e (f ∷ fs) h = ground (arith, past-past none e fs h)
past-past (some k) e (f ∷ fs) h =
    ground (arith, past-past (some k) e fs h, after_trans (key_of f) (key_of e) k)

All-past : (c : Option Cursor) (es : List Json) → All (λ e. is_past c e ≡ true) (past c es)
unfolding past
All-past c [] = tt
All-past c (e ∷ es) = elim (Bool-cases (is_past c e)) [
  | inl in_ ↦ rw in_ (in_, All-past c es)
  | inr out ↦ rw out (All-past c es)
]

-- The feed after an entry of the feed after a cursor is what follows the entry there.
pub feed-after :
    (v : ReadView) (types : List Text) (c : Option Cursor) (xs : List Json) (e : Json)
    (ys : List Json)
    → AreApart (collect v none types)
    → feed v types c ≡ xs ++ e ∷ ys
    → feed v types (some (key_of e)) ≡ ys
unfolding feed
feed-after v types c xs e ys apart parts =
    let all_entries = sort_entries (collect v none types) in
    let in_order : IsFeed (past c all_entries) =
      past-IsFeed c all_entries (sort_entries-IsFeed (collect v none types) apart) in
    let inside : is_past c e ≡ true =
      All-of _ xs e ys (subst (All (λ f. is_past c f ≡ true)) parts (All-past c all_entries)) in
    sym (past-past c e all_entries inside)
    ∙ (ap (past (some (key_of e))) parts ∙ past-follows xs e ys (subst IsFeed parts in_order))

-- A page is all there is, or it ends at an entry that others follow.
pub page_parts :
    (limit : ℕ) (es : List Json)
    → 1 ≤ limit
    → ((take limit es ≡ es) × (ltb limit (length es) ≡ false))
      ⊎ ((xs : List Json) × (e : Json) × (ys : List Json) × (es ≡ xs ++ e ∷ ys)
          × (take limit es ≡ xs ++ e ∷ [])
          × (last_of (take limit es) ≡ some e)
          × (ltb limit (length es) ≡ true))
page_parts zero es h = absurd (omega arith)
page_parts (suc n) [] h = inl (refl, ground arith)
page_parts (suc zero) (e ∷ []) h = inl (refl, ground arith)
page_parts (suc zero) (e ∷ f ∷ fs) h = inr ([], e, f ∷ fs, refl, refl, refl, ground arith)
page_parts (suc (suc n)) (e ∷ es) h = elim (page_parts (suc n) es (omega arith)) [
  | inl (whole, over) ↦ inl (ap (λ l. e ∷ l) whole, ground arith)
  | inr (xs, f, ys, parts, page, last, more) ↦
      inr (e ∷ xs, f, ys, ap (λ l. e ∷ l) parts, ap (λ l. e ∷ l) page, rw last refl, ground arith)
]
