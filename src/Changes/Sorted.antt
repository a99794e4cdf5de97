-- ===== src/Changes/Sorted.antt =====
-- The feed sorted by key, and what of it comes after a cursor.
use openpact.Prelude.{
  text_eq, text_eq_iff, text_le_total, text_le_antisymm, Option, List, [], ◌∷◌, Bool, true, false,
  ◌&&◌, ◌≡◌, inl, inr, refl, ◌∙◌, arith, if◌then◌else◌, All, Bool-cases,
}
use openpact.Json.{Json}
use openpact.Changes.{Cursor, key_of, after_cursor, insert_entry, sort_entries, is_past}
use openpact.Changes.Keys.{after_trans, after_asymm, by_ts_then_id-after}

unfoldable pub past : Option Cursor → List Json → List Json
past c [] = []
past c (e ∷ es) = let rest = past c es in if is_past c e then e ∷ rest else rest

-- The keys ascend strictly.
unfoldable pub IsFeed : List Json → Type 0
IsFeed [] = Unit
IsFeed (e ∷ es) = All (λ f. after_cursor (key_of f) (key_of e) ≡ true) es × IsFeed es

abbrev pub same_key : Json → Json → Bool
same_key e f = text_eq (key_of e).ts (key_of f).ts && text_eq (key_of e).id (key_of f).id

-- No two entries have the same timestamp and id.
unfoldable pub AreApart : List Json → Type 0
AreApart [] = Unit
AreApart (e ∷ es) = All (λ f. same_key e f ≡ false) es × AreApart es

apart-after :
    (e f : Json)
    → same_key e f ≡ false
    → after_cursor (key_of e) (key_of f) ≡ false
    → after_cursor (key_of f) (key_of e) ≡ true
unfolding after_cursor
apart-after e f h k =
    let a = key_of e in
    let b = key_of f in
    ground (
      arith,
      text_eq_iff a.ts b.ts,
      text_eq_iff a.id b.id,
      text_le_total a.ts b.ts,
      text_le_antisymm a.ts b.ts,
      text_le_total a.id b.id,
      text_le_antisymm a.id b.id,
    )

-- One insertion, with the two places that the entry may take.
insert_first :
    (e f : Json) (fs : List Json)
    → after_cursor (key_of e) (key_of f) ≡ false
    → insert_entry e (f ∷ fs) ≡ e ∷ f ∷ fs
unfolding insert_entry
insert_first e f fs h = rw (by_ts_then_id-after (key_of e) (key_of f), h) refl

insert_later :
    (e f : Json) (fs : List Json)
    → after_cursor (key_of e) (key_of f) ≡ true
    → insert_entry e (f ∷ fs) ≡ f ∷ insert_entry e fs
unfolding insert_entry
insert_later e f fs h = rw (insert_entry, by_ts_then_id-after (key_of e) (key_of f), h) refl

All-insert_entry :
    (P : Json → Type 0) (e : Json) (es : List Json) → P e → All P es → All P (insert_entry e es)
All-insert_entry P e [] h hs = unfold insert_entry in (h, tt)
All-insert_entry P e (f ∷ fs) h (k, ks) = elim (Bool-cases (after_cursor (key_of e) (key_of f))) [
  | inr first ↦ rw (insert_first e f fs first) (h, (k, ks))
  | inl later ↦ rw (insert_later e f fs later) (k, All-insert_entry P e fs h ks)
]

All-after_trans :
    (e f : Json) (fs : List Json)
    → after_cursor (key_of f) (key_of e) ≡ true
    → All (λ g. after_cursor (key_of g) (key_of f) ≡ true) fs
    → All (λ g. after_cursor (key_of g) (key_of e) ≡ true) fs
All-after_trans e f [] h hs = tt
All-after_trans e f (g ∷ gs) h (k, ks) =
    (after_trans (key_of g) (key_of f) (key_of e) k h, All-after_trans e f gs h ks)

insert_entry-IsFeed :
    (e : Json) (es : List Json)
    → All (λ f. same_key e f ≡ false) es
    → IsFeed es
    → IsFeed (insert_entry e es)
unfolding IsFeed
insert_entry-IsFeed e [] apart h = unfold insert_entry in (tt, tt)
insert_entry-IsFeed e (f ∷ fs) (apart, apart_rest) (h, hs) =
    elim (Bool-cases (after_cursor (key_of e) (key_of f))) [
      | inr first ↦
          let next = apart-after e f apart first in
          rw (insert_first e f fs first) ((next, All-after_trans e f fs next h), (h, hs))
      | inl later ↦ rw (insert_later e f fs later) (
        All-insert_entry (λ g. after_cursor (key_of g) (key_of f) ≡ true) e fs later h,
        insert_entry-IsFeed e fs apart_rest hs,
      )
    ]

pub All-sort_entries : (P : Json → Type 0) (es : List Json) → All P es → All P (sort_entries es)
unfolding sort_entries
All-sort_entries P [] h = tt
All-sort_entries P (e ∷ es) (h, hs) =
    All-insert_entry P e (sort_entries es) h (All-sort_entries P es hs)

pub sort_entries-IsFeed : (es : List Json) → AreApart es → IsFeed (sort_entries es)
unfolding IsFeed AreApart sort_entries
sort_entries-IsFeed [] h = tt
sort_entries-IsFeed (e ∷ es) (h, hs) =
    insert_entry-IsFeed e (sort_entries es) (All-sort_entries (λ f. same_key e f ≡ false) es h)
      (sort_entries-IsFeed es hs)

-- What is kept of a feed, with an entry before all of it.
insert_before :
    (e : Json) (c : Option Cursor) (es : List Json)
    → All (λ f. after_cursor (key_of f) (key_of e) ≡ true) es
    → insert_entry e (past c es) ≡ e ∷ past c es
unfolding past
insert_before e c [] h = unfold insert_entry in refl
insert_before e c (f ∷ fs) (h, hs) = elim (Bool-cases (is_past c f)) [
  | inl in_ ↦ rw in_ (insert_first e f (past c fs) (after_asymm (key_of f) (key_of e) h))
  | inr out ↦ rw out (insert_before e c fs hs)
]

past-insert_entry :
    (c : Option Cursor) (e : Json) (es : List Json)
    → All (λ f. same_key e f ≡ false) es
    → IsFeed es
    → past c (insert_entry e es) ≡ (if is_past c e then insert_entry e (past c es) else past c es)
unfolding past IsFeed
past-insert_entry c e [] apart h = unfold insert_entry in refl
past-insert_entry c e (f ∷ fs) (apart, apart_rest) (h, hs) =
    elim (Bool-cases (after_cursor (key_of e) (key_of f))) [
      | inr first ↦
          let next = apart-after e f apart first in
          rw
            (
              insert_first e f fs first,
              insert_before e c (f ∷ fs) (next, All-after_trans e f fs next h),
            )
            refl
      | inl later ↦ elim (Bool-cases (is_past c f)) [
        | inl in_ ↦
            rw
              (
                insert_later e f fs later,
                in_,
                past-insert_entry c e fs apart_rest hs,
                insert_later e f (past c fs) later,
              )
              (ground arith)
        | inr out ↦ rw (insert_later e f fs later, out) (past-insert_entry c e fs apart_rest hs)
      ]
    ]

-- Sorting what is kept is keeping of what is sorted.
pub past-sort_entries :
    (c : Option Cursor) (es : List Json)
    → AreApart es
    → past c (sort_entries es) ≡ sort_entries (past c es)
unfolding AreApart sort_entries past
past-sort_entries c [] h = refl
past-sort_entries c (e ∷ es) (h, hs) =
    past-insert_entry c e (sort_entries es) (All-sort_entries (λ f. same_key e f ≡ false) es h)
      (sort_entries-IsFeed es hs)
    ∙ (elim (Bool-cases (is_past c e)) [
      | inl in_ ↦ rw (in_, past-sort_entries c es hs) refl
      | inr out ↦ rw (out, past-sort_entries c es hs) refl
    ])
