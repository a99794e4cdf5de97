-- ===== src/Views/Walk.antt =====
-- Following the cursors of `listByType` from page to page.
use mathlib.Core.List.{append-nil}
use openpact.Prelude.{
  ℕ, zero, suc, ◌+◌, ◌≤◌, ◌<◌, Text, Option, none, some, List, [], ◌∷◌, ◌++◌, Bool, true, false,
  ◌≡◌, ◌⊎◌, inl, inr, refl, sym, ap, ◌∙◌, subst, arith, is_some, length, length-append, leb,
  Bool-cases,
}
use openpact.Json.{Json}
use openpact.Views.{Order, is_desc, range_past, take_page, list_page, peek_has_more}
use openpact.Views.Store.{Row, ReadView, IsReadView, first}
use openpact.Views.Pages.{kept, take_page-Split, stream, stream-after}

-- What the entries of all pages should be.
unfoldable pub listing : ReadView → Text → Order → (Json → Bool) → Option Text → List Json
listing v type o filter c = kept filter (v.scan (range_past type o c) (is_desc o))

-- A caller that follows the cursors, through at most `fuel` pages.
unfoldable pub walk : ReadView → Text → Order → ℕ → (Json → Bool) → ℕ → Option Text → List Json
walk v type o limit filter zero c = []
walk v type o limit filter (suc fuel) c =
    let page = list_page v type o limit filter c in
    elim page.cursor [
      | none ↦ page.entries
      | some key ↦ page.entries ++ walk v type o limit filter fuel (some key)
    ]

module _ (v : ReadView) (laws : IsReadView v) (type : Text) (o : Order) (filter : Json → Bool) where
  -- A page with no cursor is the end; any other is followed by what its cursor lists.
  page_cases :
      (limit : ℕ) (c : Option Text)
      → (((list_page v type o limit filter c).cursor ≡ none)
          × ((list_page v type o limit filter c).entries ≡ listing v type o filter c))
        ⊎ ((k : Text) × ((list_page v type o limit filter c).cursor ≡ some k)
            × ((list_page v type o limit filter c).entries ++ listing v type o filter (some k)
                ≡ listing v type o filter c)
            × (length (v.scan (range_past type o (some k)) (is_desc o))
                < length (v.scan (range_past type o c) (is_desc o))))
  unfolding list_page listing stream
  page_cases limit c =
      let rows = v.scan (range_past type o c) (is_desc o) in
      elim (take_page-Split filter limit 0 none rows) [
        | inl (a, b, e) ↦ inl (b, a ∙ sym e)
        | inr s ↦
            let past : v.scan (range_past type o (some s.key)) (is_desc o) ≡ s.after =
              stream-after v laws type o c s.before s.key s.value s.after s.parts in
            inr (
              s.key,
              s.ended,
              rw past (s.entries),
              rw (past, s.parts, length-append s.before ((s.key, s.value) ∷ s.after)) (omega arith),
            )
      ]

  -- Whatever the limit and the filter, the pages that a caller gets by following the cursors hold,
  -- in order, exactly the entries of the range that the filter keeps, once there are more pages
  -- allowed than rows.
  pub walk_is_complete :
      (limit fuel : ℕ) (c : Option Text)
      → length (v.scan (range_past type o c) (is_desc o)) < fuel
      → walk v type o limit filter fuel c ≡ listing v type o filter c
  unfolding walk
  walk_is_complete limit zero c h = absurd (omega arith)
  walk_is_complete limit (suc fuel) c h = elim (page_cases limit c) [
    | inl (over, entries) ↦ rw (walk, over) entries
    | inr (k, more, entries, shorter) ↦
        rw (walk, more)
          (ap (λ l. (list_page v type o limit filter c).entries ++ l)
              (walk_is_complete limit fuel (some k) (omega arith))
            ∙ entries)
  ]

  take_page-length :
      (limit n : ℕ) (last : Option Text) (rows : List Row)
      → n < limit
      → n + length (take_page filter limit n last rows).0 ≤ limit
  unfolding take_page
  take_page-length limit n last [] h = omega arith
  take_page-length limit n last ((k, x) ∷ rows) h = elim (Bool-cases (leb limit (n + 1))) [
    | inl full ↦ ground (arith, take_page-length limit n last rows h)
    | inr room ↦ ground (
      arith,
      take_page-length limit n last rows h,
      take_page-length limit (n + 1) (some k) rows (ground arith),
    )
  ]

  first-none : (rows : List Row) → is_some (first rows) ≡ false → rows ≡ []
  unfolding first
  first-none [] h = refl
  first-none (r ∷ rows) h = absurd (ground arith)

  no_more :
      (k : Text) → peek_has_more v type o (some k) ≡ false → listing v type o filter (some k) ≡ []
  unfolding peek_has_more listing kept
  no_more k h =
      let r = range_past type o (some k) in
      ap (kept filter)
        (first-none (v.scan r (is_desc o)) (sym (ap is_some (laws.peek-scan r (is_desc o))) ∙ h))

  page_ends_at :
      (limit : ℕ) (c : Option Text)
      → peek_has_more v type o (list_page v type o limit filter c).cursor ≡ false
      → (list_page v type o limit filter c).entries ≡ listing v type o filter c
  page_ends_at limit c none_left = elim (page_cases limit c) [
    | inl (over, entries) ↦ entries
    | inr (k, more, entries, shorter) ↦
        sym (append-nil _)
        ∙ (ap (λ l. (list_page v type o limit filter c).entries ++ l)
              (sym (no_more k (subst (λ q. peek_has_more v type o q ≡ false) more none_left)))
            ∙ entries)
  ]

  -- A page has at most as many entries as the limit, if that is not 0, whether or not it says that
  -- there is more; and it says so, or its entries are all that remained to be listed.
  pub page_ends :
      (limit : ℕ) (c : Option Text)
      → 1 ≤ limit
      → (length (list_page v type o limit filter c).entries ≤ limit)
        × (((list_page v type o limit filter c).has_more ≡ true)
            ⊎ ((list_page v type o limit filter c).entries ≡ listing v type o filter c))
  unfolding list_page
  page_ends limit c h =
      let rows = v.scan (range_past type o c) (is_desc o) in
      let bound : 0 + length (take_page filter limit 0 none rows).0 ≤ limit =
        take_page-length limit 0 none rows (omega arith) in
      (
        omega arith,
        elim (Bool-cases (list_page v type o limit filter c).has_more) [
          | inl more ↦ inl more
          | inr none_left ↦ inr (page_ends_at limit c none_left)
        ],
      )
