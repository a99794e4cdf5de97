-- ===== src/Views/Chains.antt =====
-- Rows in the order of a page, and what of them comes after a key.
use mathlib.Core.List.{append-nil}
use openpact.Prelude.{
  Text, text_le, text_le_refl, text_le_total, List, [], ◌∷◌, ◌++◌, Bool, true, false, not, ◌&&◌,
  ◌≡◌, inl, inr, refl, arith, All, Bool-cases,
}
use openpact.Json.{Json}
use openpact.Views.{Order, asc, desc}
use openpact.Views.Store.{Row, select, IsAscending, backwards}

-- The second key comes after the first on a page.
unfoldable pub is_after : Order → Text → Text → Bool
is_after asc k j = not (text_le j k)
is_after desc k j = not (text_le k j)

pub is_after_irrefl : (o : Order) (k : Text) → is_after o k k ≡ false
unfolding is_after
is_after_irrefl asc k = rw (text_le_refl k) refl
is_after_irrefl desc k = rw (text_le_refl k) refl

is_after_asymm : (o : Order) (j k : Text) → is_after o j k ≡ true → is_after o k j ≡ false
unfolding is_after
is_after_asymm asc j k h = ground (arith, text_le_total j k)
is_after_asymm desc j k h = ground (arith, text_le_total j k)

unfoldable pub IsChain : Order → List Row → Type 0
IsChain o [] = Unit
IsChain o ((k, x) ∷ rows) = All (λ r. is_after o k r.0 ≡ true) rows × IsChain o rows

select-All :
    (t : Text → Bool) (rows : List Row) → All (λ r. t r.0 ≡ true) rows → select t rows ≡ rows
unfolding select
select-All t [] h = refl
select-All t ((k, x) ∷ rows) (h, hs) = rw (h, select-All t rows hs) refl

All-select :
    (P : Row → Type 0) (t : Text → Bool) (rows : List Row) → All P rows → All P (select t rows)
unfolding select
All-select P t [] h = tt
All-select P t ((k, x) ∷ rows) (h, hs) = elim (Bool-cases (t k)) [
  | inl in_ ↦ rw in_ (h, All-select P t rows hs)
  | inr out ↦ rw out (All-select P t rows hs)
]

pub select-IsChain :
    (o : Order) (t : Text → Bool) (rows : List Row) → IsChain o rows → IsChain o (select t rows)
unfolding select IsChain
select-IsChain o t [] h = tt
select-IsChain o t ((k, x) ∷ rows) (h, hs) = elim (Bool-cases (t k)) [
  | inl in_ ↦ rw in_ (All-select _ t rows h, select-IsChain o t rows hs)
  | inr out ↦ rw out (select-IsChain o t rows hs)
]

pub All-head :
    (P : Row → Type 0) (xs : List Row) (r : Row) (ys : List Row) → All P (xs ++ r ∷ ys) → P r
All-head P [] r ys (h, hs) = h
All-head P (x ∷ xs) r ys (h, hs) = All-head P xs r ys hs

-- Of a chain, the rows after a key are those that follow it.
pub select-after :
    (o : Order) (xs : List Row) (k : Text) (x : Json) (ys : List Row)
    → IsChain o (xs ++ (k, x) ∷ ys)
    → select (is_after o k) (xs ++ (k, x) ∷ ys) ≡ ys
unfolding select IsChain
select-after o [] k x ys (h, hs) = rw (is_after_irrefl o k) (select-All (is_after o k) ys h)
select-after o ((j, y) ∷ xs) k x ys (h, hs) =
    rw (is_after_asymm o j k (All-head _ xs (k, x) ys h)) (select-after o xs k x ys hs)

pub select-select :
    (s t u : Text → Bool) (both : (k : Text) → u k ≡ (s k && t k)) (rows : List Row)
    → select u rows ≡ select t (select s rows)
unfolding select
select-select s t u both [] = refl
select-select s t u both ((k, x) ∷ rows) = ground (arith, both k, select-select s t u both rows)

All-append : (P : Row → Type 0) (xs ys : List Row) → All P xs → All P ys → All P (xs ++ ys)
All-append P [] ys h g = g
All-append P (x ∷ xs) ys (h, hs) g = (h, All-append P xs ys hs g)

pub All-backwards : (P : Row → Type 0) (xs : List Row) → All P xs → All P (backwards xs)
unfolding backwards
All-backwards P [] h = tt
All-backwards P (x ∷ xs) (h, hs) =
    All-append P (backwards xs) (x ∷ []) (All-backwards P xs hs) (h, tt)

IsChain-snoc :
    (o : Order) (xs : List Row) (r : Row)
    → IsChain o xs
    → All (λ s. is_after o s.0 r.0 ≡ true) xs
    → IsChain o (xs ++ r ∷ [])
unfolding IsChain
IsChain-snoc o [] (k, x) h g = (tt, tt)
IsChain-snoc o ((j, y) ∷ xs) r (h, hs) (g, gs) =
    (All-append _ xs (r ∷ []) h (g, tt), IsChain-snoc o xs r hs gs)

All-above :
    (k : Text) (rows : List Row)
    → All (λ r. text_le r.0 k ≡ false) rows
    → All (λ r. is_after asc k r.0 ≡ true) rows
unfolding is_after
All-above k [] h = tt
All-above k (r ∷ rows) (h, hs) = (rw h refl, All-above k rows hs)

pub ascending-IsChain : (rows : List Row) → IsAscending rows → IsChain asc rows
unfolding IsAscending IsChain
ascending-IsChain [] h = tt
ascending-IsChain ((k, x) ∷ rows) (h, hs) = (All-above k rows h, ascending-IsChain rows hs)

pub backwards-IsChain : (rows : List Row) → IsChain asc rows → IsChain desc (backwards rows)
unfolding IsChain backwards is_after
backwards-IsChain [] h = tt
backwards-IsChain ((k, x) ∷ rows) (h, hs) =
    IsChain-snoc desc (backwards rows) (k, x) (backwards-IsChain rows hs)
      (All-backwards (λ s. is_after desc s.0 k ≡ true) rows h)

select-append :
    (t : Text → Bool) (xs ys : List Row) → select t (xs ++ ys) ≡ select t xs ++ select t ys
unfolding select
select-append t [] ys = refl
select-append t ((k, x) ∷ xs) ys = ground (arith, select-append t xs ys)

pub select-backwards :
    (t : Text → Bool) (rows : List Row) → select t (backwards rows) ≡ backwards (select t rows)
unfolding select backwards
select-backwards t [] = refl
select-backwards t ((k, x) ∷ rows) = elim (Bool-cases (t k)) [
  | inl in_ ↦
      rw (in_, select-append t (backwards rows) ((k, x) ∷ []), in_, select-backwards t rows) refl
  | inr out ↦
      rw (out, select-append t (backwards rows) ((k, x) ∷ []), out, select-backwards t rows)
        (append-nil (backwards (select t rows)))
]

pub All-selected : (t : Text → Bool) (rows : List Row) → All (λ r. t r.0 ≡ true) (select t rows)
unfolding select
All-selected t [] = tt
All-selected t ((k, x) ∷ rows) = elim (Bool-cases (t k)) [
  | inl in_ ↦ rw in_ (in_, All-selected t rows)
  | inr out ↦ rw out (All-selected t rows)
]
