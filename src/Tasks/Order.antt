-- ===== src/Tasks/Order.antt =====
-- The order in which the reducer sorts entries, against the order in which they are read.
use mathlib.Core.Logic.{∥∥₁_elim}
use mathlib.Core.Logic.Or
use mathlib.Core.List.{Permᴰ, Perm, Mem, mem-cons}
use mathlib.Core.List.Permᴰ
use openpact.Prelude.{
  ℕ, Text, Option, none, some, List, [], ◌∷◌, Bool, true, false, ◌≡◌, ◌⊎◌, inl, inr, refl, sym, ap,
  ap₂, ◌∙◌, arith, Bool-cases,
}
use openpact.EntryId.{is_valid}
use openpact.Tasks.{
  TaskEntry, TaskState, insert, sort, reduce_task_history, reduce_ordered, find_original,
  default_ttl_ms,
}

-- What is asked of `localeCompare`: a total order, in which distinct entry ids are never equal.
pub record IsIdOrder (le : Text → Text → Bool) : Type 0 where
  pub total : (s t : Text) → (le s t ≡ true) ⊎ (le t s ≡ true)
  pub trans : (s t u : Text) → le s t ≡ true → le t u ≡ true → le s u ≡ true
  pub antisymm :
      (s t : Text) → is_valid s ≡ true → is_valid t ≡ true → le s t ≡ true → le t s ≡ true → s ≡ t

-- The ids are valid, and no two entries share one.
pub record HasIds (es : List TaskEntry) : Type 0 where
  pub valid : (e : TaskEntry) → Mem e es → is_valid e.id ≡ true
  pub distinct : (e f : TaskEntry) → Mem e es → Mem f es → e.id ≡ f.id → e ≡ f

HasIds-tail : {e : TaskEntry} {es : List TaskEntry} → HasIds (e ∷ es) → HasIds es
HasIds-tail h = record {
  valid = λ f m. h.valid f (mem-cons.1 (Or.inr m));
  distinct = λ f g m k. h.distinct f g (mem-cons.1 (Or.inr m)) (mem-cons.1 (Or.inr k));
}

HasIds-perm : {es fs : List TaskEntry} → Permᴰ es fs → HasIds es → HasIds fs
HasIds-perm p h = record {
  valid = λ f m. h.valid f (Permᴰ.mem (Permᴰ.symm p) m);
  distinct = λ f g m k. h.distinct f g (Permᴰ.mem (Permᴰ.symm p) m) (Permᴰ.mem (Permᴰ.symm p) k);
}

module _ (le : Text → Text → Bool) (order : IsIdOrder le) where
  -- Either the two are one entry, or one of them is strictly before the other.
  id_cases :
      (e f : TaskEntry)
      → is_valid e.id ≡ true
      → is_valid f.id ≡ true
      → (e.id ≡ f.id → e ≡ f)
      → (e ≡ f)
        ⊎ (((le e.id f.id ≡ true) × (le f.id e.id ≡ false))
            ⊎ ((le e.id f.id ≡ false) × (le f.id e.id ≡ true)))
  id_cases e f ve vf same = elim (Bool-cases (le e.id f.id)) [
    | inl before ↦ elim (Bool-cases (le f.id e.id)) [
      | inl after ↦ inl (same (order.antisymm e.id f.id ve vf before after))
      | inr not_after ↦ inr (inl (before, not_after))
    ]
    | inr not_before ↦ inr (inr (not_before, ground (arith, order.total e.id f.id)))
  ]

  insert_strict :
      (e f : TaskEntry) (es : List TaskEntry)
      → le e.id f.id ≡ true
      → le f.id e.id ≡ false
      → insert le e (insert le f es) ≡ insert le f (insert le e es)
  unfolding insert
  insert_strict e f [] p q = rw (p, q)
  insert_strict e f (g ∷ es) p q =
      let ih = insert_strict e f es p q in
      elim (Bool-cases (le e.id g.id)) [
        | inl eg ↦ elim (Bool-cases (le f.id g.id)) [
          | inl fg ↦ simp (p, q, eg, fg)
          | inr gf ↦ simp (q, eg, gf)
        ]
        | inr ge ↦ elim (Bool-cases (le f.id g.id)) [
          | inl fg ↦ absurd (cc (order.trans e.id f.id g.id p fg))
          | inr gf ↦ simp (ge, gf) (ap (λ l. g ∷ l) ih)
        ]
      ]

  insert_comm :
      (e f : TaskEntry) (es : List TaskEntry)
      → is_valid e.id ≡ true
      → is_valid f.id ≡ true
      → (e.id ≡ f.id → e ≡ f)
      → insert le e (insert le f es) ≡ insert le f (insert le e es)
  insert_comm e f es ve vf same = elim (id_cases e f ve vf same) [
    | inl one ↦ rw one
    | inr (inl (p, q)) ↦ insert_strict e f es p q
    | inr (inr (p, q)) ↦ sym (insert_strict f e es q p)
  ]

  sort-permᴰ : {es fs : List TaskEntry} → Permᴰ es fs → HasIds es → sort le es ≡ sort le fs
  unfolding sort
  sort-permᴰ Permᴰ.nil h = refl
  sort-permᴰ (Permᴰ.cons e p) h = ap₂ (insert le) e (sort-permᴰ p (HasIds-tail h))
  sort-permᴰ (Permᴰ.swap {a} {b} {a'} {b'} {l} q r) h =
      rw (sym q, sym r)
        (insert_comm a b (sort le l) (h.valid a here) (h.valid b next) (h.distinct a b here next))
    where
      here : Mem a (a ∷ b ∷ l)
      here = mem-cons.1 (Or.inl refl)

      next : Mem b (a ∷ b ∷ l)
      next = mem-cons.1 (Or.inr (mem-cons.1 (Or.inl refl)))
  sort-permᴰ (Permᴰ.trans p q) h = sort-permᴰ p h ∙ sort-permᴰ q (HasIds-perm p h)

  entries_set : IsSet (List TaskEntry)
  entries_set = hlevel

  sort-perm : (es fs : List TaskEntry) → Perm es fs → HasIds es → sort le es ≡ sort le fs
  sort-perm es fs p h = ∥∥₁_elim p (entries_set _ _) (λ q. sort-permᴰ q h)

  -- The reducer gives the same state for the same entries in whatever order they are read, given
  -- the same TTL and clock, if their ids are valid and distinct, and if `localeCompare` is a total
  -- order in which no two distinct valid ids are equal.
  pub reduce_deterministic :
      (parse : Text → Option ℕ) (to_iso : ℕ → Text) (es fs : List TaskEntry) (ttl_ms : Option ℕ)
      (now : ℕ)
      → Perm es fs
      → HasIds es
      → reduce_task_history parse to_iso le es ttl_ms now
        ≡ reduce_task_history parse to_iso le fs ttl_ms now
  reduce_deterministic parse to_iso es fs ttl_ms now p h =
      reduce-sort es ∙ (ap reduced (sort-perm es fs p h) ∙ sym (reduce-sort fs))
    where
      reduced : List TaskEntry → Option TaskState
      reduced ordered =
          reduce_ordered parse to_iso ordered (find_original ordered)
            (elim ttl_ms [ none ↦ default_ttl_ms | some t ↦ t ]) now

      reduce-sort :
          (l : List TaskEntry)
          → reduce_task_history parse to_iso le l ttl_ms now ≡ reduced (sort le l)
      reduce-sort [] = unfold reduce_task_history sort reduce_ordered find_original in refl
      reduce-sort (e ∷ l) = unfold reduce_task_history in refl
