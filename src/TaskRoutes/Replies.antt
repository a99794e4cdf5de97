-- ===== src/TaskRoutes/Replies.antt =====
-- What a caller may conclude from the reply of a task route.
use openpact.Prelude.{
  ℕ, Text, text_eq_iff, Option, none, some, List, [], ◌∷◌, Bool, true, ◌≡◌, inl, inr, ap, arith,
  Bool-cases, Option-cases,
}
use openpact.Tasks.{claimed, TaskEntry, TaskState, is_text, reduce_task_history}
use openpact.TaskRoutes.{
  Append, replied, has_entry, wait_for_view, check_claim, reply_claim, claim_route,
}

is_text-some : (o : Option Text) (t : Text) → is_text o t ≡ true → o ≡ some t
is_text-some none t h = absurd (ground arith)
is_text-some (some s) t h = ap some ((text_eq_iff s t).0 h)

module _ (parse : Text → Option ℕ) (to_iso : ℕ → Text) (locale_le : Text → Text → Bool)
    (ttl_ms : Option ℕ) where
  -- One of the polls saw the entry, and the state is what its entries reduce to.
  pub data Seen (id : Text) (s : TaskState) : List (ℕ × List TaskEntry) → Type 0 where
    now_seen :
        (now : ℕ) (es : List TaskEntry) (polls : List (ℕ × List TaskEntry))
        → has_entry id es ≡ true
        → reduce_task_history parse to_iso locale_le es ttl_ms now ≡ some s
        → Seen id s ((now, es) ∷ polls)
    later_seen :
        (poll : ℕ × List TaskEntry) (polls : List (ℕ × List TaskEntry))
        → Seen id s polls
        → Seen id s (poll ∷ polls)

  wait_for_view-Seen :
      (polls : List (ℕ × List TaskEntry)) (id : Text) (s : TaskState)
      → wait_for_view parse to_iso locale_le ttl_ms polls id ≡ some s
      → Seen id s polls
  unfolding wait_for_view
  wait_for_view-Seen [] id s h = absurd (ground arith)
  wait_for_view-Seen ((now, es) ∷ polls) id s h = elim (Bool-cases (has_entry id es)) [
    | inr absent ↦ later_seen _ polls (wait_for_view-Seen polls id s (ground arith))
    | inl present ↦ elim (Option-cases (reduce_task_history parse to_iso locale_le es ttl_ms now)) [
      | inl malformed ↦ later_seen _ polls (wait_for_view-Seen polls id s (ground arith))
      | inr (state, reduced) ↦ now_seen now es polls present (ground arith)
    ]
  ]

  -- A state that the claim route replies with shows the task claimed by the caller's peer, and is
  -- what the entries of one poll reduce to, the claim's own entry among them.
  pub claim_route-replied :
      (before : Option TaskState) (a : Append) (polls : List (ℕ × List TaskEntry)) (s : TaskState)
      → claim_route parse to_iso locale_le ttl_ms before a polls ≡ replied s
      → (s.status ≡ claimed) × (s.claimed_by ≡ some a.peer) × Seen a.id s polls
  unfolding claim_route reply_claim
  claim_route-replied before a polls s h = elim (Option-cases (check_claim before a.peer)) [
    | inr (error, refused) ↦ absurd (ground arith)
    | inl passed ↦ elim (Option-cases (wait_for_view parse to_iso locale_le ttl_ms polls a.id)) [
      | inl late ↦ absurd (ground arith)
      | inr (after, seen) ↦ (
        ground arith,
        is_text-some s.claimed_by a.peer (ground arith),
        wait_for_view-Seen polls a.id s (ground arith),
      )
    ]
  ]
