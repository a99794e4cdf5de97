-- ===== src/Tasks/Lifecycle.antt =====
-- The lifecycle of a task as a relation, and the updates of the reducer.
use openpact.Prelude.{
  ℕ, ◌+◌, ◌<◌, Text, text_eq_iff, Option, none, some, Bool, true, false, not, ◌&&◌, ◌≡◌, ◌≢◌, ◌↔◌,
  sym, subst, ◌∙◌, ◌⊎◌, inl, inr, refl, arith, Bool-cases, Option-cases,
}
use openpact.Tasks.{
  TaskStatus, open_, claimed, complete, TaskEntry, TaskState, is_open, is_claimed, is_text,
  reserved_for_other, claim_expired_by, on_claim, on_complete, on_release, apply_task_update,
}

status_cases : (t : TaskStatus) → (t ≡ claimed) ⊎ ((t ≡ complete) ⊎ (t ≡ open_))
status_cases claimed = inl refl
status_cases complete = inr (inl refl)
status_cases open_ = inr (inr refl)

module _ (parse : Text → Option ℕ) (ttl : ℕ) where
  abbrev handler : TaskStatus → TaskState → TaskEntry → Bool → TaskState
  handler claimed = on_claim parse
  handler complete = on_complete parse
  handler open_ = on_release parse

  -- The claim was made at a known time, more than the TTL before the update.
  pub record Expired (s : TaskState) (u : TaskEntry) : Type 0 where
    pub status : s.status ≡ claimed
    pub at : Text
    pub claimed_at : s.claimed_at ≡ some at
    pub claim_ms : ℕ
    pub parsed_claim : parse at ≡ some claim_ms
    pub update_ms : ℕ
    pub parsed_update : parse u.timestamp ≡ some update_ms
    pub past : claim_ms + ttl < update_ms

  abbrev pub MayClaim : TaskState → TaskEntry → Type 0
  MayClaim s u = reserved_for_other s.assigned_to u.agent_id ≡ false

  -- The moves of the lifecycle, each with its writer.
  pub data Step (s : TaskState) (u : TaskEntry) (s' : TaskState) : Type 0 where
    claim :
        u.status ≡ claimed
        → (s.status ≡ open_) ⊎ Expired s u
        → MayClaim s u
        → s' ≡ record s {
          status = claimed;
          claimed_by = some u.agent_id;
          claimed_at = some u.timestamp;
        }
        → Step s u s'
    finish :
        u.status ≡ complete
        → (s.status ≡ open_)
          ⊎ ((s.status ≡ claimed) × (¬ Expired s u) × (s.claimed_by ≡ some u.agent_id))
        → s' ≡ record s { status = complete; result = u.result }
        → Step s u s'
    finish_expired :
        u.status ≡ complete
        → Expired s u
        → s' ≡ record s { status = complete; claimed_by = none; result = u.result }
        → Step s u s'
    release :
        u.status ≡ open_
        → s.status ≡ claimed
        → ¬ Expired s u
        → s.claimed_by ≡ some u.agent_id
        → s' ≡ record s { status = open_; claimed_by = none; claimed_at = none }
        → Step s u s'

  Expired-claim_expired_by :
      {s : TaskState} {u : TaskEntry}
      → Expired s u
      → claim_expired_by parse s u.timestamp ttl ≡ true
  unfolding claim_expired_by
  Expired-claim_expired_by x =
      ground (arith, x.status, x.claimed_at, x.parsed_claim, x.parsed_update)

  claim_expired_by-Expired :
      (s : TaskState) (u : TaskEntry)
      → claim_expired_by parse s u.timestamp ttl ≡ true
      → Expired s u
  unfolding claim_expired_by
  claim_expired_by-Expired s u e = elim (Option-cases s.claimed_at) [
    | inl missing ↦ absurd (ground arith)
    | inr (at, given) ↦ elim (Option-cases (parse at)) [
      | inl nan ↦ absurd (ground arith)
      | inr (claim_ms, parsed) ↦ elim (Option-cases (parse u.timestamp)) [
        | inl nan ↦ absurd (ground arith)
        | inr (update_ms, now) ↦ record {
          status = ground arith;
          at = at;
          claimed_at = given;
          claim_ms = claim_ms;
          parsed_claim = parsed;
          update_ms = update_ms;
          parsed_update = now;
          past = ground arith;
        }
      ]
    ]
  ]

  module _ (s : TaskState) (u : TaskEntry) where
    not-Expired : claim_expired_by parse s u.timestamp ttl ≡ false → ¬ Expired s u
    not-Expired e x = cc (Expired-claim_expired_by x)

    abbrev Owned : Type 0
    Owned = (s.status ≡ claimed) × (¬ Expired s u) × (s.claimed_by ≡ some u.agent_id)

    owned :
        (is_claimed s.status
            && (not (claim_expired_by parse s u.timestamp ttl) && is_text s.claimed_by u.agent_id))
          ≡ true
        → Owned
    owned e = elim (Option-cases s.claimed_by) [
      | inl nobody ↦ absurd (ground arith)
      | inr (a, given) ↦
          (ground arith, not-Expired (ground arith), ground (arith, text_eq_iff a u.agent_id))
    ]

    on_claim-Step :
        u.status ≡ claimed
        → (on_claim parse s u (claim_expired_by parse s u.timestamp ttl) ≡ s)
          ⊎ Step s u (on_claim parse s u (claim_expired_by parse s u.timestamp ttl))
    unfolding on_claim
    on_claim-Step st = elim (Bool-cases (reserved_for_other s.assigned_to u.agent_id)) [
      | inl other ↦ inl (ground arith)
      | inr free ↦ elim (Bool-cases (claim_expired_by parse s u.timestamp ttl)) [
        | inl expired ↦
            inr (claim st (inr (claim_expired_by-Expired s u expired)) free (ground arith))
        | inr active ↦ elim (Bool-cases (is_open s.status)) [
          | inl is ↦ inr (claim st (inl (ground arith)) free (ground arith))
          | inr taken ↦ inl (ground arith)
        ]
      ]
    ]

    on_complete-Step :
        u.status ≡ complete
        → (on_complete parse s u (claim_expired_by parse s u.timestamp ttl) ≡ s)
          ⊎ Step s u (on_complete parse s u (claim_expired_by parse s u.timestamp ttl))
    unfolding on_complete
    on_complete-Step st = elim (Bool-cases (is_open s.status)) [
      | inl is ↦ inr (finish st (inl (ground arith)) (ground arith))
      | inr taken ↦ elim (Bool-cases (claim_expired_by parse s u.timestamp ttl)) [
        | inl expired ↦
            inr (finish_expired st (claim_expired_by-Expired s u expired) (ground arith))
        | inr active ↦ elim (Bool-cases (is_claimed s.status && is_text s.claimed_by u.agent_id)) [
          | inl own ↦ inr (finish st (inr (owned (ground arith))) (ground arith))
          | inr foreign ↦ inl (ground arith)
        ]
      ]
    ]

    on_release-Step :
        u.status ≡ open_
        → (on_release parse s u (claim_expired_by parse s u.timestamp ttl) ≡ s)
          ⊎ Step s u (on_release parse s u (claim_expired_by parse s u.timestamp ttl))
    unfolding on_release
    on_release-Step st =
        elim (Bool-cases (
          is_claimed s.status
          && (not (claim_expired_by parse s u.timestamp ttl) && is_text s.claimed_by u.agent_id))) [
            | inl own ↦
                let (taken, active, by) = owned own in
                inr (release st taken active by (ground arith))
            | inr foreign ↦ inl (ground arith)
          ]

    by_status :
        (t : TaskStatus)
        → u.status ≡ t
        → apply_task_update parse s u ttl ≡ handler t s u (claim_expired_by parse s u.timestamp ttl)
    unfolding apply_task_update
    by_status claimed st = ground arith
    by_status _ st = ground arith

    pub update-Step :
        (apply_task_update parse s u ttl ≡ s) ⊎ Step s u (apply_task_update parse s u ttl)
    update-Step = elim (status_cases u.status) [
      | inl st ↦ rw (by_status claimed st) (on_claim-Step st)
      | inr (inl st) ↦ rw (by_status complete st) (on_complete-Step st)
      | inr (inr st) ↦ rw (by_status open_ st) (on_release-Step st)
    ]

    Step-update : (s' : TaskState) → Step s u s' → apply_task_update parse s u ttl ≡ s'
    unfolding apply_task_update on_claim on_complete on_release
    Step-update s' (claim st from free e) = elim from [
      | inl is ↦ ground arith
      | inr x ↦ ground (arith, Expired-claim_expired_by x)
    ]
    Step-update s' (finish st from e) = elim from [
      | inl is ↦ ground arith
      | inr (taken, active, by) ↦ elim (Bool-cases (claim_expired_by parse s u.timestamp ttl)) [
        | inl expired ↦ absurd (active (claim_expired_by-Expired s u expired))
        | inr fresh ↦ ground (arith, text_eq_iff u.agent_id u.agent_id)
      ]
    ]
    Step-update s' (finish_expired st x e) = ground (arith, Expired-claim_expired_by x, x.status)
    Step-update s' (release st taken active by e) =
        elim (Bool-cases (claim_expired_by parse s u.timestamp ttl)) [
          | inl expired ↦ absurd (active (claim_expired_by-Expired s u expired))
          | inr fresh ↦ ground (arith, text_eq_iff u.agent_id u.agent_id)
        ]

    -- A move changes the state.
    Step-ne : (s' : TaskState) → Step s u s' → s' ≢ s
    Step-ne s' (claim st from free e) same = elim from [
      | inl is ↦ ground arith
      | inr x ↦ ground (arith, x.claimed_at, x.parsed_claim, x.parsed_update, x.past)
    ]
    Step-ne s' (finish st from e) same = ground arith
    Step-ne s' (finish_expired st x e) same = ground (arith, x.status)
    Step-ne s' (release st taken active by e) same = ground arith

    -- One update of the reducer is exactly one move of the lifecycle, or none where no move is
    -- allowed: it gives `s'` if and only if there is a move to `s'`, or there is no move at all
    -- and `s'` is the state before.
    pub update_follows_lifecycle :
        (s' : TaskState)
        → (apply_task_update parse s u ttl ≡ s')
          ↔ (Step s u s' ⊎ ((s' ≡ s) × ((t : TaskState) → ¬ Step s u t)))
    update_follows_lifecycle s' = (
      λ e. elim update-Step [
        | inl same ↦ inr (sym e ∙ same, λ t st. Step-ne t st (sym (Step-update t st) ∙ same))
        | inr st ↦ inl (subst (λ t. Step s u t) e st)
      ],
      elim [
        | inl st ↦ Step-update s' st
        | inr (same, stuck) ↦ elim update-Step [
          | inl e ↦ e ∙ sym same
          | inr st ↦ absurd (stuck _ st)
        ]
      ],
    )
