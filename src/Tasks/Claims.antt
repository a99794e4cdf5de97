-- ===== src/Tasks/Claims.antt =====
-- Claims in the states that the reducer gives.
use openpact.Prelude.{
  ℕ, ◌+◌, ◌≤◌, ◌<◌, Text, truthy, text_eq, text_eq_iff, Option, none, some, List, [], ◌∷◌, true,
  false, ◌≡◌, ◌≢◌, inl, inr, refl, arith, All, Bool-cases,
}
use openpact.Tasks.{
  open_, claimed, complete, TaskEntry, TaskState, is_past, reserved_for_other, claim_expired_by,
  on_claim, on_complete, on_release, apply_task_update, apply_updates,
}

-- The claimer of a claimed task, and since when.
pub record IsHeld (s : TaskState) : Type 0 where
  pub agent : Text
  pub at : Text
  pub claimed_by : s.claimed_by ≡ some agent
  pub claimed_at : s.claimed_at ≡ some at
  pub allowed : reserved_for_other s.assigned_to agent ≡ false

pub record IsSound (s : TaskState) : Type 0 where
  pub unclaimed : s.status ≡ open_ → s.claimed_by ≡ none
  pub held : s.status ≡ claimed → IsHeld s

module _ (parse : Text → Option ℕ) where
  complete_stays :
      (ttl : ℕ) (s : TaskState) (u : TaskEntry)
      → s.status ≡ complete
      → apply_task_update parse s u ttl ≡ s
  unfolding apply_task_update claim_expired_by on_claim on_complete on_release
  complete_stays ttl s u h = ground arith

  updates-fixed :
      (original : Text) (ttl : ℕ) (s : TaskState) (u : TaskEntry) (us : List TaskEntry)
      → apply_task_update parse s u ttl ≡ s
      → apply_updates parse original ttl s us ≡ s
      → apply_updates parse original ttl s (u ∷ us) ≡ s
  unfolding apply_updates
  updates-fixed original ttl s u us one rest = elim (Bool-cases (text_eq u.id original)) [
    | inl own ↦ rw own rest
    | inr other ↦ rw (other, one) rest
  ]

  -- A completed task stays as it is, whatever entries follow.
  pub complete_is_final :
      (original : Text) (ttl : ℕ) (s : TaskState) (us : List TaskEntry)
      → s.status ≡ complete
      → apply_updates parse original ttl s us ≡ s
  complete_is_final original ttl s [] h = unfold apply_updates in refl
  complete_is_final original ttl s (u ∷ us) h =
      updates-fixed original ttl s u us (complete_stays ttl s u h)
        (complete_is_final original ttl s us h)

  -- The entry comes from another agent, within the TTL of a claim made at `at`.
  pub record Intrudes (agent at : Text) (ttl : ℕ) (u : TaskEntry) : Type 0 where
    pub foreign : u.agent_id ≢ agent
    pub in_time : is_past (parse u.timestamp) (parse at) ttl ≡ false

  claim_stays :
      (ttl : ℕ) (s : TaskState) (u : TaskEntry) (agent at : Text)
      → s.status ≡ claimed
      → s.claimed_by ≡ some agent
      → s.claimed_at ≡ some at
      → Intrudes agent at ttl u
      → apply_task_update parse s u ttl ≡ s
  unfolding apply_task_update claim_expired_by on_claim on_complete on_release
  claim_stays ttl s u agent at st by since i =
      ground (arith, i.in_time, text_eq_iff agent u.agent_id, i.foreign)

  -- While a claim is within its TTL, entries of other agents change nothing.
  pub active_claim_stands :
      (original : Text) (ttl : ℕ) (s : TaskState) (agent at : Text) (us : List TaskEntry)
      → s.status ≡ claimed
      → s.claimed_by ≡ some agent
      → s.claimed_at ≡ some at
      → All (Intrudes agent at ttl) us
      → apply_updates parse original ttl s us ≡ s
  active_claim_stands original ttl s agent at [] st by since h = unfold apply_updates in refl
  active_claim_stands original ttl s agent at (u ∷ us) st by since (i, h) =
      updates-fixed original ttl s u us (claim_stays ttl s u agent at st by since i)
        (active_claim_stands original ttl s agent at us st by since h)

module _ (parse : Text → Option ℕ) (to_iso : ℕ → Text) where
  -- The claim has a known time, and is still within the TTL.
  abbrev IsLive : TaskState → ℕ → ℕ → Type 0
  IsLive s now ttl =
      (at : Text) (claim_ms : ℕ)
      → s.claimed_at ≡ some at
      → truthy at ≡ true
      → parse at ≡ some claim_ms
      → now ≤ claim_ms + ttl

  -- What the wall-clock check reports of a claim past its TTL.
  pub record IsExpired (s s' : TaskState) (now ttl : ℕ) : Type 0 where
    pub at : Text
    pub claim_ms : ℕ
    pub claimed_at : s.claimed_at ≡ some at
    pub parsed : parse at ≡ some claim_ms
    pub past : claim_ms + ttl < now
    pub was : s.status ≡ claimed
    pub reported : s' ≡ record s {
      status = open_;
      claimed_by = none;
      expired_at = some (to_iso (claim_ms + ttl));
    }

  -- The task as the original entry opens it.
  pub record IsOpened (o : TaskEntry) : Type 0 where
    pub status : o.status ≡ open_
    pub claimed_by : o.claimed_by ≡ none
