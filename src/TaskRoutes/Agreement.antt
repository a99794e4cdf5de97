-- ===== src/TaskRoutes/Agreement.antt =====
-- The guards of the task routes and the reducer, on the entries that the guards let through.
use openpact.Prelude.{ℕ, ◌≤◌, Text, Option, none, some, false, ◌≡◌, arith}
use openpact.Tasks.{
  open_, claimed, complete, TaskState, claim_expired_by, on_claim, on_complete, on_release,
  apply_task_update, check_clock, expire,
}
use openpact.TaskRoutes.{
  Append, check_claim, check_complete, check_release, claim_entry, complete_entry, release_entry,
}

module _ (parse : Text → Option ℕ) (to_iso : ℕ → Text) where
  -- If a claim passes the guard at the time `now`, and its entry is written no earlier and is the
  -- next that the reducer meets after the state that the guard saw, then it takes effect: the peer
  -- holds the task from the entry's timestamp.
  pub guarded_claim :
      (s : TaskState) (a : Append) (now ttl t : ℕ)
      → check_claim (some (check_clock parse to_iso s now ttl)) a.peer ≡ none
      → parse a.timestamp ≡ some t
      → now ≤ t
      → apply_task_update parse s (claim_entry a (check_clock parse to_iso s now ttl)) ttl
        ≡ record s { status = claimed; claimed_by = some a.peer; claimed_at = some a.timestamp }
  unfolding check_claim check_clock expire apply_task_update claim_entry claim_expired_by on_claim
  guarded_claim s a now ttl t pass parsed later = ground arith

  -- A completion that passes the guard completes the task with its result, if its entry is
  -- reduced next and written no earlier than the guard's clock.
  guarded_complete :
      (s : TaskState) (a : Append) (result : Option Text) (now ttl t : ℕ)
      → check_complete (some (check_clock parse to_iso s now ttl)) a.peer ≡ none
      → parse a.timestamp ≡ some t
      → now ≤ t
      → ((apply_task_update parse s
            (complete_entry a (check_clock parse to_iso s now ttl) result)
            ttl).status
          ≡ complete)
        × ((apply_task_update parse s
              (complete_entry a (check_clock parse to_iso s now ttl) result)
              ttl).result
            ≡ result)
  unfolding check_complete check_clock expire apply_task_update complete_entry claim_expired_by
      on_complete
  guarded_complete s a result now ttl t pass parsed later = (ground arith, ground arith)

  -- A release that passes the guard opens the task again, if its entry is reduced next and the
  -- claim is not past its TTL at the entry's timestamp.
  guarded_release :
      (s : TaskState) (a : Append) (now ttl : ℕ)
      → check_release (some (check_clock parse to_iso s now ttl)) a.peer ≡ none
      → claim_expired_by parse s a.timestamp ttl ≡ false
      → apply_task_update parse s (release_entry a (check_clock parse to_iso s now ttl)) ttl
        ≡ record s { status = open_; claimed_by = none; claimed_at = none }
  unfolding check_release check_clock expire apply_task_update release_entry claim_expired_by
      on_release
  guarded_release s a now ttl pass active = ground arith
