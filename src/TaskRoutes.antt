-- ===== src/TaskRoutes.antt =====
-- packages/daemon/src/api/routes/tasks.ts: claiming, completing and releasing a task over HTTP.
-- What the handlers read of the view is an argument, and so is the id of the entry they append.
pub mod Agreement
pub mod Replies
use openpact.Prelude.{
  ℕ, Text, codes, text_eq, Option, none, some, List, [], ◌∷◌, Bool, true, false, not, if◌then◌else◌,
}
use openpact.Tasks.{
  open_, claimed, complete, TaskEntry, TaskState, is_open, is_claimed, is_text, reserved_for_other,
  reduce_task_history,
}

pub data TaskRouteError : Type 0 where
  not_found task_not_open not_assignee task_already_claimed : TaskRouteError
  task_already_complete not_claimer not_claimed view_timeout : TaskRouteError

-- The HTTP status that the `HttpError` carries.
abbrev pub status_of : TaskRouteError → ℕ
status_of not_found = 404
status_of task_not_open = 409
status_of not_assignee = 409
status_of task_already_claimed = 409
status_of task_already_complete = 409
status_of not_claimer = 409
status_of not_claimed = 409
status_of view_timeout = 504

pub data RouteResult : Type 0 where
  replied : TaskState → RouteResult
  failed : TaskRouteError → RouteResult

-- The guards of the three handlers, on the state before; `none` lets the entry be appended.
unfoldable pub check_claim : Option TaskState → Text → Option TaskRouteError
check_claim none peer = some not_found
check_claim (some before) peer =
    if not (is_open before.status)
    then some task_not_open
    else if reserved_for_other before.assigned_to peer
    then some not_assignee
    else none

unfoldable pub check_complete : Option TaskState → Text → Option TaskRouteError
check_complete none peer = some not_found
check_complete (some before) peer = elim before.status [
  | complete ↦ some task_already_complete
  | claimed ↦ if is_text before.claimed_by peer then none else some not_claimer
  | open_ ↦ none
]

unfoldable pub check_release : Option TaskState → Text → Option TaskRouteError
check_release none peer = some not_found
check_release (some before) peer =
    if not (is_claimed before.status)
    then some not_claimed
    else if is_text before.claimed_by peer
    then none
    else some not_claimer

-- The peer that appends, and the time and the id of the entry.
pub record Append : Type 0 where
  pub peer : Text
  pub display_name : Option Text
  pub timestamp : Text
  pub id : Text
  pub task_id : Text

unfoldable pub claim_entry : Append → TaskState → TaskEntry
claim_entry a before = record {
  id = a.id;
  timestamp = a.timestamp;
  agent_id = a.peer;
  display_name = a.display_name;
  refs = a.task_id ∷ [];
  title = before.title;
  description = none;
  status = claimed;
  claimed_by = some a.peer;
  result = none;
  assigned_to = none;
}

unfoldable pub complete_entry : Append → TaskState → Option Text → TaskEntry
complete_entry a before result = record {
  id = a.id;
  timestamp = a.timestamp;
  agent_id = a.peer;
  display_name = a.display_name;
  refs = a.task_id ∷ [];
  title = before.title;
  description = none;
  status = complete;
  claimed_by = before.claimed_by;
  result = result;
  assigned_to = none;
}

unfoldable pub release_entry : Append → TaskState → TaskEntry
release_entry a before = record {
  id = a.id;
  timestamp = a.timestamp;
  agent_id = a.peer;
  display_name = a.display_name;
  refs = a.task_id ∷ [];
  title = before.title;
  description = none;
  status = open_;
  claimed_by = none;
  result = none;
  assigned_to = none;
}

unfoldable pub has_entry : Text → List TaskEntry → Bool
has_entry id [] = false
has_entry id (e ∷ es) = if text_eq e.id id then true else has_entry id es

module _ (parse : Text → Option ℕ) (to_iso : ℕ → Text) (locale_le : Text → Text → Bool)
    (ttl_ms : Option ℕ) where
  -- `waitForView`: each poll before the deadline sees the task's entries, at its time.
  unfoldable pub wait_for_view : List (ℕ × List TaskEntry) → Text → Option TaskState
  wait_for_view [] id = none
  wait_for_view ((now, entries) ∷ polls) id =
      let rest = wait_for_view polls id in
      if has_entry id entries
      then (elim (reduce_task_history parse to_iso locale_le entries ttl_ms now) [
        | none ↦ rest
        | some state ↦ some state
      ])
      else rest

  -- The reply of the claim handler: it lost the race unless the state shows its claim.
  unfoldable pub reply_claim : Option TaskState → Text → RouteResult
  reply_claim none peer = failed view_timeout
  reply_claim (some after) peer =
      if is_claimed after.status
      then (if is_text after.claimed_by peer then replied after else failed task_already_claimed)
      else failed task_already_claimed

  unfoldable pub reply_state : Option TaskState → RouteResult
  reply_state none = failed view_timeout
  reply_state (some after) = replied after

  -- The handlers: the guard, the append and the wait for it.
  unfoldable pub claim_route : Option TaskState → Append → List (ℕ × List TaskEntry) → RouteResult
  claim_route before a polls = elim (check_claim before a.peer) [
    | some error ↦ failed error
    | none ↦ reply_claim (wait_for_view polls a.id) a.peer
  ]

  unfoldable pub complete_route :
      Option TaskState → Append → List (ℕ × List TaskEntry) → RouteResult
  complete_route before a polls = elim (check_complete before a.peer) [
    | some error ↦ failed error
    | none ↦ reply_state (wait_for_view polls a.id)
  ]

  unfoldable pub release_route : Option TaskState → Append → List (ℕ × List TaskEntry) → RouteResult
  release_route before a polls = elim (check_release before a.peer) [
    | some error ↦ failed error
    | none ↦ reply_state (wait_for_view polls a.id)
  ]
