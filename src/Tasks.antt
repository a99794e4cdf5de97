-- ===== src/Tasks.antt =====
-- packages/daemon/src/api/tasks-state.ts: the reducer from the entries of a task to its state.
-- Times are milliseconds counted from the earliest date that `Date` holds, so that they are
-- natural numbers; the code only compares them and their differences. `Date.parse` (`none` is
-- NaN), `toISOString` and the test `a.localeCompare(b) <= 0` are parameters.
pub mod Lifecycle
pub mod Order
pub mod Claims
pub mod Misordered
use openpact.Prelude.{
  ℕ, ◌+◌, ◌*◌, Text, truthy, text_eq, text_le, Option, none, some, List, [], ◌∷◌, Bool, true, false,
  not, ◌&&◌, ◌||◌, ltb, if◌then◌else◌, is_some,
}

pub data TaskStatus : Type 0 where
  open_ claimed complete : TaskStatus

pub record TaskEntry : Type 0 where
  pub id : Text
  pub timestamp : Text
  pub agent_id : Text
  pub display_name : Option Text
  pub refs : List Text
  pub title : Text
  pub description : Option Text
  pub status : TaskStatus
  pub claimed_by : Option Text
  pub result : Option Text
  pub assigned_to : Option Text

pub record TaskState : Type 0 where
  pub id : Text
  pub title : Text
  pub description : Option Text
  pub status : TaskStatus
  pub claimed_by : Option Text
  pub assigned_to : Option Text
  pub result : Option Text
  pub timestamp : Text
  pub updated_at : Text
  pub claimed_at : Option Text
  pub expired_at : Option Text
  pub history : List TaskEntry

abbrev pub default_ttl_ms : ℕ
default_ttl_ms = 24 * 60 * 60 * 1000

abbrev pub is_claimed : TaskStatus → Bool
is_claimed open_ = false
is_claimed claimed = true
is_claimed complete = false

abbrev pub is_open : TaskStatus → Bool
is_open open_ = true
is_open claimed = false
is_open complete = false

-- `value === text` where `value` may be null.
abbrev pub is_text : Option Text → Text → Bool
is_text none t = false
is_text (some s) t = text_eq s t

-- `value && value !== agent`, for the peer that a task is reserved for.
abbrev pub reserved_for_other : Option Text → Text → Bool
reserved_for_other none agent = false
reserved_for_other (some a) agent = truthy a && not (text_eq agent a)

-- `later - earlier > ttl`, false where one is NaN.
abbrev pub is_past : Option ℕ → Option ℕ → ℕ → Bool
is_past none earlier ttl = false
is_past (some now) none ttl = false
is_past (some now) (some at) ttl = ltb (at + ttl) now

module _ (parse : Text → Option ℕ) where
  -- Has the current claim expired as of an entry with this timestamp?
  unfoldable pub claim_expired_by : TaskState → Text → ℕ → Bool
  claim_expired_by s timestamp ttl = elim s.claimed_at [
    | none ↦ false
    | some at ↦ is_claimed s.status && is_past (parse timestamp) (parse at) ttl
  ]

  unfoldable pub on_claim : TaskState → TaskEntry → Bool → TaskState
  on_claim s update expired =
      if is_open s.status || expired
      then (if reserved_for_other s.assigned_to update.agent_id then s else record s {
        status = claimed;
        claimed_by = some update.agent_id;
        claimed_at = some update.timestamp;
      })
      else s

  unfoldable pub on_complete : TaskState → TaskEntry → Bool → TaskState
  on_complete s update expired =
      if is_open s.status
      then record s { status = complete; result = update.result }
      else if expired
      then record s { status = complete; claimed_by = none; result = update.result }
      else if is_claimed s.status && is_text s.claimed_by update.agent_id
      then record s { status = complete; result = update.result }
      else s

  unfoldable pub on_release : TaskState → TaskEntry → Bool → TaskState
  on_release s update expired =
      if is_claimed s.status && (not expired && is_text s.claimed_by update.agent_id)
      then record s { status = open_; claimed_by = none; claimed_at = none }
      else s

  unfoldable pub apply_task_update : TaskState → TaskEntry → ℕ → TaskState
  apply_task_update s update ttl =
      let expired = claim_expired_by s update.timestamp ttl in
      elim update.status [
        | claimed ↦ on_claim s update expired
        | complete ↦ on_complete s update expired
        | open_ ↦ on_release s update expired
      ]

  -- The loop over the ordered entries, which skips the original.
  unfoldable pub apply_updates : Text → ℕ → TaskState → List TaskEntry → TaskState
  apply_updates original ttl s [] = s
  apply_updates original ttl s (update ∷ rest) =
      apply_updates original ttl
        (if text_eq update.id original then s else apply_task_update s update ttl) rest

module _ (locale_le : Text → Text → Bool) where
  unfoldable pub insert : TaskEntry → List TaskEntry → List TaskEntry
  insert e [] = e ∷ []
  insert e (f ∷ fs) = if locale_le e.id f.id then e ∷ f ∷ fs else f ∷ insert e fs

  -- `[...entries].sort((a, b) => a.id.localeCompare(b.id))`, a stable sort.
  unfoldable pub sort : List TaskEntry → List TaskEntry
  sort [] = []
  sort (e ∷ es) = insert e (sort es)

-- The entry with no refs.
unfoldable pub find_original : List TaskEntry → Option TaskEntry
find_original [] = none
find_original (e ∷ es) = elim e.refs [ [] ↦ some e | r ∷ rs ↦ find_original es ]

unfoldable pub latest : Text → List TaskEntry → Text
latest max [] = max
latest max (e ∷ es) = latest (if text_le e.timestamp max then max else e.timestamp) es

abbrev pub initial_state : TaskEntry → List TaskEntry → TaskState
initial_state original ordered = record {
  id = original.id;
  title = original.title;
  description = original.description;
  status = original.status;
  claimed_by = original.claimed_by;
  assigned_to = original.assigned_to;
  result = original.result;
  timestamp = original.timestamp;
  updated_at = latest original.timestamp ordered;
  claimed_at = none;
  expired_at = none;
  history = ordered;
}

module _ (parse : Text → Option ℕ) (to_iso : ℕ → Text) where
  -- The wall-clock check after the reduction: a claim past its TTL is reported as open.
  unfoldable pub expire : TaskState → Option ℕ → ℕ → ℕ → TaskState
  expire s none now ttl = s
  expire s (some claimed_at_ms) now ttl =
      if ltb (claimed_at_ms + ttl) now
      then record s {
        status = open_;
        claimed_by = none;
        expired_at = some (to_iso (claimed_at_ms + ttl));
      }
      else s

  unfoldable pub check_clock : TaskState → ℕ → ℕ → TaskState
  check_clock s now ttl = elim s.claimed_at [
    | none ↦ s
    | some at ↦ if is_claimed s.status && truthy at then expire s (parse at) now ttl else s
  ]

  unfoldable pub reduce_ordered : List TaskEntry → Option TaskEntry → ℕ → ℕ → Option TaskState
  reduce_ordered ordered none ttl now = none
  reduce_ordered ordered (some original) ttl now = some (
      check_clock (apply_updates parse original.id ttl (initial_state original ordered) ordered) now
        ttl)

  -- `ttlMs` is optional, and `now` is what `clockMs()` gives.
  unfoldable pub reduce_task_history :
      (Text → Text → Bool) → List TaskEntry → Option ℕ → ℕ → Option TaskState
  reduce_task_history locale_le [] ttl_ms now = none
  reduce_task_history locale_le (e ∷ es) ttl_ms now =
      let ordered = sort locale_le (e ∷ es) in
      let ttl : ℕ = elim ttl_ms [ none ↦ default_ttl_ms | some t ↦ t ] in
      reduce_ordered ordered (find_original ordered) ttl now
