-- ===== src/Task.antt =====
-- server/controllers/task_controller.py and daos/task_dao.py: the tasks that a goddess sets her subs.
pub mod Lifecycle
use debt_collector.Common.{
  ℕ, ◌+◌, Bool, true, false, not, Option, none, some, List, [], ◌∷◌, ◌++◌, String, ◌==◌, ◌==?◌,
  ◌is◌, if◌then◌else◌,
}
use debt_collector.Common.Int.{ℤ}
use debt_collector.Common.Table.{Table, find_row, put_row}
use debt_collector.Model.{
  User, UserRole, role_enum, Task, TaskStatus, task_status_enum, PenaltyTrigger, PenaltySource, Db,
  Action, Done, AppError, or_raise, raise_if, gets, modify, pure, fresh_id, now_utc, ◌>>=◌, ◌>>◌,
}
use debt_collector.Session.{resolve_goddess_id}
use debt_collector.Merit.{record_task_complete}
use debt_collector.Merit.Engine.{Offence, apply_penalty}
use debt_collector.Payment.Declare.{patched}

unfoldable pub save_task : Task → Action Done
save_task task = modify (λ db. record db { tasks = put_row task.id task db.tasks })

unfoldable pub get_task : ℕ → Action Task
get_task task_id = do
  found ← gets (λ db. find_row task_id db.tasks)
  or_raise found AppError.not_found

-- `_require_sub_under_goddess`: whether the sub is hers, where there is such a sub.
abbrev pub is_hers : ℕ → Option User → Option Bool
is_hers goddess_id none = none
is_hers goddess_id (some u) =
    if u.role is UserRole.sub then some (u.goddess_id ==? goddess_id) else none

unfoldable pub require_sub_under_goddess : ℕ → ℕ → Action Done
require_sub_under_goddess goddess_id sub_id = do
  found ← gets (λ db. is_hers goddess_id (find_row sub_id db.users))
  hers ← or_raise found AppError.not_found
  raise_if (not hers) AppError.forbidden

-- `resolve_goddess_id` and `_require_owned_task`, which her operations on a task begin with, and the
-- status that they ask for.
unfoldable pub require_owned_task : User → ℕ → TaskStatus → Action Task
require_owned_task goddess_user task_id status = do
  goddess_id ← resolve_goddess_id goddess_user.id
  task ← get_task task_id
  raise_if (not (task.goddess_id == goddess_id)) AppError.forbidden
  raise_if (not (task.status is status)) AppError.conflict
  pure task

pub record TaskCreateIn : Type 0 where
  pub title : String
  pub description : Option String
  pub due_at : Option ℕ
  pub points_on_complete : ℤ
  pub points_on_miss : ℤ

unfoldable pub create_task : User → ℕ → TaskCreateIn → Action Task
create_task goddess_user sub_id payload = do
  goddess_id ← resolve_goddess_id goddess_user.id
  require_sub_under_goddess goddess_id sub_id
  now ← now_utc
  task_id ← fresh_id
  let task : Task = record {
    id = task_id;
    sub_id = sub_id;
    goddess_id = goddess_id;
    title = payload.title;
    description = payload.description;
    due_at = payload.due_at;
    points_on_complete = payload.points_on_complete;
    points_on_miss = payload.points_on_miss;
    status = TaskStatus.open_task;
    evidence_r2_key = none;
    note = none;
    rejection_reason = none;
    submitted_at = none;
    reviewed_at = none;
    reviewed_by = none;
    created_at = now;
    updated_at = now;
  }
  save_task task
  pure task

-- The fields that the request sets.
pub record TaskUpdateIn : Type 0 where
  pub title : Option String
  pub description : Option (Option String)
  pub due_at : Option (Option ℕ)
  pub points_on_complete : Option ℤ
  pub points_on_miss : Option ℤ

abbrev pub is_empty_update : TaskUpdateIn → Bool
is_empty_update patch = elim patch.title [
  | some _ ↦ false
  | none ↦ elim patch.description [
    | some _ ↦ false
    | none ↦ elim patch.due_at [
      | some _ ↦ false
      | none ↦ elim patch.points_on_complete [
        | some _ ↦ false
        | none ↦ elim patch.points_on_miss [ some _ ↦ false | none ↦ true ]
      ]
    ]
  ]
]

abbrev pub updated : TaskUpdateIn → Task → ℕ → Task
updated patch task now = record task {
  title = patched patch.title task.title;
  description = patched patch.description task.description;
  due_at = patched patch.due_at task.due_at;
  points_on_complete = patched patch.points_on_complete task.points_on_complete;
  points_on_miss = patched patch.points_on_miss task.points_on_miss;
  updated_at = now;
}

-- A request that sets nothing is answered without a write.
unfoldable pub save_update : Bool → Task → Task → Action Task
save_update true task saved = pure task
save_update false task saved = do save_task saved; pure saved

unfoldable pub update_task : User → ℕ → TaskUpdateIn → Action Task
update_task goddess_user task_id patch = do
  task ← require_owned_task goddess_user task_id TaskStatus.open_task
  now ← now_utc
  save_update (is_empty_update patch) task (updated patch task now)

unfoldable pub cancel_task : User → ℕ → Action Task
cancel_task goddess_user task_id = do
  task ← require_owned_task goddess_user task_id TaskStatus.open_task
  now ← now_utc
  let saved = record task { status = TaskStatus.cancelled; updated_at = now }
  save_task saved
  pure saved

unfoldable pub approve_task : User → ℕ → Action Task
approve_task goddess_user task_id = do
  task ← require_owned_task goddess_user task_id TaskStatus.submitted
  now ← now_utc
  let saved = record task {
    status = TaskStatus.approved;
    reviewed_at = some now;
    reviewed_by = some goddess_user.id;
    updated_at = now;
  }
  save_task saved
  record_task_complete saved
  pure saved

abbrev pub missed : Task → Offence
missed task = record {
  goddess_id = task.goddess_id;
  sub_id = task.sub_id;
  trigger = PenaltyTrigger.task_missed;
  source_kind = PenaltySource.task_miss;
  source_id = some task.id;
  default_delta = task.points_on_miss;
  days_late = none;
}

unfoldable pub reject_task : User → ℕ → String → Action Task
reject_task goddess_user task_id reason = do
  task ← require_owned_task goddess_user task_id TaskStatus.submitted
  now ← now_utc
  let saved = record task {
    status = TaskStatus.rejected;
    rejection_reason = some reason;
    reviewed_at = some now;
    reviewed_by = some goddess_user.id;
    updated_at = now;
  }
  save_task saved
  apply_penalty (missed saved)
  pure saved

unfoldable pub submit_task : User → ℕ → Option String → Option String → Action Task
submit_task sub_user task_id note evidence = do
  task ← get_task task_id
  raise_if (not (task.sub_id == sub_user.id)) AppError.forbidden
  raise_if (not (task.status is TaskStatus.open_task)) AppError.conflict
  now ← now_utc
  let saved = record task {
    status = TaskStatus.submitted;
    note = note;
    evidence_r2_key = evidence;
    submitted_at = some now;
    updated_at = now;
  }
  save_task saved
  pure saved
