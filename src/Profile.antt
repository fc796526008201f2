-- ===== src/Profile.antt =====
-- server/services/profile/status_machine.py, the change of status of controllers/profile_controller.py,
-- and the panic protocol of services/panic/orchestrator.py and controllers/panic_controller.py. Whether
-- the password is right is a parameter.
pub mod Audit
pub mod Change
use debt_collector.Common.{
  ℕ, ◌+◌, Bool, true, false, ◌&&◌, ◌||◌, not, Option, none, some, List, [], ◌∷◌, ◌++◌, String, ◌==◌,
  ◌==?◌, ◌is◌, if◌then◌else◌, suc, is_none,
}
use debt_collector.Common.Table.{Table, find_row, put_row}
use debt_collector.Common.Lists.{any_of, select, length}
use debt_collector.Model.{
  User, UserRole, role_enum, OwnershipStatus, ownership_enum, SubProfile, StatusEvent, Ritual, Task,
  TaskStatus, task_status_enum, NotificationType, Db, Action, Done, AppError, or_raise, raise_if,
  gets, modify, pure, when, now_utc, ◌>>=◌, ◌>>◌,
}
use debt_collector.Session.{resolve_goddess_id, resolve_goddess_user_id, notify_known}

-- `ALLOWED_TRANSITIONS`
abbrev pub allowed_transitions : OwnershipStatus → List OwnershipStatus
allowed_transitions OwnershipStatus.free = OwnershipStatus.owned ∷ OwnershipStatus.released ∷ []
allowed_transitions OwnershipStatus.owned =
    OwnershipStatus.in_training ∷ OwnershipStatus.blackmailed ∷ OwnershipStatus.released ∷ []
allowed_transitions OwnershipStatus.in_training =
    OwnershipStatus.collared ∷ OwnershipStatus.blackmailed ∷ OwnershipStatus.released ∷ []
allowed_transitions OwnershipStatus.collared =
    OwnershipStatus.blackmailed ∷ OwnershipStatus.released ∷ []
allowed_transitions OwnershipStatus.blackmailed = OwnershipStatus.released ∷ []
allowed_transitions OwnershipStatus.released = OwnershipStatus.free ∷ []

abbrev pub can_transition : OwnershipStatus → OwnershipStatus → Bool
can_transition from_status to_status =
    not (from_status is to_status) && any_of (λ s. s is to_status) (allowed_transitions from_status)

-- `_resolve_goddess_owns_sub`
abbrev pub sub_of_goddess : ℕ → Option User → Option Bool
sub_of_goddess goddess_id none = none
sub_of_goddess goddess_id (some u) =
    if u.role is UserRole.sub then some (u.goddess_id ==? goddess_id) else none

unfoldable pub resolve_goddess_owns_sub : User → ℕ → Action ℕ
resolve_goddess_owns_sub goddess_user sub_id = do
  goddess_id ← resolve_goddess_id goddess_user.id
  found ← gets (λ db. sub_of_goddess goddess_id (find_row sub_id db.users))
  hers ← or_raise found AppError.not_found
  raise_if (not hers) AppError.forbidden
  pure goddess_id

-- The profile's write and the row of the audit, which `change_ownership_status` and `soft_release` make.
abbrev pub with_status : ℕ → ℕ → OwnershipStatus → OwnershipStatus → Option String → ℕ → ℕ → Db → Db
with_status sub_id goddess_id from_status to_status reason created_by now db = record db {
  profiles = put_row sub_id (record { ownership_status = to_status; updated_at = now }) db.profiles;
  status_events =
      db.status_events
      ++ record {
        sub_id = sub_id;
        goddess_id = goddess_id;
        from_status = from_status;
        to_status = to_status;
        reason = reason;
        created_by = created_by;
      }
        ∷ [];
}

unfoldable pub change_ownership_status : User → ℕ → OwnershipStatus → Option String → Action Done
change_ownership_status goddess_user sub_id to_status reason = do
  goddess_id ← resolve_goddess_owns_sub goddess_user sub_id
  profile ← or_raise (← gets (λ db. find_row sub_id db.profiles)) AppError.not_found
  raise_if (not (can_transition profile.ownership_status to_status)) AppError.illegal_transition
  now ← now_utc
  modify
      (with_status sub_id goddess_id profile.ownership_status to_status reason goddess_user.id now)

-- `pause_all_rituals_for_sub`: the rows, and how many were written.
abbrev pub is_running : ℕ → Ritual → Bool
is_running sub_id r = r.sub_id == sub_id && not r.paused

abbrev pub pause_rituals : ℕ → ℕ → Table Ritual → Table Ritual
pause_rituals sub_id now [] = []
pause_rituals sub_id now ((k, r) ∷ t) =
    (k, if is_running sub_id r then record r { paused = true; updated_at = now } else r)
    ∷ pause_rituals sub_id now t

-- `cancel_pending_tasks_for_sub`
abbrev pub is_outstanding : ℕ → Task → Bool
is_outstanding sub_id t =
    t.sub_id == sub_id && ((t.status is TaskStatus.open_task) || (t.status is TaskStatus.submitted))

abbrev pub cancel_tasks : ℕ → ℕ → Table Task → Table Task
cancel_tasks sub_id now [] = []
cancel_tasks sub_id now ((k, t) ∷ l) =
    (
      k,
      if is_outstanding sub_id t
          then record t { status = TaskStatus.cancelled; updated_at = now }
          else t,
    )
    ∷ cancel_tasks sub_id now l

-- `soft_release`
unfoldable pub release_profile : ℕ → ℕ → Option SubProfile → Action Bool
release_profile sub_id goddess_id none = pure false
release_profile sub_id goddess_id (some profile) =
    if profile.ownership_status is OwnershipStatus.released then pure false else do
      now ← now_utc
      modify (
          with_status sub_id goddess_id profile.ownership_status OwnershipStatus.released
            (some "sub_panic") sub_id now)
      pure true

unfoldable pub soft_release : ℕ → ℕ → Action Bool
soft_release sub_id goddess_id = do
  profile ← gets (λ db. find_row sub_id db.profiles)
  release_profile sub_id goddess_id profile

-- The steps for a sub who has a goddess.
unfoldable pub release_from : ℕ → Option ℕ → Action Bool
release_from sub_id none = pure false
release_from sub_id (some goddess_id) = do
  released ← soft_release sub_id goddess_id
  goddess_user_id ← resolve_goddess_user_id goddess_id
  notify_known goddess_user_id NotificationType.sub_panic sub_id
  pure released

-- `PanicController.trigger`
unfoldable pub trigger : User → Bool → Action Bool
trigger sub password_ok = do
  raise_if (not password_ok) AppError.unauthorized
  now ← now_utc
  modify (λ db. record db { rituals = pause_rituals sub.id now db.rituals })
  modify (λ db. record db { tasks = cancel_tasks sub.id now db.tasks })
  release_from sub.id sub.goddess_id
