-- ===== src/Tests/Profile.antt =====
-- A sub who is owned, with a ritual and an open task, whom the goddess collars or who panics.
use debt_collector.Common.{◌≡◌, false, true, some, none, [], ◌∷◌}
use debt_collector.Common.Int.{pos}
use debt_collector.Common.Table.{rows}
use debt_collector.Common.Lists.{any_of}
use debt_collector.Model.{
  Db, OwnershipStatus, Task, TaskStatus, Ritual, RitualFrequency, err, AppError,
}
use debt_collector.Model.Leaves.{Leaves}
use debt_collector.Profile.{change_ownership_status, trigger, is_running, is_outstanding}
use debt_collector.Profile.Audit.{AllAllowed, change_ownership_status-AllAllowed, panic-stops}
use debt_collector.Common.{refl}
use debt_collector.Common.Table.{find_row}
use debt_collector.Model.{ProfileChangeRequest, ProfileChangeRequestStatus}
use debt_collector.Profile.Change.Settled.{approves, change, change-Settled}
use debt_collector.Tests.{goddess_user, sub_user, start_db}

abbrev pub open_task : Task
open_task = record {
  id = 20;
  sub_id = 2;
  goddess_id = 3;
  title = "write lines";
  description = none;
  due_at = some 500;
  points_on_complete = pos 5;
  points_on_miss = pos 2;
  status = TaskStatus.open_task;
  evidence_r2_key = none;
  note = none;
  rejection_reason = none;
  submitted_at = none;
  reviewed_at = none;
  reviewed_by = none;
  created_at = 0;
  updated_at = 0;
}

abbrev pub a_ritual : Ritual
a_ritual = record {
  id = 21;
  sub_id = 2;
  goddess_id = 3;
  title = "greeting";
  description = none;
  frequency = RitualFrequency.daily;
  custom_days_bitmask = none;
  deadline_time = none;
  points_on_complete = pos 1;
  points_on_miss = pos 0;
  requires_proof = false;
  paused = false;
  created_at = 0;
  updated_at = 0;
}

abbrev owned_db : Db
owned_db = record start_db {
  profiles = (2, record { ownership_status = OwnershipStatus.owned; updated_at = 0 }) ∷ [];
  rituals = (21, a_ritual) ∷ [];
  tasks = (20, open_task) ∷ [];
}

change_ownership_status-AllAllowed_example :
    Leaves
      (λ _ d. AllAllowed d.status_events)
      (change_ownership_status goddess_user 2 OwnershipStatus.in_training none owned_db)
change_ownership_status-AllAllowed_example =
    change_ownership_status-AllAllowed goddess_user 2 OwnershipStatus.in_training none owned_db tt

panic-stops_example :
    Leaves
      (λ _ d.
        (any_of (is_running 2) (rows d.rituals) ≡ false)
        × (any_of (is_outstanding 2) (rows d.tasks) ≡ false)
        × AllAllowed d.status_events)
      (trigger sub_user true owned_db)
    × (trigger sub_user false owned_db ≡ err AppError.unauthorized)
panic-stops_example = panic-stops sub_user owned_db tt

abbrev rejected_change : ProfileChangeRequest
rejected_change = record {
  id = 40;
  sub_id = 2;
  requested_at = 0;
  status = ProfileChangeRequestStatus.rejected;
  proposed_first_name = some "Alice";
  proposed_last_name = none;
  proposed_display_name = none;
  proposed_notes = none;
  proposed_avatar_key = none;
  proposed_real_name = none;
  fee_amount = none;
  fee_payment_id = none;
  resolved_at = some 0;
  resolution_note = some "not now";
}

abbrev pending_change : ProfileChangeRequest
pending_change = record rejected_change { id = 41; status = ProfileChangeRequestStatus.pending }

abbrev changes_db : Db
changes_db = record start_db { change_requests = (40, rejected_change) ∷ (41, pending_change) ∷ [] }

change-Settled_example :
    Leaves
      (λ _ d. find_row 40 d.change_requests ≡ some rejected_change)
      (change (approves 41 goddess_user) changes_db)
change-Settled_example =
    change-Settled 40 rejected_change refl (approves 41 goddess_user) changes_db refl refl
