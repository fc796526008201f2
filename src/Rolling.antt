-- ===== src/Rolling.antt =====
-- server/controllers/rolling_controller.py with daos/rolling_dao.py: the weekly tribute of a sub, which
-- its goddess sets and clears.
pub mod RoundTrip
use debt_collector.Common.{ℕ, Bool, true, Option, none, some, String}
use debt_collector.Common.Table.{find_row, put_row}
use debt_collector.Calendar.{London}
use debt_collector.Model.{
  User, RollingTribute, DeadlineDay, Db, Action, Done, AppError, or_raise, gets, modify, pure,
  fresh_id, now_utc, ◌>>=◌, ◌>>◌,
}
use debt_collector.Session.{resolve_goddess_id}
use debt_collector.Debt.Propose.{assert_sub_belongs_to_goddess}
use debt_collector.Periods.{current_cycle_deadline, days_late, amount_due}

-- `amount` is in pence.
pub record RollingTributeIn : Type 0 where
  pub amount : ℕ
  pub deadline_day : DeadlineDay
  pub deadline_time : ℕ
  pub late_multiplier_per_day : ℕ
  pub paused : Bool
  pub notes : Option String

pub record RollingTributeOut : Type 0 where
  pub rolling : RollingTribute
  pub current_cycle_deadline : ℕ
  pub amount_due : ℕ
  pub days_late : ℕ

-- A row with the terms of a payload.
abbrev pub with_terms : RollingTributeIn → ℕ → RollingTribute → RollingTribute
with_terms payload now existing = record existing {
  amount = payload.amount;
  deadline_day = payload.deadline_day;
  deadline_time = payload.deadline_time;
  late_multiplier_per_day = payload.late_multiplier_per_day;
  paused = payload.paused;
  notes = payload.notes;
  updated_at = now;
}

abbrev pub new_tribute : ℕ → ℕ → ℕ → RollingTributeIn → ℕ → RollingTribute
new_tribute id sub_id goddess_id payload now = record {
  id = id;
  sub_id = sub_id;
  goddess_id = goddess_id;
  amount = payload.amount;
  deadline_day = payload.deadline_day;
  deadline_time = payload.deadline_time;
  late_multiplier_per_day = payload.late_multiplier_per_day;
  paused = payload.paused;
  notes = payload.notes;
  last_paid_at = none;
  created_at = now;
  updated_at = now;
}

unfoldable pub save_tribute : ℕ → RollingTribute → Action RollingTribute
save_tribute sub_id rolling = do
  modify (λ db. record db { rollings = put_row sub_id rolling db.rollings })
  pure rolling

abbrev pub upsert_row : Option RollingTribute → ℕ → ℕ → RollingTributeIn → ℕ → Action RollingTribute
upsert_row (some existing) sub_id goddess_id payload now =
    save_tribute sub_id (with_terms payload now existing)
upsert_row none sub_id goddess_id payload now = do
  id ← fresh_id
  save_tribute sub_id (new_tribute id sub_id goddess_id payload now)

-- `RollingTributeDao.upsert`
unfoldable pub upsert : ℕ → ℕ → RollingTributeIn → Action RollingTribute
upsert sub_id goddess_id payload = do
  existing ← gets (λ db. find_row sub_id db.rollings)
  now ← now_utc
  upsert_row existing sub_id goddess_id payload now

-- The payload with which `clear_for_sub` saves.
abbrev pub clear_payload : RollingTribute → RollingTributeIn
clear_payload rolling = record {
  amount = 0;
  deadline_day = rolling.deadline_day;
  deadline_time = rolling.deadline_time;
  late_multiplier_per_day = rolling.late_multiplier_per_day;
  paused = true;
  notes = rolling.notes;
}

-- What the three operations begin with. `_assert_sub_belongs_to_goddess` is written as the one of the
-- contracts.
unfoldable pub require_linked : User → ℕ → Action ℕ
require_linked goddess_user sub_id = do
  goddess_id ← resolve_goddess_id goddess_user.id
  assert_sub_belongs_to_goddess goddess_id sub_id
  pure goddess_id

unfoldable pub clear_for_sub : User → ℕ → Action Done
clear_for_sub goddess_user sub_id = do
  goddess_id ← require_linked goddess_user sub_id
  found ← gets (λ db. find_row sub_id db.rollings)
  rolling ← or_raise found AppError.not_found
  upsert sub_id goddess_id (clear_payload rolling)
  pure tt

module _ (london : London) where
  abbrev pub tribute_out : RollingTribute → ℕ → RollingTributeOut
  tribute_out rolling now = record {
    rolling = rolling;
    current_cycle_deadline = current_cycle_deadline london rolling now;
    amount_due = amount_due london rolling now;
    days_late = days_late london rolling now;
  }

  abbrev pub out_of : Option RollingTribute → ℕ → Option RollingTributeOut
  out_of none now = none
  out_of (some rolling) now = some (tribute_out rolling now)

  unfoldable pub get_for_sub_by_goddess : User → ℕ → Action (Option RollingTributeOut)
  get_for_sub_by_goddess goddess_user sub_id = do
    require_linked goddess_user sub_id
    found ← gets (λ db. find_row sub_id db.rollings)
    now ← now_utc
    pure (out_of found now)

  unfoldable pub upsert_for_sub : User → ℕ → RollingTributeIn → Action RollingTributeOut
  upsert_for_sub goddess_user sub_id payload = do
    goddess_id ← require_linked goddess_user sub_id
    rolling ← upsert sub_id goddess_id payload
    now ← now_utc
    pure (tribute_out rolling now)
