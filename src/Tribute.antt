-- ===== src/Tribute.antt =====
-- server/controllers/tribute_minimum_controller.py with daos/tribute_minimum_dao.py: what a sub is to pay
-- in a week or a month, and the gauge of it. Ratios are in ten-thousandths, as they are rounded to.
pub mod Gauge
use debt_collector.Common.{
  ℕ, zero, suc, ◌+◌, ◌-◌, ◌*◌, Bool, true, false, not, ◌&&◌, Option, none, some, ◌==◌, ◌is◌, ltb,
  leb, is_none, if◌then◌else◌,
}
use debt_collector.Common.Rounding.{round_half_even}
use debt_collector.Common.Table.{find_row, put_row, remove_row, rows}
use debt_collector.Common.Lists.{select, sum_by}
use debt_collector.Calendar.{Date, LocalTime, London, days_in_month, add_days, weekday}
use debt_collector.Model.{
  User, TributeMinimum, TributePeriod, PaymentDeclaration, PaymentStatus, payment_status_enum, Db,
  Action, Done, AppError, or_raise, raise_if, gets, modify, pure, now_utc, ◌>>=◌, ◌>>◌,
}
use debt_collector.Session.{resolve_goddess_id}
use debt_collector.Debt.Propose.{is_linked}

pub record TributeMinimumUpsertIn : Type 0 where
  pub amount : ℕ
  pub period : TributePeriod
  pub grace_below_percent : ℕ

pub data GaugeColor : Type 0 where
  green amber red : GaugeColor

pub record TributeGaugeOut : Type 0 where
  pub configured : Bool
  pub target_amount : Option ℕ
  pub period : Option TributePeriod
  pub actual_this_period : ℕ
  pub ratio : Option ℕ
  pub color : GaugeColor
  pub period_start : ℕ
  pub period_end : ℕ

-- `date - timedelta(days=n)`
unfoldable pub previous_day : Date → Date
previous_day d =
    if ltb 1 d.day
    then record d { day = d.day - 1 }
    else if d.month == 1
    then record { year = d.year - 1; month = 12; day = 31 }
    else record { year = d.year; month = d.month - 1; day = days_in_month d.year (d.month - 1) }

unfoldable pub sub_days : ℕ → Date → Date
sub_days zero d = d
sub_days (suc n) d = sub_days n (previous_day d)

-- `datetime.replace(hour=0, ...)`
abbrev pub at_midnight : Date → LocalTime
at_midnight d = record { date = d; time = 0 }

-- The first days of the period that is running and of the next one.
unfoldable pub period_days : TributePeriod → Date → Date × Date
period_days TributePeriod.weekly today =
    let monday = sub_days (weekday today) today in (monday, add_days 7 monday)
period_days TributePeriod.monthly today =
    let first : Date = record today { day = 1 } in
    if today.month == 12
    then (first, record { year = today.year + 1; month = 1; day = 1 })
    else (first, record { year = today.year; month = today.month + 1; day = 1 })

-- `None` where there is no positive target.
unfoldable pub ratio_of : Option ℕ → ℕ → Option ℕ
ratio_of none actual = none
ratio_of (some target) actual =
    if ltb 0 target then some (round_half_even (actual * 10000) target) else none

-- `_compute_color`
unfoldable pub compute_color : Option ℕ → ℕ → GaugeColor
compute_color none grace = GaugeColor.green
compute_color (some ratio) grace =
    if ltb ratio grace
    then GaugeColor.red
    else if ltb ratio 10000
    then GaugeColor.amber
    else GaugeColor.green

-- `_resolve_goddess_and_verify_sub`
unfoldable pub verify_sub : User → ℕ → Action ℕ
verify_sub goddess_user sub_id = do
  goddess_id ← resolve_goddess_id goddess_user.id
  linked ← gets (is_linked goddess_id sub_id)
  raise_if (not linked) AppError.forbidden
  pure goddess_id

-- The new row, and whether there was none.
abbrev pub upserted :
    Option TributeMinimum → ℕ → ℕ → TributeMinimumUpsertIn → ℕ → TributeMinimum × Bool
upserted none sub_id goddess_id payload now = (
  record {
    sub_id = sub_id;
    goddess_id = goddess_id;
    amount = payload.amount;
    period = payload.period;
    grace_below_percent = payload.grace_below_percent;
    created_at = now;
    updated_at = now;
  },
  true,
)
upserted (some existing) sub_id goddess_id payload now = (
  record existing {
    amount = payload.amount;
    period = payload.period;
    grace_below_percent = payload.grace_below_percent;
    updated_at = now;
  },
  false,
)

unfoldable pub upsert_minimum : User → ℕ → TributeMinimumUpsertIn → Action (TributeMinimum × Bool)
upsert_minimum goddess_user sub_id payload = do
  goddess_id ← verify_sub goddess_user sub_id
  now ← now_utc
  existing ← gets (λ db. find_row sub_id db.tribute_minimums)
  let out = upserted existing sub_id goddess_id payload now
  modify (λ db. record db { tribute_minimums = put_row sub_id out.0 db.tribute_minimums })
  pure out

unfoldable pub get_minimum : User → ℕ → Action TributeMinimum
get_minimum goddess_user sub_id = do
  verify_sub goddess_user sub_id
  found ← gets (λ db. find_row sub_id db.tribute_minimums)
  or_raise found AppError.not_found

unfoldable pub delete_minimum : User → ℕ → Action Done
delete_minimum goddess_user sub_id = do
  verify_sub goddess_user sub_id
  found ← gets (λ db. find_row sub_id db.tribute_minimums)
  or_raise found AppError.not_found
  modify (λ db. record db { tribute_minimums = remove_row sub_id db.tribute_minimums })

-- `sum_validated_for_period`
abbrev pub is_counted : ℕ → ℕ → ℕ → ℕ → PaymentDeclaration → Bool
is_counted sub_id goddess_id from until d =
    d.sub_id == sub_id
    && d.goddess_id == goddess_id
    && (d.status is PaymentStatus.validated)
    && leb from d.declared_at
    && ltb d.declared_at until

unfoldable pub sum_validated_for_period : ℕ → ℕ → ℕ → ℕ → Db → ℕ
sum_validated_for_period sub_id goddess_id from until db =
    sum_by (λ d. d.amount) (select (is_counted sub_id goddess_id from until) (rows db.declarations))

-- What the row configures: the target, the period and the grace.
abbrev pub target_of : Option TributeMinimum → Option ℕ
target_of none = none
target_of (some row) = some row.amount

abbrev pub configured_period : Option TributeMinimum → Option TributePeriod
configured_period none = none
configured_period (some row) = some row.period

abbrev pub period_of : Option TributeMinimum → TributePeriod
period_of none = TributePeriod.monthly
period_of (some row) = row.period

abbrev pub grace_of : Option TributeMinimum → ℕ
grace_of none = 8000
grace_of (some row) = row.grace_below_percent

module _ (london : London) where
  -- `_current_period_bounds`
  abbrev pub current_period_bounds : TributePeriod → ℕ → ℕ × ℕ
  current_period_bounds period now =
      let days = period_days period (london.local now).date in
      (london.to_utc (at_midnight days.0), london.to_utc (at_midnight days.1))

  unfoldable pub gauge : User → ℕ → Action TributeGaugeOut
  gauge goddess_user sub_id = do
    goddess_id ← verify_sub goddess_user sub_id
    row ← gets (λ db. find_row sub_id db.tribute_minimums)
    now ← now_utc
    let bounds = current_period_bounds (period_of row) now
    actual ← gets (sum_validated_for_period sub_id goddess_id bounds.0 bounds.1)
    pure (record {
      configured = not (is_none row);
      target_amount = target_of row;
      period = configured_period row;
      actual_this_period = actual;
      ratio = ratio_of (target_of row) actual;
      color = compute_color (ratio_of (target_of row) actual) (grace_of row);
      period_start = bounds.0;
      period_end = bounds.1;
    })
