-- ===== src/Periods.antt =====
-- server/utils/periods.py and server/utils/rolling.py: which period of a contract is running, and how
-- late a rolling tribute is.
pub mod Progress
use debt_collector.Common.{
  ℕ, zero, suc, ◌+◌, ◌-◌, ◌*◌, ◌/◌, ◌%◌, Bool, true, false, ◌||◌, Option, none, some, ◌==◌, ltb,
  leb, if◌then◌else◌, ◌is◌,
}
use debt_collector.Calendar.{
  Date, to_ordinal, weekday, add_days, date_leb, LocalTime, local_leb, London,
}
use debt_collector.Model.{DebtContract, PaymentFrequency, RollingTribute, DeadlineDay, day_enum}

-- The full periods between two dates, the later of which is `current`.
unfoldable pub elapsed_periods : PaymentFrequency → Date → Date → ℕ
elapsed_periods PaymentFrequency.weekly start current = (to_ordinal current - to_ordinal start) / 7
elapsed_periods PaymentFrequency.biweekly start current =
    (to_ordinal current - to_ordinal start) / 14
elapsed_periods PaymentFrequency.monthly start current =
    let months = (current.year * 12 + current.month) - (start.year * 12 + start.month) in
    if ltb current.day start.day then months - 1 else months

abbrev pub periods_since : PaymentFrequency → Option Date → Date → ℕ
periods_since frequency none current = 0
periods_since frequency (some start) current =
    if date_leb current start then 0 else elapsed_periods frequency start current

module _ (london : London) where
  -- `_as_london_date`
  abbrev pub london_date : ℕ → Date
  london_date at = (london.local at).date

  abbrev pub signed_date : Option ℕ → Option Date
  signed_date none = none
  signed_date (some at) = some (london_date at)

  unfoldable pub current_period_index : DebtContract → ℕ → ℕ
  current_period_index contract now =
      periods_since contract.payment_frequency (signed_date contract.signed_at) (london_date now)

  -- The first deadline of the weekday and the time that is after `now_uk`.
  unfoldable pub next_deadline : RollingTribute → LocalTime → LocalTime
  next_deadline rolling now_uk =
      let days_until = (day_enum.index rolling.deadline_day + 7 - weekday now_uk.date) % 7 in
      let candidate : LocalTime = record {
        date = add_days days_until now_uk.date;
        time = rolling.deadline_time;
      } in
      if local_leb candidate now_uk
      then record candidate { date = add_days 7 candidate.date }
      else candidate

  unfoldable pub current_cycle_deadline : RollingTribute → ℕ → ℕ
  current_cycle_deadline rolling now = london.to_utc (next_deadline rolling (london.local now))

  -- `rolling.last_paid_at or rolling.created_at`
  abbrev pub baseline : RollingTribute → ℕ
  baseline rolling = elim rolling.last_paid_at [ none ↦ rolling.created_at | some at ↦ at ]

  unfoldable pub days_late : RollingTribute → ℕ → ℕ
  days_late rolling now =
      let last_deadline = current_cycle_deadline rolling now - 7 * 86400 in
      let last_deadline_uk = london.local last_deadline in
      let now_uk = london.local now in
      if leb last_deadline (baseline rolling)
      then 0
      else if local_leb now_uk last_deadline_uk
      then 0
      else to_ordinal now_uk.date - to_ordinal last_deadline_uk.date

  -- In pence.
  unfoldable pub amount_due : RollingTribute → ℕ → ℕ
  amount_due rolling now =
      if rolling.paused || rolling.amount == 0
      then 0
      else rolling.amount * (1 + days_late rolling now * rolling.late_multiplier_per_day)
