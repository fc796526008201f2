-- ===== src/Periods/Progress.antt =====
-- `current_period_index` of server/utils/periods.py over time.
use debt_collector.Common.{
  ℕ, ◌≤◌, ◌≡◌, true, Option, none, some, arith, if◌then◌else◌, Bool-cases, inl, inr,
}
use debt_collector.Calendar.{Date, date_leb, IsDate, London, IsCalendar}
use debt_collector.Calendar.Order.{to_ordinal_mono, date_leb-cases, date_leb_trans}
use debt_collector.Model.{DebtContract, PaymentFrequency}
use debt_collector.Periods.{
  elapsed_periods, periods_since, london_date, signed_date, current_period_index,
}

module _ (start a b : Date) (vs : IsDate start) (va : IsDate a) (vb : IsDate b)
    (h : date_leb a b ≡ true) where
  elapsed_periods_mono :
      (frequency : PaymentFrequency)
      → elapsed_periods frequency start a ≤ elapsed_periods frequency start b
  unfolding elapsed_periods
  elapsed_periods_mono PaymentFrequency.weekly = omega (arith, to_ordinal_mono a b va vb h)
  elapsed_periods_mono PaymentFrequency.biweekly = omega (arith, to_ordinal_mono a b va vb h)
  elapsed_periods_mono PaymentFrequency.monthly = elim (date_leb-cases a b h) [
    | inl earlier ↦ ground arith
    | inr (inl (same, earlier)) ↦ ground arith
    | inr (inr (same, (month, day))) ↦ ground arith
  ]

module _ (london : London) (calendar : IsCalendar london) where
  periods_since_mono :
      (frequency : PaymentFrequency) (signed_at : Option ℕ) (a b : ℕ)
      → a ≤ b
      → periods_since frequency (signed_date london signed_at) (london_date london a)
        ≤ periods_since frequency (signed_date london signed_at) (london_date london b)
  periods_since_mono frequency none a b h = omega arith
  periods_since_mono frequency (some at) a b h =
      elim (Bool-cases (date_leb (london_date london b) (london_date london at))) [
        | inl early ↦ rw (early, date_leb_trans _ _ _ (calendar.later a b h) early) (omega arith)
        | inr late ↦ rw late begun
      ]
    where
      elapsed :
          elapsed_periods frequency (london_date london at) (london_date london a)
          ≤ elapsed_periods frequency (london_date london at) (london_date london b)
      elapsed =
          elapsed_periods_mono (london_date london at) (london_date london a) (london_date london b)
            (calendar.is_date at) (calendar.is_date a) (calendar.is_date b) (calendar.later a b h)
            frequency

      begun :
          (if date_leb (london_date london a) (london_date london at)
            then 0
            else elapsed_periods frequency (london_date london at) (london_date london a))
          ≤ elapsed_periods frequency (london_date london at) (london_date london b)
      begun = ground (arith, elapsed)

  -- The period of a contract never goes back as time passes, whatever its frequency, in a time zone in
  -- which the date never goes back.
  pub current_period_index_mono :
      (contract : DebtContract) (a b : ℕ)
      → a ≤ b
      → current_period_index london contract a ≤ current_period_index london contract b
  unfolding current_period_index
  current_period_index_mono contract a b h =
      periods_since_mono contract.payment_frequency contract.signed_at a b h
