-- ===== src/Calendar/Order.antt =====
-- The order of dates is the order of their ordinals.
use debt_collector.Common.{
  ℕ, zero, suc, ◌+◌, ◌-◌, ◌≤◌, ◌<◌, ◌≡◌, refl, subst, sym, true, arith, inl, inr, ◌⊎◌,
}
use debt_collector.Calendar.{
  Date, days_in_month, days_of_months, days_before_year, to_ordinal, IsDate, date_leb,
}

days_of_months_mono : (year m n : ℕ) → m ≤ n → days_of_months year m ≤ days_of_months year n
unfolding days_of_months
days_of_months_mono year m zero h =
    subst (λ k. days_of_months year k ≤ 0) (let e : 0 ≡ m = omega arith in e) (omega arith)
days_of_months_mono year m (suc n) h = elim at_end [
  | inl e ↦ rw e (omega arith)
  | inr below ↦ omega (arith, days_of_months_mono year m n below)
]
  where
    at_end : (m ≡ suc n) ⊎ (m ≤ n)
    at_end = omega arith

-- The twelve months make up the year, of which the closed formula counts as many days.
days_of_year :
    (year : ℕ)
    → 1 ≤ year
    → days_before_year year + days_of_months year 12 ≡ days_before_year (year + 1)
unfolding days_before_year days_of_months days_in_month
days_of_year year h = ground arith

days_before_year_mono : (y n : ℕ) → 1 ≤ y → days_before_year y ≤ days_before_year (y + n)
unfolding days_before_year
days_before_year_mono y n h = omega arith

month-step :
    (year m : ℕ)
    → 1 ≤ m
    → days_of_months year m ≡ days_of_months year (m - 1) + days_in_month year m
unfolding days_of_months
month-step year zero h = absurd (omega arith)
month-step year (suc m) h =
    subst
      (λ k.
        days_of_months year m + days_in_month year (suc m)
        ≡ days_of_months year k + days_in_month year (suc m))
      (let e : m ≡ suc m - 1 = omega arith in e) refl

-- The day of the year is at most the days up to the end of the month.
within_month :
    (d : Date)
    → IsDate d
    → (days_of_months d.year (d.month - 1) + d.day ≤ days_of_months d.year d.month)
      × (days_of_months d.year d.month ≤ days_of_months d.year 12)
within_month d valid = (here, days_of_months_mono d.year d.month 12 valid.month_in.1)
  where
    here : days_of_months d.year (d.month - 1) + d.day ≤ days_of_months d.year d.month
    here = omega (arith, month-step d.year d.month valid.month_in.0, valid.day_in)

-- How one date is before another.
pub date_leb-cases :
    (a b : Date)
    → date_leb a b ≡ true
    → (a.year < b.year)
      ⊎ (((a.year ≡ b.year) × (a.month < b.month))
          ⊎ ((a.year ≡ b.year) × ((a.month ≡ b.month) × (a.day ≤ b.day))))
unfolding date_leb
date_leb-cases a b h = ground arith

pub date_leb_trans :
    (a b c : Date) → date_leb a b ≡ true → date_leb b c ≡ true → date_leb a c ≡ true
unfolding date_leb
date_leb_trans a b c h k = ground arith

-- A later date has no smaller ordinal.
pub to_ordinal_mono :
    (a b : Date) → IsDate a → IsDate b → date_leb a b ≡ true → to_ordinal a ≤ to_ordinal b
unfolding to_ordinal
to_ordinal_mono a b va vb h = elim (date_leb-cases a b h) [
  | inl earlier ↦ omega (arith, within_month a va, days_of_year a.year va.year_in, years earlier)
  | inr (inl (same, earlier)) ↦ rw (sym same) (omega (arith, within_month a va, months earlier))
  | inr (inr (same, (month, day))) ↦ rw (sym same, sym month) (omega arith)
]
  where
    years : a.year < b.year → days_before_year (a.year + 1) ≤ days_before_year b.year
    years lt =
        subst (λ y. days_before_year (a.year + 1) ≤ days_before_year y)
          (let e : (a.year + 1) + (b.year - (a.year + 1)) ≡ b.year = omega arith in e)
          (days_before_year_mono (a.year + 1) (b.year - (a.year + 1)) (omega arith))

    months : a.month < b.month → days_of_months a.year a.month ≤ days_of_months a.year (b.month - 1)
    months lt = days_of_months_mono a.year a.month (b.month - 1) (omega arith)
