-- ===== src/Finance.antt =====
-- server/utils/finance.py: projections over a contract's terms. Amounts are whole pence. A rate is a
-- number of `unit`ths: `period_rate` takes a power of a float for a yearly rate, so the rate of one
-- period is a parameter. Products and quotients are exact here; the source's have 28 digits.
pub mod Buyout
pub mod Projection
use debt_collector.Common.{
  zero, suc, ℕ, ◌+◌, ◌-◌, ◌*◌, ◌/◌, Bool, true, false, List, [], ◌∷◌, min, ltb, leb, ◌==◌,
  if◌then◌else◌,
}
use debt_collector.Common.Rounding.{round_half_up}
use debt_collector.Model.{Terms}

-- `_MAX_ITERATIONS`
abbrev pub max_iterations : ℕ
max_iterations = 520

-- `elapsed_periods` is never negative where it comes from `current_period_index`.
unfoldable pub exit_due : Terms → ℕ → ℕ
exit_due terms elapsed_periods =
    if terms.duration_periods == 0
    then 0
    else if elapsed_periods == 0
    then 0
    else if leb terms.duration_periods elapsed_periods
    then terms.exit_amount
    else round_half_up (terms.exit_amount * elapsed_periods) terms.duration_periods

-- An entry of the projection.
pub record Projected : Type 0 where
  pub period : ℕ
  pub balance_before_payment : ℕ
  pub payment : ℕ
  pub balance_end : ℕ

module _ (unit rate : ℕ) where
  -- `(balance * (1 + r)).quantize(_TWO_DP, rounding=ROUND_HALF_UP)`
  unfoldable pub after_interest : ℕ → ℕ
  after_interest balance = round_half_up (balance * (unit + rate)) unit

  -- One round of the loop.
  unfoldable pub project : ℕ → ℕ → ℕ → Projected
  project min_payment period balance =
      let before = after_interest balance in
      let payment = min min_payment before in
      record {
        period = period;
        balance_before_payment = before;
        payment = payment;
        balance_end = before - payment;
      }

  -- The rounds that are left, from a period on.
  unfoldable pub simulate_from : ℕ → ℕ → ℕ → ℕ → List Projected
  simulate_from min_payment zero period balance = []
  simulate_from min_payment (suc n) period balance =
      let entry = project min_payment period balance in
      let rest = simulate_from min_payment n (period + 1) entry.balance_end in
      entry ∷ (if entry.balance_end == 0 then [] else rest)

  unfoldable pub simulate : Terms → List Projected
  simulate terms =
      simulate_from terms.minimum_payment (min terms.duration_periods max_iterations) 1
        terms.principal

  unfoldable pub severe_warning : Terms → Bool
  severe_warning terms = ltb (terms.minimum_payment * unit) (rate * terms.principal)
