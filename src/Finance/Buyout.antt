-- ===== src/Finance/Buyout.antt =====
-- `exit_due` of server/utils/finance.py: bounds of the amount of a buyout.
use debt_collector.Common.{ℕ, ◌+◌, ◌*◌, ◌≤◌, ◌<◌, ◌≡◌, arith, subst}
use debt_collector.Common.Rounding.{round_half_up, round_half_up_mono, round_half_up-exact}
use debt_collector.Model.{Terms}
use debt_collector.Finance.{exit_due}

due_below : (x e d : ℕ) → 0 < d → e ≤ d → round_half_up (x * e) d ≤ x
due_below x e d positive h =
    subst (λ y. round_half_up (x * e) d ≤ y) (round_half_up-exact x d positive)
      (round_half_up_mono (x * e) (x * d) d positive (grind arith))

-- A buyout never costs less after more periods have passed.
exit_due_mono : (terms : Terms) (a b : ℕ) → a ≤ b → exit_due terms a ≤ exit_due terms b
unfolding exit_due
exit_due_mono terms a b h =
    ground (arith, due_below terms.exit_amount a terms.duration_periods, later)
  where
    later :
        0 < terms.duration_periods
        → round_half_up (terms.exit_amount * a) terms.duration_periods
          ≤ round_half_up (terms.exit_amount * b) terms.duration_periods
    later positive = round_half_up_mono _ _ _ positive (grind arith)

-- For a contract of at least one period: a buyout costs nothing before the first period has passed,
-- never less after more periods have passed, never more than the exit amount, and exactly the exit
-- amount once the contract's periods have passed.
pub exit_due_range :
    (terms : Terms) (elapsed later : ℕ)
    → 0 < terms.duration_periods
    → (exit_due terms 0 ≡ 0)
      × (exit_due terms elapsed ≤ exit_due terms (elapsed + later))
      × (exit_due terms elapsed ≤ terms.exit_amount)
      × (exit_due terms (terms.duration_periods + elapsed) ≡ terms.exit_amount)
unfolding exit_due
exit_due_range terms elapsed later some_period = (
  ground arith,
  exit_due_mono terms elapsed (elapsed + later) (omega arith),
  ground (arith, due_below terms.exit_amount elapsed terms.duration_periods),
  ground arith,
)
