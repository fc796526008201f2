-- ===== src/Tests/Finance.antt =====
-- The projections over the terms of a contract of 1,000 pounds.
use debt_collector.Common.{true, false, ◌+◌, ◌≤◌, ◌≡◌, refl, arith, min}
use debt_collector.Common.Lists.{length}
use debt_collector.Common.Rounding.{round_half_up}
use debt_collector.Finance.{exit_due, simulate, severe_warning, max_iterations}
use debt_collector.Finance.Buyout.{exit_due_range}
use debt_collector.Finance.Projection.{Falling, Rising, affordable-Falling, severe-Rising}
use debt_collector.Tests.{some_terms}

-- A tenth of the exit amount after one of ten periods.
first_exit : exit_due some_terms 1 ≡ 4000
unfolding exit_due round_half_up
first_exit = refl

exit_due_range_example :
    (exit_due some_terms 0 ≡ 0)
    × (exit_due some_terms 3 ≤ exit_due some_terms (3 + 4))
    × (exit_due some_terms 3 ≤ 40000)
    × (exit_due some_terms (10 + 3) ≡ 40000)
exit_due_range_example = exit_due_range some_terms 3 4 (omega arith)

-- At 5% a period the interest is just covered, at 10% it is not.
five_percent : severe_warning 10000 500 some_terms ≡ false
unfolding severe_warning
five_percent = refl

ten_percent : severe_warning 10000 1000 some_terms ≡ true
unfolding severe_warning
ten_percent = refl

affordable-Falling_example : Falling 100000 (simulate 10000 500 some_terms)
affordable-Falling_example = affordable-Falling 10000 500 (omega arith) some_terms five_percent

severe-Rising_example :
    Rising 100000 (simulate 10000 1000 some_terms)
    × (length (simulate 10000 1000 some_terms) ≡ min 10 max_iterations)
severe-Rising_example = severe-Rising 10000 1000 (omega arith) some_terms ten_percent
