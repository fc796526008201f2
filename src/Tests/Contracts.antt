-- ===== src/Tests/Contracts.antt =====
-- A contract after the run of the server: its payments, its buyout, and its clauses.
use debt_collector.Common.{◌≡◌, refl, not, some, none, [], ◌∷◌}
use debt_collector.Common.Int.{pos, ◌-ℤ◌}
use debt_collector.Common.Table.{find_row}
use debt_collector.Model.{Db, DebtContractStatus, ok}
use debt_collector.Model.Leaves.{Leaves}
use debt_collector.Payment.Effects.{apply_debt_payment, apply_buyout}
use debt_collector.Debt.Clauses.{ContractClauseIn, normalize_from, clauses_differ}
use debt_collector.Debt.Resave.{same_texts, clauses_differ-same_texts}
use debt_collector.System.Exact.{apply_debt_payment-exact, apply_buyout-closes}
use debt_collector.Debt.Adjust.{has_slug, penalty_adjustment, surprise_penalty_by_slug}
use debt_collector.System.Penalty.{surprise_penalty_by_slug-exact}
use debt_collector.Common.Lists.{select}
use debt_collector.Common.Table.{rows}
use debt_collector.Model.{DebtContract}
use debt_collector.Common.Int.{◌+ℤ◌}
use debt_collector.Common.{ℕ, String}
use debt_collector.Tests.{goddess_user}
use debt_collector.Tests.System.{paid, paid_contract, paid_found, paid_active, paid-Reach, recorded}

apply_debt_payment-exact_example :
    (d : Db) × ((apply_debt_payment recorded paid_contract.sub_id paid ≡ ok (tt, d))
      × (find_row 10 d.contracts
          ≡ some (record paid_contract { balance = paid_contract.balance -ℤ pos 5000 })))
apply_debt_payment-exact_example =
    apply_debt_payment-exact paid recorded 10 paid_contract paid-Reach refl paid_found paid_active

apply_buyout-closes_example :
    Leaves
      (λ _ d.
        find_row 10 d.contracts
        ≡ some (record paid_contract {
          balance = pos 0;
          status = DebtContractStatus.closed;
          updated_at = paid.clock;
        }))
      (apply_buyout recorded paid_contract.sub_id 1 paid.clock paid)
apply_buyout-closes_example =
    apply_buyout-closes paid recorded 1 10 paid_contract paid-Reach refl paid_found paid_active

abbrev rent : ContractClauseIn
rent = record { id = none; label = "rent"; body = "weekly" }

abbrev silence : ContractClauseIn
silence = record { id = some 40; label = "silence"; body = "always" }

clauses_differ-same_texts_example :
    clauses_differ
      (normalize_from 0 50 (rent ∷ silence ∷ []))
      (normalize_from 0 60 (silence ∷ rent ∷ []))
    ≡ not (same_texts (rent ∷ silence ∷ []) (silence ∷ rent ∷ []))
clauses_differ-same_texts_example =
    clauses_differ-same_texts 50 60 (rent ∷ silence ∷ []) (silence ∷ rent ∷ [])

-- The one contract has this slug.
abbrev some_slug : ℕ → String
some_slug id = "c_a7k2mq"

surprise_penalty_by_slug-exact_example :
    Leaves
      (λ _ d.
        (c : DebtContract) × (select (has_slug some_slug "c_a7k2mq") (rows paid.contracts) ≡ c ∷ [])
        × (find_row c.id d.contracts
            ≡ some (record c { balance = c.balance +ℤ pos 2000; updated_at = paid.clock }))
        × (find_row paid.next_id d.adjustments
            ≡ some (
                penalty_adjustment paid.next_id c.id goddess_user.id 2000 "late again" 0
                  paid.clock)))
      (surprise_penalty_by_slug some_slug goddess_user "c_a7k2mq" 2000 "late again" 0 paid)
surprise_penalty_by_slug-exact_example =
    surprise_penalty_by_slug-exact some_slug goddess_user "c_a7k2mq" 2000 "late again" 0 paid
      paid-Reach
