-- ===== src/Tests/System.antt =====
-- Runs of the server, and the theorems about its reachable databases at them.
use debt_collector.Model.{contract_status_enum}
use debt_collector.Common.{◌is◌, ℕ, ◌⊎◌, ◌≡◌, refl, true, false, Option, none, some, List, [], ◌∷◌}
use debt_collector.Common.Int.{pos, scale, ◌+ℤ◌, ◌-ℤ◌}
use debt_collector.Common.Rounding.{quantize, round_half_even}
use debt_collector.Common.Table.{find_row}
use debt_collector.Model.{
  Db, Result, ok, err, Done, DebtContract, DebtContractStatus, PaymentDeclaration, PaymentStatus,
  DeclarationSource, PaymentCategory, ◌>>=◌,
}
use debt_collector.Session.{
  resolve_goddess_id, resolve_goddess_user_id, notify, notify_known, publish_event,
  get_contract_or_404, save_contract, create_version, append_audit,
}
use debt_collector.Session.Allocation.{create_allocation, counts_for, stats_for_contract}
use debt_collector.Ledger.{
  events_of, replay_events, replay_from, apply_op, apply_event_and_recompute,
}
use debt_collector.Debt.Propose.{
  proposed_contract, contract_out, assert_sub_belongs_to_goddess, propose_as_goddess,
}
use debt_collector.Debt.Sign.{publish_state, sign_as_sub}
use debt_collector.Debt.Adjust.{save_adjustment, emit_adjustment_event, announce, create_adjustment}
use debt_collector.Payment.Rules.{
  check_category_for_sub, check_rolling_active, get_method_for_goddess, to_out,
}
use debt_collector.Payment.Effects.{
  emit_allocation_to, load_active_contract_for_sub, apply_debt_payment, apply_category,
}
use debt_collector.Payment.Declare.{save_declaration, record_as_goddess}
use debt_collector.Model.{UserStatus}
use debt_collector.Common.Lists.{any_of}
use debt_collector.Model.Leaves.{Leaves}
use debt_collector.Blacklist.{breach}
use debt_collector.Blacklist.Effect.{active_under, is_usable, breach-ends}
use debt_collector.System.Reach.{Reach-IsConsistent}
use debt_collector.Tests.{goddess_user, sub_user, some_terms, start_db, payment_of}
use debt_collector.System.{Call, goddess_proposes, signs, adjusts, records, handle, run_call}
use debt_collector.System.Reach.{
  Reach, start, next, served, balance-replay, negotiated-balance, contract-lifecycle, IsInitial,
  Steps, here, then_step,
}
use debt_collector.Consistency.Invariant.{is_negotiating}
use debt_collector.Consistency.Lifecycle.{can_become}
use debt_collector.Payment.Invariant.{AllBacked, AllSingle}
use debt_collector.System.Payments.{allocations-backed, reviewed-final}

-- What is left of a request: the database that it commits, or the one before it.
abbrev committed : Db → Result (Done × Db) → Db
committed db (ok r) = r.1
committed db (err e) = db

run : List (ℕ × Call) → Db → Db
run [] db = db
run ((user_id, call) ∷ rest) db = run rest (committed db (handle user_id call db))

committed-Reach :
    (user_id : ℕ) (call : Call) (db : Db) (r : Result (Done × Db))
    → handle user_id call db ≡ r
    → Reach db
    → Reach (committed db r)
committed-Reach user_id call db (ok r) e before = next db r.1 before (served user_id call db r.1 e)
committed-Reach user_id call db (err _) e before = before

committed-Steps :
    (user_id : ℕ) (call : Call) (first db : Db) (r : Result (Done × Db))
    → handle user_id call db ≡ r
    → Steps first db
    → Steps first (committed db r)
committed-Steps user_id call first db (ok r) e before =
    then_step first db r.1 before (served user_id call db r.1 e)
committed-Steps user_id call first db (err _) e before = before

run-Reach : (calls : List (ℕ × Call)) (db : Db) → Reach db → Reach (run calls db)
unfolding run
run-Reach [] db r = r
run-Reach ((user_id, call) ∷ rest) db r =
    run-Reach rest (committed db (handle user_id call db))
      (committed-Reach user_id call db (handle user_id call db) refl r)

-- A contract is proposed and signed, the goddess adds a charge of 20 pounds, and a payment of 50
-- pounds is recorded.
abbrev story : List (ℕ × Call)
story =
    (1, goddess_proposes 2 some_terms)
    ∷ (2, signs 10 "signature")
    ∷ (1, adjusts 10 2000 none)
    ∷ (1, records 2 (payment_of PaymentCategory.debt_payment 5000))
    ∷ []

negotiated : Db
unfolding run
negotiated = run ((1, goddess_proposes 2 some_terms) ∷ []) start_db

pub paid : Db
unfolding run
paid = run story start_db

abbrev row_of : Option DebtContract → DebtContract
row_of (some c) = c
row_of none = proposed_contract 0 0 0 false some_terms DebtContractStatus.closed 0

negotiated_contract : DebtContract
unfolding negotiated handle run_call propose_as_goddess sign_as_sub create_adjustment
    record_as_goddess resolve_goddess_id resolve_goddess_user_id assert_sub_belongs_to_goddess
    get_contract_or_404 save_contract create_version append_audit notify notify_known publish_event
    publish_state contract_out stats_for_contract counts_for save_adjustment announce
    emit_adjustment_event apply_event_and_recompute replay_events replay_from apply_op
    check_category_for_sub check_rolling_active get_method_for_goddess save_declaration
    emit_allocation_to create_allocation apply_category apply_debt_payment
    load_active_contract_for_sub to_out ◌>>=◌
negotiated_contract = row_of (find_row 10 negotiated.contracts)

pub paid_contract : DebtContract
unfolding paid handle run_call propose_as_goddess sign_as_sub create_adjustment record_as_goddess
    resolve_goddess_id resolve_goddess_user_id assert_sub_belongs_to_goddess get_contract_or_404
    save_contract create_version append_audit notify notify_known publish_event publish_state
    contract_out stats_for_contract counts_for save_adjustment announce emit_adjustment_event
    apply_event_and_recompute replay_events replay_from apply_op check_category_for_sub
    check_rolling_active get_method_for_goddess save_declaration emit_allocation_to
    create_allocation apply_category apply_debt_payment load_active_contract_for_sub to_out ◌>>=◌
paid_contract = row_of (find_row 10 paid.contracts)

paid_balance : paid_contract.balance ≡ pos 97000
unfolding paid_contract quantize round_half_even scale ◌+ℤ◌ ◌-ℤ◌
paid_balance = refl

pub paid_found : find_row 10 paid.contracts ≡ some paid_contract
unfolding paid_contract
paid_found = refl

pub paid_active : (paid_contract.status is DebtContractStatus.active) ≡ true
unfolding paid_contract
paid_active = refl

negotiated_found : find_row 10 negotiated.contracts ≡ some negotiated_contract
unfolding negotiated_contract
negotiated_found = refl

negotiated_pending : is_negotiating negotiated_contract.status ≡ true
unfolding negotiated_contract
negotiated_pending = refl

start_IsInitial : IsInitial start_db
start_IsInitial = (refl, refl, refl, refl, refl)

pub paid-Reach : Reach paid
unfolding paid
paid-Reach = run-Reach story start_db (start start_db start_IsInitial)

negotiated-Reach : Reach negotiated
unfolding negotiated
negotiated-Reach =
    run-Reach ((1, goddess_proposes 2 some_terms) ∷ []) start_db (start start_db start_IsInitial)

balance-replay_example :
    paid_contract.balance ≡ replay_events paid_contract.principal (events_of 10 paid.events)
balance-replay_example = balance-replay paid 10 paid_contract paid-Reach paid_found

negotiated-balance_example :
    (events_of 10 negotiated.events ≡ [])
    × (negotiated_contract.balance ≡ pos negotiated_contract.principal)
negotiated-balance_example =
    negotiated-balance negotiated 10 negotiated_contract negotiated-Reach negotiated_found
      negotiated_pending

run-Steps : (calls : List (ℕ × Call)) (first db : Db) → Steps first db → Steps first (run calls db)
unfolding run
run-Steps [] first db steps = steps
run-Steps ((user_id, call) ∷ rest) first db steps =
    run-Steps rest first (committed db (handle user_id call db))
      (committed-Steps user_id call first db (handle user_id call db) refl steps)

negotiated-Steps : Steps negotiated paid
unfolding negotiated paid run
negotiated-Steps =
    run-Steps
      ((2, signs 10 "signature")
        ∷ (1, adjusts 10 2000 none)
        ∷ (1, records 2 (payment_of PaymentCategory.debt_payment 5000))
        ∷ [])
      negotiated negotiated (here negotiated)

contract-lifecycle_example :
    (c' : DebtContract) × ((find_row 10 paid.contracts ≡ some c')
      × ((c'.sub_id ≡ negotiated_contract.sub_id)
          × (c'.goddess_id ≡ negotiated_contract.goddess_id)
          × (can_become negotiated_contract.status c'.status ≡ true)
          × ((is_negotiating negotiated_contract.status ≡ true)
              ⊎ (c'.terms ≡ negotiated_contract.terms))))
contract-lifecycle_example =
    contract-lifecycle negotiated paid 10 negotiated_contract negotiated-Reach negotiated-Steps
      negotiated_found

allocations-backed_example :
    AllBacked paid.declarations paid.allocations × AllSingle paid.allocations
allocations-backed_example = allocations-backed paid paid-Reach

-- After the payment of 50 pounds one of 10 pounds is recorded.
paid_again : Db
unfolding run
paid_again = run ((1, records 2 (payment_of PaymentCategory.debt_payment 1000)) ∷ []) paid

paid_again-Steps : Steps paid paid_again
unfolding paid_again
paid_again-Steps =
    run-Steps ((1, records 2 (payment_of PaymentCategory.debt_payment 1000)) ∷ []) paid paid
      (here paid)

abbrev pub recorded : PaymentDeclaration
recorded = record {
  id = 13;
  sub_id = 2;
  goddess_id = 3;
  method_id = 4;
  amount = 5000;
  external_timestamp = none;
  note = none;
  category = PaymentCategory.debt_payment;
  status = PaymentStatus.validated;
  target_id = some 10;
  created_by = 1;
  declared_at = 0;
  validated_at = some 0;
  validated_by = some 1;
  rejection_reason = none;
  source = DeclarationSource.goddess_recorded;
  proof_key = none;
}

recorded_found : find_row 13 paid.declarations ≡ some recorded
unfolding paid handle run_call propose_as_goddess sign_as_sub create_adjustment record_as_goddess
    resolve_goddess_id resolve_goddess_user_id assert_sub_belongs_to_goddess get_contract_or_404
    save_contract create_version append_audit notify notify_known publish_event publish_state
    contract_out stats_for_contract counts_for save_adjustment announce emit_adjustment_event
    apply_event_and_recompute replay_events replay_from apply_op check_category_for_sub
    check_rolling_active get_method_for_goddess save_declaration emit_allocation_to
    create_allocation apply_category apply_debt_payment load_active_contract_for_sub to_out ◌>>=◌
recorded_found = refl

reviewed-final_example : find_row 13 paid_again.declarations ≡ some recorded
reviewed-final_example =
    reviewed-final paid paid_again 13 recorded paid-Reach paid_again-Steps recorded_found refl

paid_sub : find_row 2 paid.users ≡ some sub_user
unfolding paid handle run_call propose_as_goddess sign_as_sub create_adjustment record_as_goddess
    resolve_goddess_id resolve_goddess_user_id assert_sub_belongs_to_goddess get_contract_or_404
    save_contract create_version append_audit notify notify_known publish_event publish_state
    contract_out stats_for_contract counts_for save_adjustment announce emit_adjustment_event
    apply_event_and_recompute replay_events replay_from apply_op check_category_for_sub
    check_rolling_active get_method_for_goddess save_declaration emit_allocation_to
    create_allocation apply_category apply_debt_payment load_active_contract_for_sub to_out ◌>>=◌
paid_sub = refl

breach-ends_example :
    Leaves
      (λ entry d.
        (active_under 2 10 d.contracts ≡ false)
        × (find_row 2 d.users ≡ some (record sub_user { status = UserStatus.blacklisted }))
        × (any_of (is_usable 2) d.refresh_tokens ≡ false))
      (breach goddess_user 2 none paid)
breach-ends_example =
    let inv = Reach-IsConsistent paid paid-Reach in
    breach-ends goddess_user sub_user 2 10 none paid inv.distinct
      (λ j c at. (inv.row_ok j c at).keyed) paid_sub refl
