-- ===== src/Payment/Effects.antt =====
-- server/controllers/payment/controller.py: what a validated payment does to the allocations, the
-- sub, the rolling tribute and the contract.
use Prim.Native.String.{String}
use debt_collector.Common.{ℕ, Bool, true, false, not, Option, none, some, ◌==◌, ◌is◌}
use debt_collector.Common.Table.{find_row, put_row}
use debt_collector.Model.{
  User, UserStatus, PaymentCategory, category_enum, PaymentDeclaration, AllocationTargetType,
  DebtContract, DebtContractStatus, contract_status_enum, DebtContractEventType, EventType,
  NotificationType, Action, Done, AppError, or_raise, raise_if, when, gets, modify, pure, now_utc,
  ◌>>=◌, ◌>>◌,
}
use debt_collector.Session.{resolve_goddess_user_id, notify_known, save_contract, append_audit}
use debt_collector.Session.Allocation.{create_allocation}
use debt_collector.Ledger.{apply_event_and_recompute}
use debt_collector.Debt.Propose.{audit_row}
use debt_collector.Debt.Sign.{publish_state}
use debt_collector.Debt.Adjust.{money_event}
use debt_collector.Payment.Rules.{allocation_target, is_debt_payment, is_blank}

-- `_emit_allocation`, by the target that the category has.
unfoldable pub emit_allocation_to : Option AllocationTargetType → PaymentDeclaration → Action Done
emit_allocation_to none decl = pure tt
emit_allocation_to (some target_type) decl = create_allocation decl target_type decl.target_id

abbrev pub emit_allocation : PaymentDeclaration → Action Done
emit_allocation decl = emit_allocation_to (allocation_target decl.category) decl

abbrev pub has_safeword : Option String → Bool
has_safeword none = false
has_safeword (some word) = not (is_blank word)

-- `_promote_sub`
unfoldable pub promote_sub : User → Action Done
promote_sub sub = do
  safeword ← gets (λ db. find_row sub.id db.safewords)
  raise_if (not (has_safeword safeword)) AppError.validation
  modify λ db. record db {
    users = put_row sub.id (record sub { status = UserStatus.active }) db.users;
  }

-- `RollingTributeDao.mark_paid`
unfoldable pub mark_paid : ℕ → ℕ → Action Done
mark_paid sub_id at = modify λ db. record db {
  rollings = elim (find_row sub_id db.rollings) [
    | none ↦ db.rollings
    | some r ↦
        put_row sub_id (record r { last_paid_at = some at; updated_at = db.clock }) db.rollings
  ];
}

-- `contract is None or contract.sub_id != sub_id`
abbrev pub owned_contract : ℕ → Option DebtContract → Option DebtContract
owned_contract sub_id none = none
owned_contract sub_id (some c) = elim (c.sub_id == sub_id) [ true ↦ some c | false ↦ none ]

-- `_load_active_contract_for_sub`
unfoldable pub load_active_contract_for_sub : ℕ → Option ℕ → Action DebtContract
load_active_contract_for_sub sub_id target_id = do
  contract_id ← or_raise target_id AppError.bad_request
  found ← gets (λ db. owned_contract sub_id (find_row contract_id db.contracts))
  contract ← or_raise found AppError.bad_request
  raise_if (not (contract.status is DebtContractStatus.active)) AppError.bad_request
  pure contract

-- `_apply_debt_payment`. The event is booked on `decl.target_id`, the contract's id.
unfoldable pub apply_debt_payment : PaymentDeclaration → ℕ → Action Done
apply_debt_payment decl sub_id = do
  load_active_contract_for_sub sub_id decl.target_id
  contract_id ← or_raise decl.target_id AppError.bad_request
  now ← now_utc
  apply_event_and_recompute (money_event contract_id EventType.payment_applied decl.amount now)
  pure tt

-- `_apply_buyout`
unfoldable pub apply_buyout : PaymentDeclaration → ℕ → ℕ → ℕ → Action Done
apply_buyout decl sub_id actor_id now = do
  contract ← load_active_contract_for_sub sub_id decl.target_id
  contract_id ← or_raise decl.target_id AppError.bad_request
  new_balance ←
      apply_event_and_recompute (money_event contract_id EventType.buyout_paid decl.amount now)
  save_contract (record contract {
    balance = new_balance;
    status = DebtContractStatus.closed;
    updated_at = now;
  })
  append_audit (
      audit_row contract.id DebtContractEventType.closed actor_id (some contract.status)
        DebtContractStatus.closed)
  goddess_user_id ← resolve_goddess_user_id contract.goddess_id
  notify_known goddess_user_id NotificationType.contract_buyout_paid contract.id
  publish_state goddess_user_id contract.sub_id contract.id

-- The four tests that follow `_emit_allocation` in `validate` and `record_as_goddess`.
unfoldable pub apply_category : PaymentDeclaration → PaymentCategory → User → ℕ → ℕ → Action Done
apply_category decl category sub actor_id now = do
  when (category is PaymentCategory.entry) (promote_sub sub)
  when (category is PaymentCategory.rolling) (mark_paid decl.sub_id now)
  when (is_debt_payment category) (apply_debt_payment decl sub.id)
  when (category is PaymentCategory.buyout) (apply_buyout decl sub.id actor_id now)
