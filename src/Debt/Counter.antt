-- ===== src/Debt/Counter.antt =====
-- server/controllers/debt/controller.py: `counter_propose`, `accept_counter` and `reject_counter`.
use debt_collector.Common.{ℕ, Bool, not, Option, some, ◌==◌, ◌is◌, leb}
use debt_collector.Common.Int.{pos}
use debt_collector.Common.Lists.{any_of, first_of?}
use debt_collector.Model.{
  User, UserRole, NotificationType, DebtContract, DebtContractVersion, DebtContractEventType,
  DebtContractStatus, contract_status_enum, Terms, Action, AppError, or_raise, raise, raise_if,
  gets, pure, fresh_id, now_utc, ◌>>=◌, ◌>>◌,
}
use debt_collector.Session.{
  resolve_goddess_id, resolve_goddess_user_id, notify, notify_known, save_contract, create_version,
  append_audit, current_version, get_contract_or_404, list_versions,
}
use debt_collector.Debt.Propose.{ContractOut, contract_out, version_row, audit_row}

-- The branches on the actor's role: who may counter in which status, and the status that follows.
unfoldable pub counter_target_as : UserRole → User → DebtContract → Action DebtContractStatus
counter_target_as UserRole.sub actor contract = do
  raise_if (not (contract.sub_id == actor.id)) AppError.forbidden
  raise_if (not (contract.status is DebtContractStatus.pending_sub)) AppError.conflict
  pure DebtContractStatus.pending_dom_counter
counter_target_as UserRole.goddess actor contract = do
  goddess_id ← resolve_goddess_id actor.id
  raise_if (not (contract.goddess_id == goddess_id)) AppError.forbidden
  raise_if (not (contract.status is DebtContractStatus.pending_dom)) AppError.conflict
  pure DebtContractStatus.pending_sub_signature
counter_target_as UserRole.admin actor contract = raise AppError.forbidden

abbrev pub counter_target : User → DebtContract → Action DebtContractStatus
counter_target actor contract = counter_target_as actor.role actor contract

unfoldable pub counter_party_of : UserRole → DebtContract → Action (Option ℕ)
counter_party_of UserRole.sub contract = resolve_goddess_user_id contract.goddess_id
counter_party_of _ contract = pure (some contract.sub_id)

abbrev pub counter_party : User → DebtContract → Action (Option ℕ)
counter_party actor contract = counter_party_of actor.role contract

-- `apply_payload_to_contract` and `apply_version_to_contract`: each financial column.
abbrev pub apply_terms_to_contract : DebtContract → Terms → DebtContract
apply_terms_to_contract contract payload = record contract {
  terms = record {
    principal = payload.principal;
    interest_rate = payload.interest_rate;
    interest_period = payload.interest_period;
    duration_periods = payload.duration_periods;
    payment_frequency = payload.payment_frequency;
    minimum_payment = payload.minimum_payment;
    late_penalty_severity = payload.late_penalty_severity;
    late_penalty_percent = payload.late_penalty_percent;
    dom_can_add_surprise_penalty = payload.dom_can_add_surprise_penalty;
    mid_contract_addition_mode = payload.mid_contract_addition_mode;
    exit_amount = payload.exit_amount;
  };
}

abbrev pub is_counter_round : DebtContractVersion → Bool
is_counter_round v = leb 1 v.round_no

unfoldable pub counter_propose : User → ℕ → Terms → Action ContractOut
counter_propose actor contract_id payload = do
  contract ← get_contract_or_404 contract_id
  versions ← list_versions contract_id
  raise_if (any_of is_counter_round versions) AppError.conflict
  to_status ← counter_target actor contract
  version_id ← fresh_id
  let version = version_row version_id contract.id 1 actor.id payload
  create_version version
  now ← now_utc
  let saved = record (apply_terms_to_contract contract payload) {
    balance = pos payload.principal;
    current_version_id = some version_id;
    status = to_status;
    updated_at = now;
  }
  save_contract saved
  append_audit (
      audit_row contract.id DebtContractEventType.countered actor.id (some contract.status)
        to_status)
  party ← counter_party actor saved
  notify_known party NotificationType.contract_countered contract.id
  contract_out saved (some version)

unfoldable pub accept_counter : User → ℕ → Action ContractOut
accept_counter goddess_user contract_id = do
  contract ← get_contract_or_404 contract_id
  goddess_id ← resolve_goddess_id goddess_user.id
  raise_if (not (contract.goddess_id == goddess_id)) AppError.forbidden
  raise_if (not (contract.status is DebtContractStatus.pending_dom_counter)) AppError.conflict
  now ← now_utc
  let saved = record contract {
    status = DebtContractStatus.pending_sub_signature;
    updated_at = now;
  }
  save_contract saved
  version ← gets (current_version saved)
  append_audit (
      audit_row contract.id DebtContractEventType.accepted_counter goddess_user.id
        (some contract.status) DebtContractStatus.pending_sub_signature)
  notify contract.sub_id NotificationType.contract_counter_accepted contract.id
  contract_out saved version

abbrev is_round_zero : DebtContractVersion → Bool
is_round_zero v = v.round_no == 0

unfoldable pub reject_counter : User → ℕ → Action ContractOut
reject_counter goddess_user contract_id = do
  contract ← get_contract_or_404 contract_id
  goddess_id ← resolve_goddess_id goddess_user.id
  raise_if (not (contract.goddess_id == goddess_id)) AppError.forbidden
  raise_if (not (contract.status is DebtContractStatus.pending_dom_counter)) AppError.conflict
  versions ← list_versions contract_id
  original ← or_raise (first_of? is_round_zero versions) AppError.not_found
  now ← now_utc
  let saved = record (apply_terms_to_contract contract original.terms) {
    balance = pos original.principal;
    current_version_id = some original.id;
    status = DebtContractStatus.pending_sub_signature;
    updated_at = now;
  }
  save_contract saved
  append_audit (
      audit_row contract.id DebtContractEventType.rejected_counter goddess_user.id
        (some contract.status) DebtContractStatus.pending_sub_signature)
  notify contract.sub_id NotificationType.contract_counter_rejected contract.id
  contract_out saved (some original)
