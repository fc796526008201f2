-- ===== src/Debt/Sign.antt =====
-- server/controllers/debt/controller.py: `sign_as_sub`, `close_as_goddess`, and what a viewer may
-- read. The rendering of the PDF is not modelled.
use debt_collector.Common.{ℕ, Bool, not, Option, none, some, ◌==◌, ◌is◌, String, ◌||◌}
use debt_collector.Model.{
  User, UserRole, NotificationType, Published, DebtContract, DebtContractEventType,
  DebtContractStatus, contract_status_enum, Action, Done, AppError, raise, raise_if, gets, now_utc,
  ◌>>=◌, ◌>>◌,
}
use debt_collector.Session.{
  resolve_goddess_id, resolve_goddess_user_id, notify_known, publish_event, save_contract,
  append_audit, current_version, get_contract_or_404,
}
use debt_collector.Debt.Propose.{ContractOut, contract_out, audit_row}

-- `valid_sign_statuses`
abbrev pub is_signable : DebtContractStatus → Bool
is_signable s =
    (s is DebtContractStatus.pending_sub) || (s is DebtContractStatus.pending_sub_signature)

-- `_PENDING_STATUSES`
abbrev pub is_pending : DebtContractStatus → Bool
is_pending s =
    (s is DebtContractStatus.pending_sub)
    || (s is DebtContractStatus.pending_dom)
    || (s is DebtContractStatus.pending_dom_counter)
    || (s is DebtContractStatus.pending_sub_signature)

-- The loop that tells both parties of the new state.
unfoldable pub publish_state : Option ℕ → ℕ → ℕ → Action Done
publish_state none sub_id contract_id =
    publish_event (Published.contract_state_change sub_id contract_id)
publish_state (some goddess_user_id) sub_id contract_id = do
  publish_event (Published.contract_state_change goddess_user_id contract_id)
  publish_event (Published.contract_state_change sub_id contract_id)

unfoldable pub sign_as_sub : User → ℕ → String → Action ContractOut
sign_as_sub sub_user contract_id signature_b64 = do
  contract ← get_contract_or_404 contract_id
  raise_if (not (contract.sub_id == sub_user.id)) AppError.forbidden
  raise_if (not (is_signable contract.status)) AppError.conflict
  signed_at ← now_utc
  let saved = record contract {
    status = DebtContractStatus.active;
    signed_at = some signed_at;
    signature_b64 = some signature_b64;
    updated_at = signed_at;
  }
  save_contract saved
  version ← gets (current_version saved)
  append_audit (
      audit_row contract.id DebtContractEventType.signed sub_user.id (some contract.status)
        DebtContractStatus.active)
  goddess_user_id ← resolve_goddess_user_id contract.goddess_id
  notify_known goddess_user_id NotificationType.contract_signed contract.id
  publish_state goddess_user_id sub_user.id contract.id
  contract_out saved version

unfoldable pub close_as_goddess : User → ℕ → Action ContractOut
close_as_goddess goddess_user contract_id = do
  contract ← get_contract_or_404 contract_id
  goddess_id ← resolve_goddess_id goddess_user.id
  raise_if (not (contract.goddess_id == goddess_id)) AppError.forbidden
  raise_if (not (is_pending contract.status)) AppError.conflict
  now ← now_utc
  let saved = record contract { status = DebtContractStatus.cancelled_by_dom; updated_at = now }
  save_contract saved
  version ← gets (current_version saved)
  append_audit (
      audit_row contract.id DebtContractEventType.cancelled goddess_user.id (some contract.status)
        DebtContractStatus.cancelled_by_dom)
  contract_out saved version

-- `_assert_viewer_can_see`
unfoldable pub assert_viewer_can_see_as : UserRole → User → DebtContract → Action Done
assert_viewer_can_see_as UserRole.sub viewer contract =
    raise_if (not (contract.sub_id == viewer.id)) AppError.forbidden
assert_viewer_can_see_as UserRole.goddess viewer contract = do
  goddess_id ← resolve_goddess_id viewer.id
  raise_if (not (contract.goddess_id == goddess_id)) AppError.forbidden
assert_viewer_can_see_as UserRole.admin viewer contract = raise AppError.forbidden

abbrev pub assert_viewer_can_see : User → DebtContract → Action Done
assert_viewer_can_see viewer contract = assert_viewer_can_see_as viewer.role viewer contract

-- `get`
unfoldable pub get_contract : User → ℕ → Action ContractOut
get_contract viewer contract_id = do
  contract ← get_contract_or_404 contract_id
  assert_viewer_can_see viewer contract
  version ← gets (current_version contract)
  contract_out contract version
