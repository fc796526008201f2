-- ===== src/Debt/Adjust.antt =====
-- server/controllers/debt/controller.py: surprise penalties and adjustments. Each is an event of the
-- ledger; `apply_event_and_recompute` stores the new balance in the row that the controller holds.
use text.Mathlib.Text as Text
use debt_collector.Common.{
  ℕ, ◌*◌, Bool, true, false, not, Option, none, some, ◌==◌, ◌is◌, String, if◌then◌else◌,
}
use debt_collector.Common.Int.{ℤ}
use debt_collector.Common.Table.{find_row, put_row, rows}
use debt_collector.Common.Lists.{select}
use debt_collector.Model.{
  User, NotificationType, DebtContract, DebtContractStatus, contract_status_enum,
  MidContractAdditionMode, mode_enum, DebtEvent, EventType, ContractAdjustment,
  ContractAdjustmentKind, DebtContractEventType, one_or_none, AdjustmentStatus,
  adjustment_status_enum, Db, Action, Done, AppError, or_raise, raise_if, gets, modify, pure,
  fresh_id, now_utc, ◌>>=◌, ◌>>◌,
}
use debt_collector.Session.{
  resolve_goddess_id, resolve_goddess_user_id, notify, notify_known, save_contract, append_audit,
  current_version, get_contract_or_404,
}
use debt_collector.Ledger.{apply_event_and_recompute}
use debt_collector.Debt.Propose.{ContractOut, contract_out, audit_row}

-- An event of `amount` pence, stamped with the clock.
abbrev pub money_event : ℕ → EventType → ℕ → ℕ → DebtEvent
money_event contract_id event_type amount now = record {
  contract_id = contract_id;
  event_type = event_type;
  amount = 100 * amount;
  period_index = none;
  created_at = now;
}

-- The session holds one object for a row: after the event its balance is the new one.
abbrev pub refreshed : DebtContract → ℤ → ℕ → DebtContract
refreshed contract new_balance now = record contract { balance = new_balance; updated_at = now }

unfoldable pub surprise_penalty : User → ℕ → ℕ → Action ContractOut
surprise_penalty goddess_user contract_id amount = do
  contract ← get_contract_or_404 contract_id
  goddess_id ← resolve_goddess_id goddess_user.id
  raise_if (not (contract.goddess_id == goddess_id)) AppError.forbidden
  raise_if (not contract.dom_can_add_surprise_penalty) AppError.forbidden
  raise_if (not (contract.status is DebtContractStatus.active)) AppError.conflict
  now ← now_utc
  new_balance ←
      apply_event_and_recompute (money_event contract.id EventType.surprise_penalty amount now)
  let saved = refreshed contract new_balance now
  save_contract saved
  version ← gets (current_version saved)
  notify contract.sub_id NotificationType.contract_surprise_penalty contract.id
  contract_out saved version

abbrev pub with_adjustment : ContractAdjustment → Db → Db
with_adjustment adjustment db = record db {
  adjustments = put_row adjustment.id adjustment db.adjustments;
}

unfoldable pub save_adjustment : ContractAdjustment → Action Done
save_adjustment adjustment = modify (with_adjustment adjustment)

-- `get_by_slug`. The slug of a contract is text that its row is given at the insert and keeps; the
-- generator of slugs is not at this commit, so the slug of each id is a parameter.
abbrev pub has_slug : (ℕ → String) → String → DebtContract → Bool
has_slug slug_of slug contract = Text.◌==◌ (slug_of contract.id) slug

unfoldable pub get_by_slug : (ℕ → String) → String → Action (Option DebtContract)
get_by_slug slug_of slug = do
  found ← gets (λ db. select (has_slug slug_of slug) (rows db.contracts))
  one_or_none found

-- `_resolve_goddess_owns_contract_by_slug`
unfoldable pub require_her_contract : (ℕ → String) → User → String → Action DebtContract
require_her_contract slug_of goddess_user slug = do
  found ← get_by_slug slug_of slug
  contract ← or_raise found AppError.not_found
  goddess_id ← resolve_goddess_id goddess_user.id
  raise_if (not (contract.goddess_id == goddess_id)) AppError.forbidden
  pure contract

abbrev pub penalty_adjustment : ℕ → ℕ → ℕ → ℕ → String → ℕ → ℕ → ContractAdjustment
penalty_adjustment id contract_id user_id amount reason confirmed_at now = record {
  id = id;
  contract_id = contract_id;
  proposed_by = user_id;
  kind = some ContractAdjustmentKind.surprise_penalty;
  amount = amount;
  reason = some reason;
  status = AdjustmentStatus.applied;
  created_at = confirmed_at;
  updated_at = now;
  resolved_at = some now;
}

unfoldable pub surprise_penalty_by_slug :
    (ℕ → String) → User → String → ℕ → String → ℕ → Action ContractOut
surprise_penalty_by_slug slug_of goddess_user slug amount reason confirmed_at = do
  contract ← require_her_contract slug_of goddess_user slug
  raise_if (not contract.dom_can_add_surprise_penalty) AppError.forbidden
  raise_if (not (contract.status is DebtContractStatus.active)) AppError.conflict
  now ← now_utc
  new_balance ←
      apply_event_and_recompute (money_event contract.id EventType.surprise_penalty amount now)
  adjustment_id ← fresh_id
  save_adjustment
      (penalty_adjustment adjustment_id contract.id goddess_user.id amount reason confirmed_at now)
  append_audit (
      audit_row contract.id DebtContractEventType.surprise_penalty goddess_user.id
        (some contract.status) contract.status)
  let saved = refreshed contract new_balance now
  save_contract saved
  version ← gets (current_version saved)
  notify contract.sub_id NotificationType.contract_surprise_penalty contract.id
  contract_out saved version

-- `_emit_adjustment_event`
unfoldable pub emit_adjustment_event : ℕ → ℕ → Action Done
emit_adjustment_event contract_id amount = do
  now ← now_utc
  apply_event_and_recompute (money_event contract_id EventType.adjustment amount now)
  pure tt

abbrev pub initial_status : MidContractAdditionMode → AdjustmentStatus
initial_status mode =
    if mode is MidContractAdditionMode.dom_controlled
    then AdjustmentStatus.applied
    else AdjustmentStatus.pending_sub_approval

abbrev pub resolved_if : Bool → ℕ → Option ℕ
resolved_if true now = some now
resolved_if false now = none

-- `if status == AdjustmentStatus.applied: ... else: ...`
unfoldable pub announce : DebtContract → ℕ → AdjustmentStatus → Action Done
announce contract amount status =
    if status is AdjustmentStatus.applied
    then emit_adjustment_event contract.id amount
    else notify contract.sub_id NotificationType.contract_adjustment_proposed contract.id

unfoldable pub create_adjustment : User → ℕ → ℕ → Option String → Action ContractAdjustment
create_adjustment goddess_user contract_id amount reason = do
  contract ← get_contract_or_404 contract_id
  goddess_id ← resolve_goddess_id goddess_user.id
  raise_if (not (contract.goddess_id == goddess_id)) AppError.forbidden
  raise_if (not (contract.status is DebtContractStatus.active)) AppError.conflict
  let mode = contract.mid_contract_addition_mode
  raise_if (mode is MidContractAdditionMode.disabled) AppError.forbidden
  now ← now_utc
  let status = initial_status mode
  adjustment_id ← fresh_id
  let adjustment : ContractAdjustment = record {
    id = adjustment_id;
    contract_id = contract.id;
    proposed_by = goddess_user.id;
    kind = none;
    amount = amount;
    reason = reason;
    status = status;
    created_at = now;
    updated_at = now;
    resolved_at = resolved_if (status is AdjustmentStatus.applied) now;
  }
  save_adjustment adjustment
  announce contract amount status
  pure adjustment

-- The guards that `accept_adjustment` and `refuse_adjustment` begin with.
unfoldable pub pending_adjustment : User → ℕ → Action (ContractAdjustment × DebtContract)
pending_adjustment sub_user adjustment_id = do
  found ← gets (λ db. find_row adjustment_id db.adjustments)
  adjustment ← or_raise found AppError.not_found
  contract ← get_contract_or_404 adjustment.contract_id
  raise_if (not (contract.sub_id == sub_user.id)) AppError.forbidden
  raise_if (not (adjustment.status is AdjustmentStatus.pending_sub_approval)) AppError.conflict
  pure (adjustment, contract)

abbrev pub resolved : ContractAdjustment → AdjustmentStatus → ℕ → ContractAdjustment
resolved adjustment status now = record adjustment {
  status = status;
  updated_at = now;
  resolved_at = some now;
}

unfoldable pub accept_adjustment : User → ℕ → Action ContractAdjustment
accept_adjustment sub_user adjustment_id = do
  (adjustment, contract) ← pending_adjustment sub_user adjustment_id
  now ← now_utc
  let saved = resolved adjustment AdjustmentStatus.accepted now
  save_adjustment saved
  emit_adjustment_event contract.id adjustment.amount
  goddess_user_id ← resolve_goddess_user_id contract.goddess_id
  notify_known goddess_user_id NotificationType.contract_adjustment_accepted contract.id
  pure saved

unfoldable pub refuse_adjustment : User → ℕ → Action ContractAdjustment
refuse_adjustment sub_user adjustment_id = do
  (adjustment, contract) ← pending_adjustment sub_user adjustment_id
  now ← now_utc
  let saved = resolved adjustment AdjustmentStatus.refused now
  save_adjustment saved
  goddess_user_id ← resolve_goddess_user_id contract.goddess_id
  notify_known goddess_user_id NotificationType.contract_adjustment_refused contract.id
  pure saved
