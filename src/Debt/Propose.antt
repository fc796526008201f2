-- ===== src/Debt/Propose.antt =====
-- server/controllers/debt/controller.py: `propose_as_goddess` and `propose_as_sub`, with the helpers
-- that return a contract.
use debt_collector.Common.{ℕ, Bool, true, false, not, Option, none, some, [], ◌==?◌}
use debt_collector.Common.Int.{pos}
use debt_collector.Common.Table.{find_row}
use debt_collector.Model.{
  User, NotificationType, DebtContract, DebtContractVersion, DebtContractAudit,
  DebtContractEventType, DebtContractStatus, RenewalPolicy, Terms, Db, Action, Done, AppError,
  or_raise, raise_if, gets, pure, fresh_id, now_utc, ◌>>=◌, ◌>>◌,
}
use debt_collector.Session.{
  resolve_goddess_id, resolve_goddess_user_id, notify, notify_known, save_contract, create_version,
  append_audit,
}
use debt_collector.Session.Allocation.{ContractPaymentStats, stats_for_contract}

-- `contract_out`: the rows from which the response is built.
pub record ContractOut : Type 0 where
  pub contract : DebtContract
  pub current_version : Option DebtContractVersion
  pub stats : ContractPaymentStats

-- `_stats_for` and `contract_out`, which end every handler.
unfoldable pub contract_out : DebtContract → Option DebtContractVersion → Action ContractOut
contract_out contract version = do
  stats ← gets (stats_for_contract contract.id)
  pure (record { contract = contract; current_version = version; stats = stats })

-- The row that a proposal adds, with the defaults of its other columns.
abbrev pub proposed_contract : ℕ → ℕ → ℕ → Bool → Terms → DebtContractStatus → ℕ → DebtContract
proposed_contract id sub_id goddess_id sub_initiated payload status now = record {
  id = id;
  sub_id = sub_id;
  goddess_id = goddess_id;
  sub_initiated = sub_initiated;
  terms = payload;
  status = status;
  current_version_id = none;
  clauses_json = [];
  renewal_policy = RenewalPolicy.none_policy;
  signed_at = none;
  signature_b64 = none;
  review_at = none;
  balance = pos payload.principal;
  created_at = now;
  updated_at = now;
}

abbrev pub version_row : ℕ → ℕ → ℕ → ℕ → Terms → DebtContractVersion
version_row id contract_id round_no proposed_by payload = record {
  id = id;
  contract_id = contract_id;
  round_no = round_no;
  proposed_by = proposed_by;
  terms = payload;
}

abbrev pub audit_row :
    ℕ
    → DebtContractEventType
    → ℕ
    → Option DebtContractStatus
    → DebtContractStatus
    → DebtContractAudit
audit_row contract_id event_type actor_id from_status to_status = record {
  contract_id = contract_id;
  event_type = event_type;
  actor_id = actor_id;
  from_status = from_status;
  to_status = to_status;
  source_contract_id = none;
}

-- `SELECT ... WHERE user.id = sub_id AND user.goddess_id = goddess_id`
abbrev pub is_linked : ℕ → ℕ → Db → Bool
is_linked goddess_id sub_id db = elim (find_row sub_id db.users) [
  | none ↦ false
  | some user ↦ user.goddess_id ==? goddess_id
]

unfoldable pub assert_sub_belongs_to_goddess : ℕ → ℕ → Action Done
assert_sub_belongs_to_goddess goddess_id sub_id = do
  linked ← gets (is_linked goddess_id sub_id)
  raise_if (not linked) AppError.not_found

unfoldable pub propose_as_goddess : User → ℕ → Terms → Action ContractOut
propose_as_goddess goddess_user sub_id payload = do
  goddess_id ← resolve_goddess_id goddess_user.id
  assert_sub_belongs_to_goddess goddess_id sub_id
  now ← now_utc
  contract_id ← fresh_id
  let contract =
      proposed_contract contract_id sub_id goddess_id false payload DebtContractStatus.pending_sub
        now
  save_contract contract
  version_id ← fresh_id
  let version = version_row version_id contract_id 0 goddess_user.id payload
  create_version version
  let saved = record contract { current_version_id = some version_id; updated_at = now }
  save_contract saved
  append_audit (
      audit_row contract_id DebtContractEventType.proposed goddess_user.id none
        DebtContractStatus.pending_sub)
  notify sub_id NotificationType.contract_proposed contract_id
  contract_out saved (some version)

unfoldable pub propose_as_sub : User → Terms → Action ContractOut
propose_as_sub sub_user payload = do
  goddess_id ← or_raise sub_user.goddess_id AppError.bad_request
  now ← now_utc
  contract_id ← fresh_id
  let contract =
      proposed_contract contract_id sub_user.id goddess_id true payload
        DebtContractStatus.pending_dom now
  save_contract contract
  version_id ← fresh_id
  let version = version_row version_id contract_id 0 sub_user.id payload
  create_version version
  let saved = record contract { current_version_id = some version_id; updated_at = now }
  save_contract saved
  append_audit (
      audit_row contract_id DebtContractEventType.proposed sub_user.id none
        DebtContractStatus.pending_dom)
  goddess_user_id ← resolve_goddess_user_id goddess_id
  notify_known goddess_user_id NotificationType.contract_proposed contract_id
  contract_out saved (some version)
