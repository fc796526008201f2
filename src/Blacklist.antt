-- ===== src/Blacklist.antt =====
-- server/controllers/blacklist_controller.py with daos/blacklist_dao.py, and `list_active_for_sub` and
-- `revoke_all_refresh_for_user` of the DAOs that it calls.
pub mod Effect
use debt_collector.Common.{
  ℕ, ◌+◌, Bool, true, false, not, ◌&&◌, Option, none, some, List, [], ◌∷◌, ◌==◌, ◌==?◌, ◌is◌,
  is_none, map, if◌then◌else◌, String,
}
use debt_collector.Common.Int.{ℤ, pos, ◌+ℤ◌, ltb_ℤ}
use debt_collector.Common.Table.{find_row, put_row, rows}
use debt_collector.Common.Lists.{select}
use debt_collector.Model.{
  User, UserStatus, user_status_enum, DebtContract, DebtContractStatus, DebtContractEventType,
  RefreshToken, BlacklistEntry, NotificationType, Db, Action, Done, AppError, or_raise, raise_if,
  gets, modify, pure, when, now_utc, fresh_id, ◌>>=◌, ◌>>◌,
}
use debt_collector.Session.{
  resolve_goddess_id, notify, get_contract_or_404, save_contract, append_audit,
}
use debt_collector.Debt.Propose.{audit_row}
use debt_collector.Job.Daily.{active_contracts}

-- The sub, where there is one and it is hers.
abbrev pub sub_of : ℕ → Option User → Option User
sub_of goddess_id none = none
sub_of goddess_id (some u) = if u.goddess_id ==? goddess_id then some u else none

-- The loop over the active contracts: the sum of their balances before it.
unfoldable pub breach_contract : ℕ → ℕ → Action ℤ
breach_contract actor_id contract_id = do
  contract ← get_contract_or_404 contract_id
  now ← now_utc
  save_contract (record contract { status = DebtContractStatus.breached; updated_at = now })
  append_audit (
      audit_row contract.id DebtContractEventType.breached actor_id (some contract.status)
        DebtContractStatus.breached)
  pure contract.balance

unfoldable pub breach_all : ℕ → List ℕ → Action ℤ
breach_all actor_id [] = pure (pos 0)
breach_all actor_id (id ∷ ids) = do
  balance ← breach_contract actor_id id
  snapshot ← breach_all actor_id ids
  pure (balance +ℤ snapshot)

-- The active contracts of the sub, breached.
unfoldable pub breach_active : ℕ → ℕ → Action ℤ
breach_active actor_id sub_id = do
  contracts ← gets (active_contracts sub_id)
  breach_all actor_id contracts

unfoldable pub save_user : User → Action Done
save_user user = modify (λ db. record db { users = put_row user.id user db.users })

abbrev pub revoke_tokens : ℕ → ℕ → List RefreshToken → List RefreshToken
revoke_tokens user_id now [] = []
revoke_tokens user_id now (t ∷ ts) =
    (if t.user_id == user_id && is_none t.revoked_at then record t { revoked_at = some now } else t)
    ∷ revoke_tokens user_id now ts

unfoldable pub revoke_all_refresh_for_user : ℕ → Action Done
revoke_all_refresh_for_user user_id =
    modify λ db. record db { refresh_tokens = revoke_tokens user_id db.clock db.refresh_tokens }

unfoldable pub save_entry : BlacklistEntry → Action Done
save_entry entry = modify (λ db. record db { blacklist = put_row entry.id entry db.blacklist })

unfoldable pub breach : User → ℕ → Option String → Action BlacklistEntry
breach goddess_user sub_id reason = do
  goddess_id ← resolve_goddess_id goddess_user.id
  found ← gets (λ db. sub_of goddess_id (find_row sub_id db.users))
  sub ← or_raise found AppError.not_found
  raise_if (sub.status is UserStatus.blacklisted) AppError.conflict
  now ← now_utc
  snapshot ← breach_active goddess_user.id sub_id
  save_user (record sub { status = UserStatus.blacklisted })
  revoke_all_refresh_for_user sub_id
  entry_id ← fresh_id
  let entry : BlacklistEntry = record {
    id = entry_id;
    goddess_id = goddess_id;
    sub_id = sub_id;
    reason = reason;
    balance_snapshot = snapshot;
    reinstatement_fee_paid = none;
    breached_at = now;
    forgiven_at = none;
  }
  save_entry entry
  notify sub_id NotificationType.contract_breached entry_id
  pure entry

-- `if sub is not None: ...`
unfoldable pub reinstate : Option User → Action Done
reinstate none = pure tt
reinstate (some sub) = save_user (record sub { status = UserStatus.active })

unfoldable pub forgive : User → ℕ → ℤ → Action BlacklistEntry
forgive goddess_user entry_id reinstatement_fee_paid = do
  goddess_id ← resolve_goddess_id goddess_user.id
  found ← gets (λ db. find_row entry_id db.blacklist)
  entry ← or_raise found AppError.not_found
  raise_if (not (entry.goddess_id == goddess_id)) AppError.forbidden
  raise_if (not (is_none entry.forgiven_at)) AppError.conflict
  raise_if (ltb_ℤ reinstatement_fee_paid (pos 0)) AppError.bad_request
  now ← now_utc
  let saved = record entry {
    forgiven_at = some now;
    reinstatement_fee_paid = some reinstatement_fee_paid;
  }
  save_entry saved
  sub ← gets (λ db. find_row entry.sub_id db.users)
  reinstate sub
  notify entry.sub_id NotificationType.contract_forgiven entry.id
  pure saved
