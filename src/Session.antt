-- ===== src/Session.antt =====
-- What the controllers share: server/controllers/_goddess.py, services/notifications/notify.py, the
-- row accesses of server/daos/debt_dao.py, and daos/allocation_dao.py.
pub mod Allocation
pub mod Leaves
use debt_collector.Common.{
  ℕ, ◌+◌, Bool, true, false, ◌&&◌, Option, none, some, List, [], ◌∷◌, ◌++◌, ◌==◌, ◌==?◌, ◌is◌,
  if◌then◌else◌,
}
use debt_collector.Common.Table.{find_row, put_row, rows}
use debt_collector.Common.Lists.{select}
use debt_collector.Model.{
  User, UserRole, role_enum, Notification, NotificationType, Published, DebtContract,
  DebtContractVersion, DebtContractAudit, Db, Action, Done, AppError, or_raise, raise_if, gets,
  modify, pure, one_or_none, ◌>>=◌, ◌>>◌,
}

-- The goddess profile of a user, where the user and the profile exist.
abbrev pub goddess_of : ℕ → Db → Option ℕ
goddess_of user_id db = elim (find_row user_id db.users) [
  | none ↦ none
  | some user ↦ elim user.goddess_id [
    | none ↦ none
    | some g ↦ elim (find_row g db.goddesses) [ none ↦ none | some profile ↦ some g ]
  ]
]

unfoldable pub resolve_goddess_id : ℕ → Action ℕ
resolve_goddess_id user_id = do found ← gets (goddess_of user_id); or_raise found AppError.forbidden

abbrev pub id_of : Option User → Option ℕ
id_of none = none
id_of (some user) = some user.id

unfoldable pub resolve_goddess_user_id : ℕ → Action (Option ℕ)
resolve_goddess_user_id goddess_id = do
  found ← gets (λ db.
      select (λ u. u.goddess_id ==? goddess_id && (u.role is UserRole.goddess)) (rows db.users))
  user ← one_or_none found
  pure (id_of user)

-- The row, and the event that the publisher sends after it.
abbrev pub notified : ℕ → NotificationType → ℕ → Db → Db
notified user_id type subject_id db = record db {
  notifications =
      db.notifications ++ record { user_id = user_id; type = type; subject_id = subject_id } ∷ [];
  published = db.published ++ Published.notification user_id type ∷ [];
}

unfoldable pub notify : ℕ → NotificationType → ℕ → Action Done
notify user_id type subject_id = modify (notified user_id type subject_id)

unfoldable pub publish_event : Published → Action Done
publish_event event = modify (λ db. record db { published = db.published ++ event ∷ [] })

-- `if user_id is not None: await notify(...)`
unfoldable pub notify_known : Option ℕ → NotificationType → ℕ → Action Done
notify_known none type subject_id = pure tt
notify_known (some user_id) type subject_id = notify user_id type subject_id

unfoldable pub get_contract_or_404 : ℕ → Action DebtContract
get_contract_or_404 contract_id = do
  found ← gets (λ db. find_row contract_id db.contracts)
  or_raise found AppError.not_found

unfoldable pub save_contract : DebtContract → Action Done
save_contract contract =
    modify (λ db. record db { contracts = put_row contract.id contract db.contracts })

unfoldable pub create_version : DebtContractVersion → Action Done
create_version version =
    modify (λ db. record db { versions = put_row version.id version db.versions })

unfoldable pub append_audit : DebtContractAudit → Action Done
append_audit audit = modify (λ db. record db { audits = db.audits ++ audit ∷ [] })

-- The versions of a contract. The callers look for a round number only, so the order by round that
-- the query asks for is left out.
unfoldable pub list_versions : ℕ → Action (List DebtContractVersion)
list_versions contract_id =
    gets (λ db. select (λ v. v.contract_id == contract_id) (rows db.versions))

-- `_load_current_version`
abbrev pub current_version : DebtContract → Db → Option DebtContractVersion
current_version contract db = elim contract.current_version_id [
  | none ↦ none
  | some version_id ↦ find_row version_id db.versions
]
