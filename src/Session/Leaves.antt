-- ===== src/Session/Leaves.antt =====
-- The rules of Model/Leaves for the actions that the controllers share. A notification leaves every
-- other table alone, so the rest of a block is proved for both ways it may go.
use debt_collector.Common.{Bool, ℕ, ◌≡◌, ◌==◌, Option, none, some, List, [], ◌∷◌, ◌++◌}
use debt_collector.Common.Table.{find_row, put_row, rows}
use debt_collector.Common.Lists.{select}
use debt_collector.Model.{
  Db, Action, Done, Notification, DebtContract, DebtContractVersion, DebtContractAudit,
  NotificationType, Published, when, ◌>>=◌,
}
use debt_collector.Model.Leaves.{
  Leaves, Leaves-gets, Leaves-or_raise, Leaves-assoc, Leaves-modify, Leaves-pure_bind, Leaves-when,
  Leaves-one_or_none,
}
use debt_collector.Session.{
  goddess_of, resolve_goddess_id, resolve_goddess_user_id, notified, notify, notify_known,
  publish_event, get_contract_or_404, save_contract, create_version, append_audit, list_versions,
  id_of,
}

module _ {B : Type 0} {P : B → Db → Type 0} where
  pub Leaves-contract :
      (contract_id : ℕ) (k : DebtContract → Action B) (db : Db)
      → ((c : DebtContract) → find_row contract_id db.contracts ≡ some c → Leaves P (k c db))
      → Leaves P ((get_contract_or_404 contract_id >>= k) db)
  unfolding get_contract_or_404
  Leaves-contract contract_id k db h =
      Leaves-assoc _ _ k db (Leaves-gets _ _ db (Leaves-or_raise _ _ k db h))

  pub Leaves-goddess :
      (user_id : ℕ) (k : ℕ → Action B) (db : Db)
      → ((g : ℕ) → goddess_of user_id db ≡ some g → Leaves P (k g db))
      → Leaves P ((resolve_goddess_id user_id >>= k) db)
  unfolding resolve_goddess_id
  Leaves-goddess user_id k db h =
      Leaves-assoc _ _ k db (Leaves-gets _ _ db (Leaves-or_raise _ _ k db h))

  pub Leaves-goddess_user :
      (goddess_id : ℕ) (k : Option ℕ → Action B) (db : Db)
      → ((o : Option ℕ) → Leaves P (k o db))
      → Leaves P ((resolve_goddess_user_id goddess_id >>= k) db)
  unfolding resolve_goddess_user_id
  Leaves-goddess_user goddess_id k db h = Leaves-assoc _ _ k db (
      Leaves-gets _ _ db (
        Leaves-assoc _ _ k db
          (Leaves-one_or_none _ _ db λ o. Leaves-pure_bind (id_of o) k db (h (id_of o)))))

  pub Leaves-versions :
      (contract_id : ℕ) (k : List DebtContractVersion → Action B) (db : Db)
      → Leaves P (k (select (λ v. v.contract_id == contract_id) (rows db.versions)) db)
      → Leaves P ((list_versions contract_id >>= k) db)
  unfolding list_versions
  Leaves-versions contract_id k db h = Leaves-gets _ k db h

  pub Leaves-notify :
      (user_id : ℕ) (type : NotificationType) (subject_id : ℕ) (k : Done → Action B) (db : Db)
      → Leaves P (k tt (notified user_id type subject_id db))
      → Leaves P ((notify user_id type subject_id >>= k) db)
  unfolding notify
  Leaves-notify user_id type subject_id k db h = Leaves-modify _ k db h

  pub Leaves-publish :
      (event : Published) (k : Done → Action B) (db : Db)
      → Leaves P (k tt (record db { published = db.published ++ event ∷ [] }))
      → Leaves P ((publish_event event >>= k) db)
  unfolding publish_event
  Leaves-publish event k db h = Leaves-modify _ k db h

  pub Leaves-notify_known :
      (o : Option ℕ) (type : NotificationType) (subject_id : ℕ) (k : Done → Action B) (db : Db)
      → ((ns : List Notification) (ps : List Published)
          → Leaves P (k tt (record db { notifications = ns; published = ps })))
      → Leaves P ((notify_known o type subject_id >>= k) db)
  unfolding notify_known
  Leaves-notify_known none type subject_id k db h = Leaves-pure_bind tt k db (h _ _)
  Leaves-notify_known (some u) type subject_id k db h = Leaves-notify u type subject_id k db (h _ _)

  pub Leaves-save_contract :
      (c : DebtContract) (k : Done → Action B) (db : Db)
      → Leaves P (k tt (record db { contracts = put_row c.id c db.contracts }))
      → Leaves P ((save_contract c >>= k) db)
  unfolding save_contract
  Leaves-save_contract c k db h = Leaves-modify _ k db h

  pub Leaves-create_version :
      (v : DebtContractVersion) (k : Done → Action B) (db : Db)
      → Leaves P (k tt (record db { versions = put_row v.id v db.versions }))
      → Leaves P ((create_version v >>= k) db)
  unfolding create_version
  Leaves-create_version v k db h = Leaves-modify _ k db h

  pub Leaves-append_audit :
      (a : DebtContractAudit) (k : Done → Action B) (db : Db)
      → Leaves P (k tt (record db { audits = db.audits ++ a ∷ [] }))
      → Leaves P ((append_audit a >>= k) db)
  unfolding append_audit
  Leaves-append_audit a k db h = Leaves-modify _ k db h

  pub Leaves-when-audit :
      (b : Bool) (a : DebtContractAudit) (k : Done → Action B) (db : Db)
      → ((audits : List DebtContractAudit) → Leaves P (k tt (record db { audits = audits })))
      → Leaves P ((when b (append_audit a) >>= k) db)
  Leaves-when-audit b a k db h =
      Leaves-when b _ k db (λ _. Leaves-append_audit a k db (h _)) (λ _. h _)

  pub Leaves-when-notify :
      (b : Bool) (user_id : ℕ) (type : NotificationType) (subject_id : ℕ) (k : Done → Action B)
      (db : Db)
      → ((ns : List Notification) (ps : List Published)
          → Leaves P (k tt (record db { notifications = ns; published = ps })))
      → Leaves P ((when b (notify user_id type subject_id) >>= k) db)
  Leaves-when-notify b user_id type subject_id k db h =
      Leaves-when b _ k db (λ _. Leaves-notify user_id type subject_id k db (h _ _)) (λ _. h _ _)
