-- ===== src/Debt/Leaves.antt =====
-- The rules of Model/Leaves for the helpers of the debt controller.
use debt_collector.Common.{
  ◌&&◌, ℕ, List, refl, not-false, arith, true, ◌≡◌, Option, none, some, ◌||◌, ◌is◌,
}
use debt_collector.Model.{
  Db, Action, Done, User, UserRole, DebtContract, DebtContractStatus, contract_status_enum,
  DebtContractVersion, Published, ◌>>=◌,
}
use debt_collector.Model.Leaves.{
  Leaves, Leaves-gets, Leaves-pure, Leaves-raise_if, Leaves-assoc, Leaves-pure_bind,
  Leaves-raise_bind,
}
use debt_collector.Session.Leaves.{Leaves-publish, Leaves-goddess, Leaves-goddess_user}
use debt_collector.Debt.Propose.{
  ContractOut, contract_out, is_linked, assert_sub_belongs_to_goddess,
}
use debt_collector.Debt.Sign.{publish_state}
use debt_collector.Debt.Counter.{counter_target_as, counter_party_of}

pub Leaves-contract_out :
    {P : ContractOut → Db → Type 0} (c : DebtContract) (v : Option DebtContractVersion) (db : Db)
    → ((out : ContractOut) → out.contract ≡ c → P out db)
    → Leaves P (contract_out c v db)
unfolding contract_out
Leaves-contract_out c v db h = Leaves-gets _ _ db (Leaves-pure _ db (h _ refl))

module _ {B : Type 0} {P : B → Db → Type 0} where
  pub Leaves-linked :
      (goddess_id sub_id : ℕ) (k : Done → Action B) (db : Db)
      → (is_linked goddess_id sub_id db ≡ true → Leaves P (k tt db))
      → Leaves P ((assert_sub_belongs_to_goddess goddess_id sub_id >>= k) db)
  unfolding assert_sub_belongs_to_goddess
  Leaves-linked goddess_id sub_id k db h =
      Leaves-assoc _ _ k db (Leaves-gets _ _ db (Leaves-raise_if _ _ k db λ e. h (not-false _ e)))

  -- Only a proposal that the actor has not made is countered.
  pub Leaves-counter_target :
      (role : UserRole) (actor : User) (c : DebtContract) (k : DebtContractStatus → Action B)
      (db : Db)
      → ((to : DebtContractStatus)
          → ((c.status is DebtContractStatus.pending_sub)
                && (to is DebtContractStatus.pending_dom_counter)
              || (c.status is DebtContractStatus.pending_dom)
                && (to is DebtContractStatus.pending_sub_signature))
            ≡ true
          → Leaves P (k to db))
      → Leaves P ((counter_target_as role actor c >>= k) db)
  unfolding counter_target_as
  Leaves-counter_target UserRole.sub actor c k db h = Leaves-assoc _ _ k db (
      Leaves-raise_if _ _ _ db λ own.
        Leaves-assoc _ _ k db
          (Leaves-raise_if _ _ _ db λ asked. Leaves-pure_bind _ k db (h _ (ground arith))))
  Leaves-counter_target UserRole.goddess actor c k db h = Leaves-assoc _ _ k db (
      Leaves-goddess _ _ db λ g at. Leaves-assoc _ _ k db (
        Leaves-raise_if _ _ _ db λ own.
          Leaves-assoc _ _ k db
            (Leaves-raise_if _ _ _ db λ asked. Leaves-pure_bind _ k db (h _ (ground arith)))))
  Leaves-counter_target UserRole.admin actor c k db h = Leaves-raise_bind _ k db

  pub Leaves-counter_party :
      (role : UserRole) (c : DebtContract) (k : Option ℕ → Action B) (db : Db)
      → ((o : Option ℕ) → Leaves P (k o db))
      → Leaves P ((counter_party_of role c >>= k) db)
  unfolding counter_party_of
  Leaves-counter_party UserRole.sub c k db h = Leaves-goddess_user _ k db h
  Leaves-counter_party UserRole.goddess c k db h = Leaves-pure_bind _ k db (h _)
  Leaves-counter_party UserRole.admin c k db h = Leaves-pure_bind _ k db (h _)

  pub Leaves-publish_state :
      (o : Option ℕ) (sub_id contract_id : ℕ) (k : Done → Action B) (db : Db)
      → ((events : List Published) → Leaves P (k tt (record db { published = events })))
      → Leaves P ((publish_state o sub_id contract_id >>= k) db)
  unfolding publish_state
  Leaves-publish_state none sub_id contract_id k db h = Leaves-publish _ k db (h _)
  Leaves-publish_state (some u) sub_id contract_id k db h =
      Leaves-assoc _ _ k db (Leaves-publish _ _ db (Leaves-publish _ k _ (h _)))
