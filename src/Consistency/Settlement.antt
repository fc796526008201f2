-- ===== src/Consistency/Settlement.antt =====
-- Lemmas on debt payments and buyouts, for the ledger invariant.
use debt_collector.Common.{
  not-false, subst, sym, ◌∙◌, some_inj, ℕ, ◌≡◌, refl, true, none, some, arith, ◌is◌, Option,
}
use debt_collector.Common.Table.{find_row}
use debt_collector.Model.{
  Db, Action, DebtContract, DebtContractStatus, contract_status_enum, ◌>>=◌, PaymentDeclaration,
}
use debt_collector.Model.Leaves.{
  Leaves, Leaves-raise_if, Leaves-or_raise, Leaves-now_utc, Leaves-gets, Leaves-pure, Leaves-assoc,
  Leaves-pure_bind, Leaves-last,
}
use debt_collector.Session.Leaves.{
  Leaves-goddess_user, Leaves-notify_known, Leaves-save_contract, Leaves-append_audit,
}
use debt_collector.Debt.Leaves.{Leaves-publish_state}
use debt_collector.Payment.Effects.{
  owned_contract, load_active_contract_for_sub, apply_debt_payment, apply_buyout,
}
use debt_collector.Consistency.Lifecycle.{Evolves, Follows-status, Forward-save, Forward-balance}
use debt_collector.Consistency.Invariant.{IsConsistent}
use debt_collector.Consistency.Events.{after_event-IsConsistent, after_event-saved, Leaves-event}

owned_contract-some :
    (sub_id : ℕ) (o : Option DebtContract) (c : DebtContract)
    → owned_contract sub_id o ≡ some c
    → (o ≡ some c) × (c.sub_id ≡ sub_id)
owned_contract-some sub_id none c h = ground arith
owned_contract-some sub_id (some d) c h = ground arith

module _ {B : Type 0} {P : B → Db → Type 0} where
  -- A contract that is loaded for a payment is its target, the sub's own, and active.
  pub Leaves-loaded :
      (sub_id : ℕ) (target_id : Option ℕ) (k : DebtContract → Action B) (db : Db)
      → ((c : DebtContract) (j : ℕ)
          → target_id ≡ some j
          → find_row j db.contracts ≡ some c
          → c.sub_id ≡ sub_id
          → (c.status is DebtContractStatus.active) ≡ true
          → Leaves P (k c db))
      → Leaves P ((load_active_contract_for_sub sub_id target_id >>= k) db)
  unfolding load_active_contract_for_sub
  Leaves-loaded sub_id target_id k db h = Leaves-assoc _ _ k db (
      Leaves-or_raise _ _ _ db λ j target. Leaves-assoc _ _ k db (
        Leaves-gets _ _ db (
          Leaves-assoc _ _ k db (
            Leaves-or_raise _ _ _ db λ c owned. Leaves-assoc _ _ k db (
              Leaves-raise_if _ _ _ db λ active. Leaves-pure_bind c k db (
                let (found, own) = owned_contract-some sub_id _ c owned in
                h c j target found own (not-false _ active)))))))

same_target :
    (o : Option ℕ) (d : Db) (c : DebtContract) (j i : ℕ)
    → o ≡ some j
    → o ≡ some i
    → find_row j d.contracts ≡ some c
    → find_row i d.contracts ≡ some c
same_target o d c j i target same found =
    subst (λ (x : ℕ). find_row x d.contracts ≡ some c) (some_inj (sym target ∙ same)) found

-- A debt payment keeps the invariant.
pub apply_debt_payment-Evolves :
    (decl : PaymentDeclaration) (sub_id : ℕ) (db : Db)
    → IsConsistent db
    → Leaves (λ _. Evolves db) (apply_debt_payment decl sub_id db)
unfolding apply_debt_payment
apply_debt_payment-Evolves decl sub_id db inv =
    Leaves-loaded sub_id _ _ db λ c j target found own active. Leaves-or_raise _ _ _ db λ i same.
      Leaves-now_utc _ db (
        let at = same_target decl.target_id db c j i target same found in
        Leaves-event _ c _ db at (
          Leaves-pure _ _ (
            after_event-IsConsistent _ db c inv at (ground arith),
            Forward-balance db.contracts _ c _ at,
          )))

-- A buyout keeps the invariant.
pub apply_buyout-Evolves :
    (decl : PaymentDeclaration) (sub_id actor_id now : ℕ) (db : Db)
    → IsConsistent db
    → Leaves (λ _. Evolves db) (apply_buyout decl sub_id actor_id now db)
unfolding apply_buyout
apply_buyout-Evolves decl sub_id actor_id now db inv =
    Leaves-loaded sub_id _ _ db λ c j target found own active. Leaves-or_raise _ _ _ db λ i same.
      let at = same_target decl.target_id db c j i target same found in
      Leaves-event _ c _ db at (
        Leaves-save_contract _ _ _ (
          Leaves-append_audit _ _ _ (
            Leaves-goddess_user _ _ _ λ o. Leaves-notify_known _ _ _ _ _ λ ns ps. Leaves-last _ _ (
              Leaves-publish_state _ _ _ _ _ λ qs. Leaves-pure _ _ (
                (
                  after_event-saved _ db c _ inv at (ground arith) refl refl refl (ground arith),
                  Forward-save db _ i c _ inv at (Forward-balance db.contracts _ c _ at)
                      (Follows-status c _ refl refl refl refl (ground arith)),
                ))))))
