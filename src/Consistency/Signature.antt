-- ===== src/Consistency/Signature.antt =====
-- Lemmas on signing, cancelling and changing the clauses, for the ledger invariant.
use debt_collector.Common.{
  ◌&&◌, ◌is◌, Bool-cases, inl, inr, ℕ, ◌≤◌, ◌≡◌, refl, Bool, true, false, some, List, [], ◌∷◌,
  arith, String,
}
use debt_collector.Common.Table.{find_row, put_row}
use debt_collector.Model.{
  DebtContractStatus, Db, User, DebtContract, contract_status_enum, ContractClause,
}
use debt_collector.Model.Leaves.{
  Leaves, Leaves-raise_if, Leaves-now_utc, Leaves-gets, Leaves-modify, Leaves-assoc,
  Leaves-pure_bind,
}
use debt_collector.Session.Leaves.{
  Leaves-contract, Leaves-goddess, Leaves-goddess_user, Leaves-notify_known, Leaves-save_contract,
  Leaves-append_audit, Leaves-when-audit, Leaves-when-notify,
}
use debt_collector.Debt.Sign.{sign_as_sub, close_as_goddess}
use debt_collector.Debt.Clauses.{
  is_terminal, ContractClauseIn, normalize_clauses, ids_used, next_after, with_clauses,
  update_clauses,
}
use debt_collector.Debt.Leaves.{Leaves-contract_out, Leaves-publish_state}
use debt_collector.Consistency.Lifecycle.{
  can_become_refl, Evolves, Follows, Follows-status, Forward-refl, Forward-save,
}
use debt_collector.Consistency.Invariant.{IsConsistent, LedgerOk, is_negotiating}
use debt_collector.Consistency.Writes.{LedgerOk-fresh, LedgerOk-save}

-- Signing keeps the invariant.
pub sign_as_sub-Evolves :
    (u : User) (contract_id : ℕ) (signature : String) (db : Db)
    → IsConsistent db
    → Leaves (λ _. Evolves db) (sign_as_sub u contract_id signature db)
unfolding sign_as_sub
sign_as_sub-Evolves u contract_id signature db inv = Leaves-contract contract_id _ db λ c found.
    Leaves-raise_if _ _ _ db λ own. Leaves-raise_if _ _ _ db λ signable. Leaves-now_utc _ db (
      Leaves-save_contract _ _ _ (
        Leaves-gets _ _ _ (
          Leaves-append_audit _ _ _ (
            Leaves-goddess_user _ _ _ λ o. Leaves-notify_known _ _ _ _ _ λ ns ps.
              Leaves-publish_state _ _ _ _ _ λ qs. Leaves-contract_out _ _ _ λ out e. (
                LedgerOk-save inv contract_id c _ found refl refl refl (λ h. ground arith),
                Forward-save db db.contracts contract_id c _ inv found (Forward-refl _)
                    (Follows-status c _ refl refl refl refl (ground arith)),
              )))))

-- Cancelling keeps the invariant.
pub close_as_goddess-Evolves :
    (u : User) (contract_id : ℕ) (db : Db)
    → IsConsistent db
    → Leaves (λ _. Evolves db) (close_as_goddess u contract_id db)
unfolding close_as_goddess
close_as_goddess-Evolves u contract_id db inv = Leaves-contract contract_id _ db λ c found.
    Leaves-goddess u.id _ db λ g at. Leaves-raise_if _ _ _ db λ own.
      Leaves-raise_if _ _ _ db λ pending. Leaves-now_utc _ db (
        Leaves-save_contract _ _ _ (
          Leaves-gets _ _ _ (
            Leaves-append_audit _ _ _ (
              Leaves-contract_out _ _ _ λ out e. (
                LedgerOk-save inv contract_id c _ found refl refl refl (λ h. ground arith),
                Forward-save db db.contracts contract_id c _ inv found (Forward-refl _)
                    (Follows-status c _ refl refl refl refl (ground arith)),
              )))))

-- The ids that the clauses take come from the supply.
pub ids_used-bound : (n : ℕ) (cs : List ContractClauseIn) → n ≤ ids_used n cs
unfolding ids_used
ids_used-bound n [] = omega arith
ids_used-bound n (c ∷ cs) = ground (arith, ids_used-bound (next_after c.id n) cs)

with_clauses-keeps :
    (c : DebtContract) (cs : List ContractClause) (resign : Bool) (now : ℕ)
    → ((with_clauses c cs resign now).id ≡ c.id)
      × ((with_clauses c cs resign now).balance ≡ c.balance)
      × ((with_clauses c cs resign now).principal ≡ c.principal)
      × (is_negotiating (with_clauses c cs resign now).status ≡ true
          → is_negotiating c.status ≡ true)
with_clauses-keeps c cs true now = (refl, refl, refl, λ h. ground arith)
with_clauses-keeps c cs false now = (refl, refl, refl, λ h. h)

with_clauses-Follows :
    (c : DebtContract) (cs : List ContractClause) (changed : Bool) (now : ℕ)
    → is_terminal c.status ≡ false
    → Follows c (with_clauses c cs (changed && (c.status is DebtContractStatus.active)) now)
with_clauses-Follows c cs changed now open_still =
    elim (Bool-cases (changed && (c.status is DebtContractStatus.active))) [
      | inl resign ↦ rw resign (Follows-status c _ refl refl refl refl (ground arith))
      | inr keep ↦ rw keep (Follows-status c _ refl refl refl refl (can_become_refl c.status))
    ]

-- Changing the clauses keeps the invariant.
pub update_clauses-Evolves :
    (u : User) (contract_id : ℕ) (clauses : List ContractClauseIn) (db : Db)
    → IsConsistent db
    → Leaves (λ _. Evolves db) (update_clauses u contract_id clauses db)
unfolding update_clauses normalize_clauses
update_clauses-Evolves u contract_id clauses db inv = Leaves-contract contract_id _ db λ c found.
    Leaves-goddess u.id _ db λ g at. Leaves-raise_if _ _ _ db λ own.
      Leaves-raise_if _ _ _ db λ terminal. Leaves-assoc _ _ _ db (
        Leaves-gets _ _ db (
          Leaves-assoc _ _ _ db (
            Leaves-modify _ _ db (
              Leaves-pure_bind _ _ _ (
                Leaves-now_utc _ _ (
                  Leaves-save_contract _ _ _ (
                    Leaves-when-audit _ _ _ _ λ audits. Leaves-when-notify _ _ _ _ _ _ λ ns ps.
                      Leaves-gets _ _ _ (
                        Leaves-contract_out _ _ _ λ out e. (
                          kept c found _ _ _,
                          Forward-save db db.contracts contract_id c _ inv found (Forward-refl _)
                              (with_clauses-Follows c _ _ _ terminal),
                        )))))))))
  where
    kept :
        (c : DebtContract)
        → find_row contract_id db.contracts ≡ some c
        → (cs : List ContractClause) (resign : Bool) (now : ℕ)
        → LedgerOk
            (put_row (with_clauses c cs resign now).id (with_clauses c cs resign now) db.contracts)
            db.events
            db.adjustments
            (ids_used db.next_id clauses)
    kept c found cs resign now =
        let (id, balance, principal, back) = with_clauses-keeps c cs resign now in
        LedgerOk-fresh
          (LedgerOk-save inv contract_id c (with_clauses c cs resign now) found id balance principal
            back)
          _ (ids_used-bound db.next_id clauses)
