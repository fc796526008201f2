-- ===== src/Consistency/Adjustments.antt =====
-- Lemmas on surprise penalties and adjustments, for the ledger invariant.
use debt_collector.Common.{ℕ, ◌+◌, ◌≡◌, refl, sym, false, some, arith, String, Option, subst}
use debt_collector.Common.Table.{find_row, put_row}
use debt_collector.Model.{
  Db, User, Action, Done, DebtContract, EventType, contract_status_enum, ◌>>=◌, AdjustmentStatus,
  adjustment_status_enum, ContractAdjustment, NotificationType,
}
use debt_collector.Model.Leaves.{
  Leaves, Leaves-raise_if, Leaves-or_raise, Leaves-now_utc, Leaves-gets, Leaves-modify, Leaves-pure,
  Leaves-assoc, Leaves-pure_bind, Leaves-fresh_id,
}
use debt_collector.Session.Leaves.{
  Leaves-contract, Leaves-goddess, Leaves-goddess_user, Leaves-notify, Leaves-notify_known,
  Leaves-save_contract,
}
use debt_collector.Session.{notified}
use debt_collector.Ledger.Apply.{after_event}
use debt_collector.Debt.Adjust.{
  money_event, with_adjustment, surprise_penalty, save_adjustment, emit_adjustment_event, announce,
  create_adjustment, pending_adjustment, resolved, accept_adjustment, refuse_adjustment,
}
use debt_collector.Debt.Leaves.{Leaves-contract_out}
use debt_collector.Consistency.Events.{
  found_by_id, after_event-IsConsistent, after_event-saved, Leaves-event,
}
use debt_collector.Consistency.Lifecycle.{
  Evolves, Follows-status, Forward-refl, Forward-save, Forward-balance,
}
use debt_collector.Consistency.Invariant.{IsConsistent, LedgerOk, is_negotiating}
use debt_collector.Consistency.Writes.{LedgerOk-fresh, LedgerOk-event, LedgerOk-adjust}

module _ {B : Type 0} {P : B → Db → Type 0} where
  -- An adjustment's event on a contract that is there.
  pub Leaves-adjustment_event :
      (contract_id amount : ℕ) (c : DebtContract) (k : Done → Action B) (db : Db)
      → find_row contract_id db.contracts ≡ some c
      → Leaves P
          (k tt (after_event db c (money_event contract_id EventType.adjustment amount db.clock)))
      → Leaves P ((emit_adjustment_event contract_id amount >>= k) db)
  unfolding emit_adjustment_event
  Leaves-adjustment_event contract_id amount c k db found h = Leaves-assoc _ _ k db (
      Leaves-now_utc _ db
        (Leaves-assoc _ _ k db (Leaves-event _ c _ db found (Leaves-pure_bind tt k _ h))))

  pub Leaves-announce :
      (c : DebtContract) (amount : ℕ) (status : AdjustmentStatus) (k : Done → Action B) (db : Db)
      → find_row c.id db.contracts ≡ some c
      → Leaves P (k tt (after_event db c (money_event c.id EventType.adjustment amount db.clock)))
      → Leaves P (k tt (notified c.sub_id NotificationType.contract_adjustment_proposed c.id db))
      → Leaves P ((announce c amount status >>= k) db)
  unfolding announce
  Leaves-announce c amount AdjustmentStatus.applied k db found h g =
      Leaves-adjustment_event _ _ c k db found h
  Leaves-announce c amount AdjustmentStatus.pending_sub_approval k db found h g =
      Leaves-notify _ _ _ k db g
  Leaves-announce c amount AdjustmentStatus.accepted k db found h g = Leaves-notify _ _ _ k db g
  Leaves-announce c amount AdjustmentStatus.refused k db found h g = Leaves-notify _ _ _ k db g

  pub Leaves-pending_adjustment :
      (u : User) (adjustment_id : ℕ) (k : ContractAdjustment × DebtContract → Action B) (db : Db)
      → ((a : ContractAdjustment) (c : DebtContract)
          → find_row adjustment_id db.adjustments ≡ some a
          → find_row a.contract_id db.contracts ≡ some c
          → Leaves P (k (a, c) db))
      → Leaves P ((pending_adjustment u adjustment_id >>= k) db)
  unfolding pending_adjustment
  Leaves-pending_adjustment u adjustment_id k db h = Leaves-assoc _ _ k db (
      Leaves-gets _ _ db (
        Leaves-assoc _ _ k db (
          Leaves-or_raise _ _ _ db λ a at. Leaves-assoc _ _ k db (
            Leaves-contract _ _ db λ c found. Leaves-assoc _ _ k db (
              Leaves-raise_if _ _ _ db λ own.
                Leaves-assoc _ _ k db (
                  Leaves-raise_if _ _ _ db λ waiting. Leaves-pure_bind _ k db (h a c at found)))))))

-- A surprise penalty keeps the invariant.
pub surprise_penalty-Evolves :
    (u : User) (contract_id amount : ℕ) (db : Db)
    → IsConsistent db
    → Leaves (λ _. Evolves db) (surprise_penalty u contract_id amount db)
unfolding surprise_penalty
surprise_penalty-Evolves u contract_id amount db inv = Leaves-contract contract_id _ db λ c found.
    Leaves-goddess u.id _ db λ g at. Leaves-raise_if _ _ _ db λ own.
      Leaves-raise_if _ _ _ db λ allowed. Leaves-raise_if _ _ _ db λ active. Leaves-now_utc _ db (
        Leaves-event _ c _ db (found_by_id db contract_id c inv found) (
          Leaves-save_contract _ _ _ (
            Leaves-gets _ _ _ (
              Leaves-notify _ _ _ _ _ (
                Leaves-contract_out _ _ _ λ out e. (
                  after_event-saved _ db c _ inv (found_by_id db contract_id c inv found)
                      (ground arith) refl refl refl (ground arith),
                  Forward-save db _ contract_id c _ inv found
                      (Forward-balance db.contracts _ c _ (found_by_id db contract_id c inv found))
                      (Follows-status c _ refl refl refl refl (ground arith)),
                ))))))

-- An adjustment that is applied at once, or is left to the sub, keeps the invariant.
pub create_adjustment-Evolves :
    (u : User) (contract_id amount : ℕ) (reason : Option String) (db : Db)
    → IsConsistent db
    → Leaves (λ _. Evolves db) (create_adjustment u contract_id amount reason db)
unfolding create_adjustment save_adjustment
create_adjustment-Evolves u contract_id amount reason db inv =
    Leaves-contract contract_id _ db λ c found. Leaves-goddess u.id _ db λ g at.
      Leaves-raise_if _ _ _ db λ own. Leaves-raise_if _ _ _ db λ active.
        Leaves-raise_if _ _ _ db λ enabled. Leaves-now_utc _ db (
          Leaves-fresh_id _ db (
            Leaves-modify _ _ _ (
              Leaves-announce c _ _ _ _ (found_by_id db _ c inv found)
                (Leaves-pure _ _ (
                  (
                    LedgerOk-event (written c found (ground arith) _ refl) _ c _
                        (found_by_id db _ c inv found) (ground arith) refl (ground arith) refl,
                    Forward-balance db.contracts c.id c _ (found_by_id db _ c inv found),
                  )))
                (Leaves-pure _ _ (written c found (ground arith) _ refl, Forward-refl _)))))
  where
    written :
        (c : DebtContract)
        → find_row contract_id db.contracts ≡ some c
        → is_negotiating c.status ≡ false
        → (a : ContractAdjustment) → a.contract_id ≡ c.id
        → LedgerOk db.contracts db.events (put_row a.id a db.adjustments) (db.next_id + 1)
    written c found signed a same =
        let at =
          subst (λ (j : ℕ). find_row j db.contracts ≡ some c) (sym same)
            (found_by_id db _ c inv found) in
        LedgerOk-fresh (LedgerOk-adjust inv a.id a c at signed) _ (omega arith)

-- Accepting an adjustment keeps the invariant.
pub accept_adjustment-Evolves :
    (u : User) (adjustment_id : ℕ) (db : Db)
    → IsConsistent db
    → Leaves (λ _. Evolves db) (accept_adjustment u adjustment_id db)
unfolding accept_adjustment save_adjustment
accept_adjustment-Evolves u adjustment_id db inv =
    Leaves-pending_adjustment u adjustment_id _ db λ a c at found. Leaves-now_utc _ db (
      Leaves-modify _ _ _ (
        Leaves-adjustment_event _ _ c _ _ (found_by_id db _ c inv found) (
          Leaves-goddess_user _ _ _ λ o. Leaves-notify_known _ _ _ _ _ λ ns ps. Leaves-pure _ _ (
            booked a c at found,
            Forward-balance db.contracts c.id c _ (found_by_id db _ c inv found),
          ))))
  where
    booked :
        (a : ContractAdjustment) (c : DebtContract)
        → find_row adjustment_id db.adjustments ≡ some a
        → find_row a.contract_id db.contracts ≡ some c
        → IsConsistent (
            after_event
              (with_adjustment (resolved a AdjustmentStatus.accepted db.clock) db)
              c
              (money_event c.id EventType.adjustment a.amount db.clock))
    booked a c at found =
        let signed = inv.adjusted_signed adjustment_id a c at found in
        after_event-IsConsistent _
          (with_adjustment (resolved a AdjustmentStatus.accepted db.clock) db) c
          (LedgerOk-adjust inv _ _ c found signed) (found_by_id db _ c inv found) signed

-- Refusing an adjustment keeps the invariant.
pub refuse_adjustment-Evolves :
    (u : User) (adjustment_id : ℕ) (db : Db)
    → IsConsistent db
    → Leaves (λ _. Evolves db) (refuse_adjustment u adjustment_id db)
unfolding refuse_adjustment save_adjustment
refuse_adjustment-Evolves u adjustment_id db inv =
    Leaves-pending_adjustment u adjustment_id _ db λ a c at found. Leaves-now_utc _ db (
      Leaves-modify _ _ _ (
        Leaves-goddess_user _ _ _ λ o. Leaves-notify_known _ _ _ _ _ λ ns ps. Leaves-pure _ _ (
          LedgerOk-adjust inv _ _ c found (inv.adjusted_signed adjustment_id a c at found),
          Forward-refl _,
        )))
