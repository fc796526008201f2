-- ===== src/Consistency/Counters.antt =====
-- Lemmas on counter-proposals and the answers to them, for the ledger invariant.
use debt_collector.Common.{ℕ, ◌≡◌, refl, sym, ◌∙◌, true, some, arith, subst}
use debt_collector.Common.Int.{pos}
use debt_collector.Common.Table.{find_row, put_row}
use debt_collector.Model.{Db, User, Terms, DebtContract, contract_status_enum}
use debt_collector.Model.Leaves.{
  Leaves, Leaves-raise_if, Leaves-or_raise, Leaves-fresh_id, Leaves-now_utc, Leaves-gets,
}
use debt_collector.Session.Leaves.{
  Leaves-contract, Leaves-goddess, Leaves-versions, Leaves-notify, Leaves-notify_known,
  Leaves-save_contract, Leaves-create_version, Leaves-append_audit,
}
use debt_collector.Debt.Counter.{counter_propose, accept_counter, reject_counter}
use debt_collector.Debt.Leaves.{Leaves-contract_out, Leaves-counter_target, Leaves-counter_party}
use debt_collector.Consistency.Lifecycle.{
  can_become, Evolves, Follows-status, Forward, Forward-refl, Forward-save,
}
use debt_collector.Consistency.Invariant.{IsConsistent, LedgerOk, RowOk, is_negotiating}
use debt_collector.Consistency.Writes.{
  LedgerOk-save, LedgerOk-fresh, LedgerOk-update, no_events-balanced,
}

-- A negotiated contract is saved with new terms, and the balance is their principal.
renegotiated :
    (db : Db) (k : ℕ) (c d : DebtContract)
    → IsConsistent db
    → find_row k db.contracts ≡ some c
    → is_negotiating c.status ≡ true
    → d.id ≡ c.id
    → d.balance ≡ pos d.principal
    → d.sub_id ≡ c.sub_id
    → d.goddess_id ≡ c.goddess_id
    → can_become c.status d.status ≡ true
    → LedgerOk (put_row d.id d db.contracts) db.events db.adjustments db.next_id
      × Forward db.contracts (put_row d.id d db.contracts)
renegotiated db k c d inv found neg same balance sub goddess moved = (
  subst (λ (j : ℕ). LedgerOk (put_row j d db.contracts) db.events db.adjustments db.next_id)
      (sym id)
      (LedgerOk-update inv k c d found
        (record {
          keyed = id;
          balanced = no_events-balanced db.events d k (row.quiet neg) balance;
          quiet = λ _. row.quiet neg;
        })
        (λ _. neg)),
  Forward-save db db.contracts k c d inv found (Forward-refl _) (record {
    same_id = same;
    same_sub = sub;
    same_goddess = goddess;
    moved = moved;
    settled = λ h. ground arith;
  }),
)
  where
    row : RowOk db.events k c
    row = inv.row_ok k c found

    id : d.id ≡ k
    id = same ∙ row.keyed

-- A counter-proposal keeps the invariant.
pub counter_propose-Evolves :
    (u : User) (contract_id : ℕ) (payload : Terms) (db : Db)
    → IsConsistent db
    → Leaves (λ _. Evolves db) (counter_propose u contract_id payload db)
unfolding counter_propose
counter_propose-Evolves u contract_id payload db inv = Leaves-contract contract_id _ db λ c found.
    Leaves-versions _ _ db (
      Leaves-raise_if _ _ _ db λ first. Leaves-counter_target _ u c _ db λ to asked.
        Leaves-fresh_id _ db (
          Leaves-create_version _ _ _ (
            Leaves-now_utc _ _ (
              Leaves-save_contract _ _ _ (
                Leaves-append_audit _ _ _ (
                  Leaves-counter_party _ _ _ _ λ o. Leaves-notify_known _ _ _ _ _ λ ns ps.
                    Leaves-contract_out _ _ _ λ out e.
                      (let (ledger, forward) =
                          renegotiated db contract_id c _ inv found (ground arith) refl refl refl
                            refl (ground arith) in
                        (LedgerOk-fresh ledger _ (omega arith), forward))))))))

-- Accepting a counter-proposal keeps the invariant.
pub accept_counter-Evolves :
    (u : User) (contract_id : ℕ) (db : Db)
    → IsConsistent db
    → Leaves (λ _. Evolves db) (accept_counter u contract_id db)
unfolding accept_counter
accept_counter-Evolves u contract_id db inv = Leaves-contract contract_id _ db λ c found.
    Leaves-goddess u.id _ db λ g at. Leaves-raise_if _ _ _ db λ own.
      Leaves-raise_if _ _ _ db λ countered. Leaves-now_utc _ db (
        Leaves-save_contract _ _ _ (
          Leaves-gets _ _ _ (
            Leaves-append_audit _ _ _ (
              Leaves-notify _ _ _ _ _ (
                Leaves-contract_out _ _ _ λ out e. (
                  LedgerOk-save inv contract_id c _ found refl refl refl (λ h. ground arith),
                  Forward-save db db.contracts contract_id c _ inv found (Forward-refl _)
                      (Follows-status c _ refl refl refl refl (ground arith)),
                ))))))

-- Rejecting a counter-proposal keeps the invariant.
pub reject_counter-Evolves :
    (u : User) (contract_id : ℕ) (db : Db)
    → IsConsistent db
    → Leaves (λ _. Evolves db) (reject_counter u contract_id db)
unfolding reject_counter
reject_counter-Evolves u contract_id db inv = Leaves-contract contract_id _ db λ c found.
    Leaves-goddess u.id _ db λ g at. Leaves-raise_if _ _ _ db λ own.
      Leaves-raise_if _ _ _ db λ countered. Leaves-versions _ _ db (
        Leaves-or_raise _ _ _ db λ v first. Leaves-now_utc _ db (
          Leaves-save_contract _ _ _ (
            Leaves-append_audit _ _ _ (
              Leaves-notify _ _ _ _ _ (
                Leaves-contract_out _ _ _ λ out e.
                  renegotiated db contract_id c _ inv found (ground arith) refl refl refl refl
                    (ground arith))))))
