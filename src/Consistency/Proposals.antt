-- ===== src/Consistency/Proposals.antt =====
-- Lemmas on proposals, for the ledger invariant.
use debt_collector.Common.{ℕ, ◌+◌, ◌≡◌, refl, true, arith, []}
use debt_collector.Common.Int.{pos}
use debt_collector.Common.Table.{put_row, find_row-put_row_self}
use debt_collector.Model.{Db, User, Terms, DebtContract, contract_status_enum}
use debt_collector.Model.Leaves.{Leaves, Leaves-or_raise, Leaves-fresh_id, Leaves-now_utc}
use debt_collector.Session.Leaves.{
  Leaves-goddess, Leaves-goddess_user, Leaves-notify, Leaves-notify_known, Leaves-save_contract,
  Leaves-create_version, Leaves-append_audit,
}
use debt_collector.Debt.Propose.{propose_as_goddess, propose_as_sub}
use debt_collector.Debt.Leaves.{Leaves-contract_out, Leaves-linked}
use debt_collector.Ledger.{events_of}
use debt_collector.Consistency.Lifecycle.{Evolves, Forward, Forward-refl, Forward-new}
use debt_collector.Consistency.Invariant.{IsConsistent, LedgerOk, is_negotiating}
use debt_collector.Consistency.Writes.{
  LedgerOk-fresh, LedgerOk-add, LedgerOk-update, no_events-balanced,
}

-- Two saves of a new row, with an id taken for its version in between.
pub added_twice :
    (db : Db) (c d : DebtContract)
    → IsConsistent db
    → c.id ≡ db.next_id
    → d.id ≡ db.next_id
    → c.balance ≡ pos c.principal
    → d.balance ≡ pos d.principal
    → (is_negotiating d.status ≡ true → is_negotiating c.status ≡ true)
    → LedgerOk
        (put_row db.next_id d (put_row db.next_id c db.contracts))
        db.events
        db.adjustments
        (db.next_id + 1 + 1)
      × Forward db.contracts (put_row db.next_id d (put_row db.next_id c db.contracts))
added_twice db c d inv ci di cb dbal neg = (
  LedgerOk-update (LedgerOk-fresh added (db.next_id + 1 + 1) (omega arith)) db.next_id c d
      (find_row-put_row_self db.next_id c db.contracts)
      (record {
        keyed = di;
        balanced = no_events-balanced db.events d db.next_id none_yet dbal;
        quiet = λ _. none_yet;
      })
      neg,
  Forward-new db _ d inv (Forward-new db _ c inv (Forward-refl db.contracts)),
)
  where
    added : LedgerOk (put_row db.next_id c db.contracts) db.events db.adjustments (db.next_id + 1)
    added = LedgerOk-add inv c ci cb

    none_yet : events_of db.next_id db.events ≡ []
    none_yet = inv.no_events db.next_id (omega arith)

-- A goddess's proposal keeps the invariant.
pub propose_as_goddess-Evolves :
    (u : User) (sub_id : ℕ) (payload : Terms) (db : Db)
    → IsConsistent db
    → Leaves (λ _. Evolves db) (propose_as_goddess u sub_id payload db)
unfolding propose_as_goddess
propose_as_goddess-Evolves u sub_id payload db inv = Leaves-goddess u.id _ db λ g at.
    Leaves-linked g sub_id _ db λ linked. Leaves-now_utc _ db (
      Leaves-fresh_id _ db (
        Leaves-save_contract _ _ _ (
          Leaves-fresh_id _ _ (
            Leaves-create_version _ _ _ (
              Leaves-save_contract _ _ _ (
                Leaves-append_audit _ _ _ (
                  Leaves-notify _ _ _ _ _ (
                    Leaves-contract_out _ _ _
                      λ out e. added_twice db _ _ inv refl refl refl refl (λ _. refl)))))))))

-- A sub's proposal keeps the invariant.
pub propose_as_sub-Evolves :
    (u : User) (payload : Terms) (db : Db)
    → IsConsistent db
    → Leaves (λ _. Evolves db) (propose_as_sub u payload db)
unfolding propose_as_sub
propose_as_sub-Evolves u payload db inv = Leaves-or_raise _ _ _ db λ g at. Leaves-now_utc _ db (
    Leaves-fresh_id _ db (
      Leaves-save_contract _ _ _ (
        Leaves-fresh_id _ _ (
          Leaves-create_version _ _ _ (
            Leaves-save_contract _ _ _ (
              Leaves-append_audit _ _ _ (
                Leaves-goddess_user _ _ _ λ o. Leaves-notify_known _ _ _ _ _ λ ns ps.
                  Leaves-contract_out _ _ _
                    λ out e. added_twice db _ _ inv refl refl refl refl (λ _. refl))))))))
