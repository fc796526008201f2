-- ===== src/Consistency/Penalties.antt =====
-- Lemmas on the surprise penalties that are confirmed by the slug of a contract, for the ledger invariant.
use debt_collector.Common.{ℕ, ◌+◌, ◌≡◌, refl, false, some, [], ◌∷◌, arith, String}
use debt_collector.Common.Table.{find_row, put_row, find_row-put_row_self, select-found, rows}
use debt_collector.Common.Lists.{select}
use debt_collector.Model.{
  Db, User, Action, DebtContract, EventType, contract_status_enum, ◌>>=◌, adjustment_status_enum,
}
use debt_collector.Model.Leaves.{
  Leaves, Leaves-raise_if, Leaves-or_raise, Leaves-now_utc, Leaves-gets, Leaves-modify,
  Leaves-assoc, Leaves-pure_bind, Leaves-fresh_id, Leaves-unique,
}
use debt_collector.Session.Leaves.{
  Leaves-goddess, Leaves-notify, Leaves-save_contract, Leaves-append_audit,
}
use debt_collector.Ledger.Apply.{balance_after, after_event}
use debt_collector.Debt.Adjust.{
  money_event, refreshed, save_adjustment, has_slug, get_by_slug, require_her_contract,
  penalty_adjustment, surprise_penalty_by_slug,
}
use debt_collector.Debt.Leaves.{Leaves-contract_out}
use debt_collector.Consistency.Events.{found_by_id, after_event-IsConsistent, Leaves-event}
use debt_collector.Consistency.Lifecycle.{Evolves, Follows-status, Forward-save, Forward-balance}
use debt_collector.Consistency.Invariant.{IsConsistent, LedgerOk, is_negotiating}
use debt_collector.Consistency.Writes.{LedgerOk-fresh, LedgerOk-adjust, LedgerOk-save}

module _ {B : Type 0} {P : B → Db → Type 0} where
  -- The contract with a slug is the one under its id.
  pub Leaves-her_contract :
      (slug_of : ℕ → String) (u : User) (slug : String) (k : DebtContract → Action B) (db : Db)
      → IsConsistent db
      → ((c : DebtContract)
          → find_row c.id db.contracts ≡ some c
          → select (has_slug slug_of slug) (rows db.contracts) ≡ c ∷ []
          → Leaves P (k c db))
      → Leaves P ((require_her_contract slug_of u slug >>= k) db)
  unfolding require_her_contract get_by_slug
  Leaves-her_contract slug_of u slug k db inv h = Leaves-assoc _ _ k db (
      Leaves-assoc _ _ _ db (
        Leaves-gets _ _ db (
          Leaves-unique _ _ db λ o alone. Leaves-assoc _ _ k db (
            Leaves-or_raise _ _ _ db λ c is_c. Leaves-assoc _ _ k db (
              Leaves-goddess u.id _ db λ g at. Leaves-assoc _ _ k db (
                Leaves-raise_if _ _ _ db λ own. Leaves-pure_bind c k db (
                  let (key, found) =
                    select-found (has_slug slug_of slug) c db.contracts inv.distinct
                      (alone c is_c) in
                  h c (found_by_id db key c inv found) (alone c is_c))))))))

-- A surprise penalty that is confirmed keeps the invariant.
pub surprise_penalty_by_slug-Evolves :
    (slug_of : ℕ → String) (u : User) (slug : String) (amount : ℕ) (reason : String) (at : ℕ)
    (db : Db)
    → IsConsistent db
    → Leaves (λ _. Evolves db) (surprise_penalty_by_slug slug_of u slug amount reason at db)
unfolding surprise_penalty_by_slug save_adjustment
surprise_penalty_by_slug-Evolves slug_of u slug amount reason at db inv =
    Leaves-her_contract slug_of u slug _ db inv λ c found _. Leaves-raise_if _ _ _ db λ allowed.
      Leaves-raise_if _ _ _ db λ active. Leaves-now_utc _ db (
        Leaves-event _ c _ db found (
          Leaves-fresh_id _ _ (
            Leaves-modify _ _ _ (
              Leaves-append_audit _ _ _ (
                Leaves-save_contract _ _ _ (
                  Leaves-gets _ _ _ (
                    Leaves-notify _ _ _ _ _ (
                      Leaves-contract_out _ _ _ λ out e. (
                        ledger c found (ground arith),
                        Forward-save db _ c.id c _ inv found
                            (Forward-balance db.contracts _ c _ found)
                            (Follows-status c _ refl refl refl refl (ground arith)),
                      )))))))))
  where
    ledger :
        (c : DebtContract)
        → find_row c.id db.contracts ≡ some c
        → is_negotiating c.status ≡ false
        → LedgerOk
            (put_row c.id
              (refreshed c
                (balance_after db c (money_event c.id EventType.surprise_penalty amount db.clock))
                db.clock)
              (after_event db c
                (money_event c.id EventType.surprise_penalty amount db.clock)).contracts)
            (after_event db c (money_event c.id EventType.surprise_penalty amount db.clock)).events
            (put_row db.next_id
              (penalty_adjustment db.next_id c.id u.id amount reason at db.clock)
              db.adjustments)
            (db.next_id + 1)
    ledger c found signed =
        let e = money_event c.id EventType.surprise_penalty amount db.clock in
        let booked : DebtContract = record c { balance = balance_after db c e } in
        let here = find_row-put_row_self c.id booked db.contracts in
        LedgerOk-save
          (LedgerOk-fresh
            (LedgerOk-adjust (after_event-IsConsistent e db c inv found signed) db.next_id
              (penalty_adjustment db.next_id c.id u.id amount reason at db.clock) booked here
              signed)
            (db.next_id + 1) (omega arith))
          c.id booked (refreshed c (balance_after db c e) db.clock) here refl refl refl (λ h. h)
