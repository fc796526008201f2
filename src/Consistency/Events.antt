-- ===== src/Consistency/Events.antt =====
-- Lemmas on an event on a signed contract, and the save of the contract that follows it, for the
-- ledger invariant.
use debt_collector.Common.{ℕ, ◌≡◌, refl, sym, false, some, arith, subst, Bool-cases, inl, inr}
use debt_collector.Common.Int.{ℤ}
use debt_collector.Common.Table.{find_row, put_row, find_row-put_row_self}
use debt_collector.Model.{
  Db, Action, AppError, DebtContract, DebtEvent, contract_status_enum, ◌>>=◌,
  adjustment_status_enum,
}
use debt_collector.Model.Leaves.{Leaves, Leaves-err}
use debt_collector.Ledger.{period_taken, apply_event_and_recompute}
use debt_collector.Ledger.Apply.{balance_after, after_event, apply_event-found, apply_event-taken}
use debt_collector.Consistency.Invariant.{IsConsistent, LedgerOk, is_negotiating}
use debt_collector.Consistency.Writes.{LedgerOk-save, LedgerOk-event}

-- A contract is found under its own id.
pub found_by_id :
    (db : Db) (k : ℕ) (c : DebtContract)
    → IsConsistent db
    → find_row k db.contracts ≡ some c
    → find_row c.id db.contracts ≡ some c
found_by_id db k c inv found =
    subst (λ (j : ℕ). find_row j db.contracts ≡ some c) (sym (inv.row_ok k c found).keyed) found

-- Booking an event on a signed contract keeps the invariant.
pub after_event-IsConsistent :
    (e : DebtEvent) (db : Db) (c : DebtContract)
    → IsConsistent db
    → find_row e.contract_id db.contracts ≡ some c
    → is_negotiating c.status ≡ false
    → IsConsistent (after_event db c e)
after_event-IsConsistent e db c inv found signed =
    LedgerOk-event inv e c _ found signed refl signed refl

-- The same with a save of the contract after it.
pub after_event-saved :
    (e : DebtEvent) (db : Db) (c d : DebtContract)
    → IsConsistent db
    → find_row e.contract_id db.contracts ≡ some c
    → is_negotiating c.status ≡ false
    → d.id ≡ c.id
    → d.balance ≡ balance_after db c e
    → d.principal ≡ c.principal
    → is_negotiating d.status ≡ false
    → LedgerOk
        (put_row d.id d (after_event db c e).contracts)
        (after_event db c e).events
        db.adjustments
        db.next_id
after_event-saved e db c d inv found signed id balance principal still =
    LedgerOk-save (after_event-IsConsistent e db c inv found signed) e.contract_id
      (record c { balance = balance_after db c e }) d
      (find_row-put_row_self e.contract_id (record c { balance = balance_after db c e })
        db.contracts)
      id balance principal (λ h. ground arith)

module _ {B : Type 0} {P : B → Db → Type 0} where
  -- An event on a contract that is there.
  pub Leaves-event :
      (e : DebtEvent) (c : DebtContract) (k : ℤ → Action B) (db : Db)
      → find_row e.contract_id db.contracts ≡ some c
      → Leaves P (k (balance_after db c e) (after_event db c e))
      → Leaves P ((apply_event_and_recompute e >>= k) db)
  unfolding ◌>>=◌
  Leaves-event e c k db found h = elim (Bool-cases (period_taken e.period_index e db.events)) [
    | inl taken ↦ rw (apply_event-taken e db taken) (Leaves-err AppError.integrity_error)
    | inr free ↦ rw (apply_event-found e db c free found) h
  ]
