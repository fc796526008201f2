-- ===== src/Ledger/Apply.antt =====
-- Appending an event and recomputing: what the two writes of `apply_event_and_recompute` leave.
use debt_collector.Common.{
  ◌≡◌, refl, true, false, none, some, [], ◌∷◌, ◌++◌, arith, ◌∙◌, ap, ◌==◌, ==_refl,
}
use debt_collector.Common.Lists.{select-append}
use debt_collector.Common.Int.{ℤ}
use debt_collector.Common.Table.{find_row, put_row}
use debt_collector.Model.{Db, DebtEvent, DebtContract, ok, err, AppError}
use debt_collector.Ledger.{
  period_taken, events_of, replay_events, apply_event_and_recompute, apply_op, op_of,
}
use debt_collector.Ledger.Replay.{replay_events-append_one}

-- The balance that an event leaves behind it.
abbrev pub balance_after : Db → DebtContract → DebtEvent → ℤ
balance_after db c e = replay_events c.principal (events_of e.contract_id (db.events ++ e ∷ []))

-- An event changes the balance that the events before it give by itself.
pub balance_after-one :
    (db : Db) (c : DebtContract) (e : DebtEvent)
    → balance_after db c e
      ≡ apply_op
          (op_of e.event_type)
          (replay_events c.principal (events_of e.contract_id db.events))
          e.amount
balance_after-one db c e =
    ap (replay_events c.principal) here
    ∙ replay_events-append_one c.principal (events_of e.contract_id db.events) e
  where
    here :
        events_of e.contract_id (db.events ++ e ∷ []) ≡ events_of e.contract_id db.events ++ e ∷ []
    here =
        select-append (λ x. x.contract_id == e.contract_id) db.events (e ∷ [])
        ∙ rw (==_refl e.contract_id) refl

-- The database after an event on a contract that is there.
abbrev pub after_event : Db → DebtContract → DebtEvent → Db
after_event db c e = record db {
  events = db.events ++ e ∷ [];
  contracts = put_row e.contract_id (record c { balance = balance_after db c e }) db.contracts;
}

-- An event on a known contract is appended, and the contract's balance is replayed with it.
pub apply_event-found :
    (e : DebtEvent) (db : Db) (c : DebtContract)
    → period_taken e.period_index e db.events ≡ false
    → find_row e.contract_id db.contracts ≡ some c
    → apply_event_and_recompute e db ≡ ok (balance_after db c e, after_event db c e)
unfolding apply_event_and_recompute
apply_event-found e db c free h = rw free (ground arith)

-- An event on an unknown contract is an error.
pub apply_event-missing :
    (e : DebtEvent) (db : Db)
    → period_taken e.period_index e db.events ≡ false
    → find_row e.contract_id db.contracts ≡ none
    → apply_event_and_recompute e db ≡ err AppError.value_error
unfolding apply_event_and_recompute
apply_event-missing e db free h = rw free (ground arith)

-- A second event of a kind for a period violates the constraint.
pub apply_event-taken :
    (e : DebtEvent) (db : Db)
    → period_taken e.period_index e db.events ≡ true
    → apply_event_and_recompute e db ≡ err AppError.integrity_error
unfolding apply_event_and_recompute
apply_event-taken e db taken = rw taken refl
