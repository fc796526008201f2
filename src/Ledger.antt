-- ===== src/Ledger.antt =====
-- server/utils/ledger.py: a contract's balance is its principal with the contract's events replayed
-- over it, in the order of their creation.
pub mod Replay
pub mod Order
pub mod Apply
use debt_collector.Common.{
  ℕ, ◌+◌, ◌*◌, Bool, Option, none, some, List, [], ◌∷◌, ◌++◌, ◌==◌, ◌==?◌, ◌&&◌, ◌is◌, false,
}
use debt_collector.Common.Int.{ℤ, pos, scale, ◌-ℤ◌, ◌+ℤ◌}
use debt_collector.Common.Table.{find_row, put_row}
use debt_collector.Common.Lists.{select, any_of}
use debt_collector.Common.Rounding.{quantize}
use debt_collector.Model.{
  DebtEvent, EventType, event_type_enum, raise_if, Db, Action, DebtContract, AppError, or_raise,
  gets, modify, pure, ◌>>=◌, ◌>>◌,
}

pub data Op : Type 0 where
  multiplicative subtract add close : Op

-- `_OP`
abbrev pub op_of : EventType → Op
op_of EventType.period_interest = multiplicative
op_of EventType.late_penalty = multiplicative
op_of EventType.payment_applied = subtract
op_of EventType.adjustment = add
op_of EventType.surprise_penalty = add
op_of EventType.buyout_paid = close

-- One round of the loop of `replay_events`: the balance in pence, the amount in ten-thousandths.
unfoldable pub apply_op : Op → ℤ → ℕ → ℤ
apply_op multiplicative balance amount = quantize (scale balance (10000 + amount)) 10000
apply_op subtract balance amount = quantize (scale balance 100 -ℤ pos amount) 100
apply_op add balance amount = quantize (scale balance 100 +ℤ pos amount) 100
apply_op close balance amount = pos 0

unfoldable pub replay_from : ℤ → List DebtEvent → ℤ
replay_from balance [] = balance
replay_from balance (e ∷ es) = replay_from (apply_op (op_of e.event_type) balance e.amount) es

unfoldable pub replay_events : ℕ → List DebtEvent → ℤ
replay_events principal events = replay_from (pos principal) events

-- The query of `recompute_balance`.
abbrev pub events_of : ℕ → List DebtEvent → List DebtEvent
events_of contract_id = select (λ e. e.contract_id == contract_id)

unfoldable pub recompute_balance : ℕ → Action ℤ
recompute_balance contract_id = do
  contract ← or_raise (← gets (λ db. find_row contract_id db.contracts)) AppError.value_error
  events ← gets (λ db. events_of contract_id db.events)
  pure (replay_events contract.principal events)

-- `contract.balance = new_balance`, on the contract where it is found.
unfoldable pub store_balance : ℕ → ℤ → Db → Db
store_balance contract_id new_balance db = record db {
  contracts = elim (find_row contract_id db.contracts) [
    | none ↦ db.contracts
    | some c ↦ put_row contract_id (record c { balance = new_balance }) db.contracts
  ];
}

-- The constraint `uq_debt_event_period_bound`, in which a NULL period is equal to none.
abbrev pub same_period : ℕ → DebtEvent → DebtEvent → Bool
same_period period_index event e =
    e.contract_id == event.contract_id
    && e.period_index ==? period_index
    && (e.event_type is event.event_type)

abbrev pub period_taken : Option ℕ → DebtEvent → List DebtEvent → Bool
period_taken none event events = false
period_taken (some period_index) event events = any_of (same_period period_index event) events

unfoldable pub apply_event_and_recompute : DebtEvent → Action ℤ
unfolding recompute_balance store_balance ◌>>=◌
apply_event_and_recompute event = do
  taken ← gets (λ db. period_taken event.period_index event db.events)
  raise_if taken AppError.integrity_error
  modify (λ db. record db { events = db.events ++ event ∷ [] })
  new_balance ← recompute_balance event.contract_id
  modify (store_balance event.contract_id new_balance)
  pure new_balance
