-- ===== src/Job/Tick.antt =====
-- server/controllers/cron_controller.py: `_tick_contract` and `_had_min_payment_for_period`, with
-- `exists_for_period` of server/daos/debt_event_dao.py.
use debt_collector.Common.{
  ℕ, ◌+◌, ◌-◌, ◌*◌, Bool, true, false, not, ◌&&◌, ◌||◌, Option, none, some, [], ◌∷◌, ◌++◌, ◌==◌,
  ◌==?◌, ◌is◌, leb,
}
use debt_collector.Common.Int.{ℤ, pos, scale}
use debt_collector.Common.Lists.{select, any_of, sum_by}
use debt_collector.Common.Rounding.{quantize, round_half_up}
use debt_collector.Model.{
  DebtContract, Terms, DebtEvent, EventType, event_type_enum, NotificationType, PenaltyTrigger,
  PenaltySource, Db, Action, Done, AppError, raise_if, gets, modify, pure, when, one_or_none,
  now_utc, ◌>>=◌, ◌>>◌,
}
use debt_collector.Session.{notify, get_contract_or_404}
use debt_collector.Ledger.{
  period_taken, recompute_balance, store_balance, apply_event_and_recompute,
}
use debt_collector.Merit.Engine.{Offence, apply_penalty}
use debt_collector.Calendar.{London}
use debt_collector.Periods.{current_period_index}

-- `period_rate`, which takes a power of a float for a yearly rate: a rate of `period_rate terms` is a
-- number of parts of one, of which a ten-thousandth has `scale`.
pub record Rates : Type 0 where
  pub scale : ℕ
  pub period_rate : Terms → ℕ

abbrev pub is_of_period : ℕ → ℕ → EventType → DebtEvent → Bool
is_of_period contract_id period_index event_type e =
    e.contract_id == contract_id && e.period_index ==? period_index && (e.event_type is event_type)

unfoldable pub exists_for_period : ℕ → ℕ → EventType → Db → Bool
exists_for_period contract_id period_index event_type db =
    any_of (is_of_period contract_id period_index event_type) db.events

abbrev pub period_event : ℕ → EventType → ℕ → ℕ → ℕ → DebtEvent
period_event contract_id event_type amount period_index now = record {
  contract_id = contract_id;
  event_type = event_type;
  amount = amount;
  period_index = some period_index;
  created_at = now;
}

-- The payments since an interest event, and what they are tested for.
abbrev pub is_payment_since : ℕ → ℕ → DebtEvent → Bool
is_payment_since contract_id since e =
    e.contract_id == contract_id
    && (e.event_type is EventType.payment_applied)
    && leb since e.created_at

unfoldable pub paid_enough : DebtContract → Option DebtEvent → Db → Bool
paid_enough contract none db = true
paid_enough contract (some anchor) db =
    leb (100 * contract.minimum_payment)
      (sum_by (λ e. e.amount) (select (is_payment_since contract.id anchor.created_at) db.events))

unfoldable pub had_min_payment_for_period : DebtContract → ℕ → Action Bool
had_min_payment_for_period contract period_index = do
  found ←
      gets
        (λ db. select (is_of_period contract.id period_index EventType.period_interest) db.events)
  anchor ← one_or_none found
  gets (paid_enough contract anchor)

-- `prev_idx >= 1 and not await self._had_min_payment_for_period(contract, prev_idx)`
unfoldable pub is_late_for : Bool → DebtContract → ℕ → Action Bool
is_late_for true contract prev_index = pure false
is_late_for false contract prev_index = do
  paid ← had_min_payment_for_period contract prev_index
  pure (not paid)

abbrev pub missed_period : DebtContract → Offence
missed_period contract = record {
  goddess_id = contract.goddess_id;
  sub_id = contract.sub_id;
  trigger = PenaltyTrigger.contract_missed;
  source_kind = PenaltySource.contract_miss;
  source_id = some contract.id;
  default_delta = pos 0;
  days_late = none;
}

unfoldable pub penalise : DebtContract → ℕ → Action Done
penalise contract period_index = do
  now ← now_utc
  apply_event_and_recompute (
      period_event contract.id EventType.late_penalty contract.late_penalty_percent period_index
        now)
  notify contract.sub_id NotificationType.contract_late_penalty contract.id
  apply_penalty (missed_period contract)
  pure tt

-- The balance with interest at a rate of `rate` parts, of which a ten-thousandth has `parts`.
unfoldable pub accrued : ℕ → ℕ → ℤ → ℤ
accrued parts rate balance = quantize (scale balance (10000 * parts + rate)) (10000 * parts)

module _ (rates : Rates) where
  abbrev pub interest_event : DebtContract → ℕ → ℕ → DebtEvent
  interest_event contract period_index now =
      period_event contract.id EventType.period_interest
        (round_half_up (rates.period_rate contract.terms) rates.scale) period_index now

  -- `apply_event_and_recompute` on the interest event. The table rounds the amount to four decimals;
  -- the session that writes it still has the whole rate, and replays that.
  unfoldable pub accrue_interest : DebtContract → ℕ → Action Done
  accrue_interest contract period_index = do
    now ← now_utc
    let event = interest_event contract period_index now
    taken ← gets (λ db. period_taken event.period_index event db.events)
    raise_if taken AppError.integrity_error
    before ← recompute_balance contract.id
    modify (λ db. record db { events = db.events ++ event ∷ [] })
    modify
        (store_balance contract.id (accrued rates.scale (rates.period_rate contract.terms) before))

  unfoldable pub tick_period : DebtContract → ℕ → Action Bool
  tick_period contract period_index = do
    is_late ← is_late_for (period_index - 1 == 0) contract (period_index - 1)
    when is_late (penalise contract (period_index - 1))
    accrue_interest contract period_index
    notify contract.sub_id NotificationType.contract_period_interest contract.id
    pure true

  unfoldable pub tick_unless : Bool → DebtContract → ℕ → Action Bool
  tick_unless true contract period_index = pure false
  tick_unless false contract period_index = tick_period contract period_index

  -- `_tick_contract`, on the contract with an id: the session holds one object for a row.
  unfoldable pub tick_contract : London → ℕ → Action Bool
  tick_contract london contract_id = do
    contract ← get_contract_or_404 contract_id
    now ← now_utc
    let period_index = current_period_index london contract now
    ticked ← gets (exists_for_period contract.id period_index EventType.period_interest)
    tick_unless (period_index == 0 || ticked) contract period_index
