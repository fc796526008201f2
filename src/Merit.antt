-- ===== src/Merit.antt =====
-- Merit points: server/daos/merit_event_dao.py, services/merits/credits.py, the redemption of
-- controllers/merits_controller.py, and the penalty engine of services/penalty/engine.py with the
-- queries of daos/penalty_rule_dao.py. The clock counts seconds.
pub mod Engine
pub mod Balance
pub mod Penalty
pub mod Cooldown
pub mod Keeps
pub mod Tiers
pub mod Source
pub mod Rules
use debt_collector.Common.{
  ℕ, ◌+◌, ◌*◌, Bool, true, false, ◌&&◌, ◌||◌, not, Option, none, some, List, [], ◌∷◌, ◌++◌, ◌==◌,
  ◌==?◌, ◌is◌, if◌then◌else◌, leb,
}
use debt_collector.Common.Int.{ℤ, pos, ◌+ℤ◌, ◌-ℤ◌, ltb_ℤ}
use debt_collector.Common.Table.{Table, find_row, rows}
use debt_collector.Common.Lists.{any_of, select}
use debt_collector.Model.{
  User, MeritSourceKind, merit_source_enum, MeritEvent, RewardTier, RewardRedemption, Task, Db,
  Action, Done, AppError, or_raise, raise_if, gets, modify, pure, fresh_id, now_utc, ◌>>=◌, ◌>>◌,
}

-- `a == b` on two optional ids, where NULL is equal to nothing.
abbrev pub same_id : Option ℕ → Option ℕ → Bool
same_id none b = false
same_id (some a) none = false
same_id (some a) (some b) = a == b

-- The partial unique index `uq_merit_event_source`.
abbrev pub same_source : MeritSourceKind → Option ℕ → MeritEvent → Bool
same_source kind source_id e = (e.source_kind is kind) && same_id e.source_id source_id

abbrev pub insert_if_free : Bool → MeritEvent → Action Bool
insert_if_free true event = pure false
insert_if_free false event = do
  modify (λ db. record db { merit_events = db.merit_events ++ event ∷ [] })
  pure true

-- `insert_idempotent`: whether the event has been inserted.
unfoldable pub insert_idempotent : MeritEvent → Action Bool
insert_idempotent event = do
  taken ← gets (λ db. any_of (same_source event.source_kind event.source_id) db.merit_events)
  insert_if_free taken event

abbrev pub counts_for : ℕ → ℕ → MeritEvent → Bool
counts_for sub_id goddess_id e = e.sub_id == sub_id && e.goddess_id == goddess_id

abbrev pub sum_deltas : List MeritEvent → ℤ
sum_deltas [] = pos 0
sum_deltas (e ∷ l) = e.delta +ℤ sum_deltas l

-- The first component of `balance_for_sub`.
unfoldable pub balance_for_sub : ℕ → ℕ → Db → ℤ
balance_for_sub sub_id goddess_id db =
    sum_deltas (select (counts_for sub_id goddess_id) db.merit_events)

unfoldable pub record_task_complete : Task → Action Bool
record_task_complete task = do
  now ← now_utc
  insert_idempotent (record {
    sub_id = task.sub_id;
    goddess_id = task.goddess_id;
    source_kind = MeritSourceKind.task_complete;
    source_id = some task.id;
    delta = task.points_on_complete;
    created_at = now;
  })

-- The id of the redemption, and the new balance.
unfoldable pub redeem_reward_as_sub : User → ℕ → Action (ℕ × ℤ)
redeem_reward_as_sub sub_user reward_id = do
  goddess_id ← or_raise sub_user.goddess_id AppError.forbidden
  tier ← or_raise (← gets (λ db. find_row reward_id db.reward_tiers)) AppError.not_found
  raise_if (not (tier.goddess_id == goddess_id)) AppError.forbidden
  raise_if (not tier.active) AppError.conflict
  balance ← gets (balance_for_sub sub_user.id goddess_id)
  raise_if (ltb_ℤ balance (pos tier.cost)) AppError.validation
  now ← now_utc
  redemption_id ← fresh_id
  let redemption : RewardRedemption = record {
    id = redemption_id;
    sub_id = sub_user.id;
    goddess_id = goddess_id;
    reward_id = tier.id;
    cost_snapshot = tier.cost;
    created_at = now;
  }
  modify (λ db. record db { redemptions = db.redemptions ++ redemption ∷ [] })
  inserted ← insert_idempotent (record {
    sub_id = sub_user.id;
    goddess_id = goddess_id;
    source_kind = MeritSourceKind.reward_redeem;
    source_id = some redemption_id;
    delta = pos 0 -ℤ pos tier.cost;
    created_at = now;
  })
  raise_if (not inserted) AppError.conflict
  new_balance ← gets (balance_for_sub sub_user.id goddess_id)
  pure (redemption_id, new_balance)
