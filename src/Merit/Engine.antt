-- ===== src/Merit/Engine.antt =====
-- server/services/penalty/engine.py: `apply_penalty`, with `find_matching_rule`,
-- `fired_within_cooldown` and `log_event` of daos/penalty_rule_dao.py.
use debt_collector.Common.{
  ℕ, ◌+◌, ◌*◌, Bool, true, false, ◌&&◌, Option, none, some, List, [], ◌∷◌, ◌++◌, ◌==◌, ◌==?◌, ◌is◌,
  if◌then◌else◌, leb, ltb, is_none,
}
use debt_collector.Common.Int.{ℤ, pos, negsuc}
use debt_collector.Common.Table.{rows}
use debt_collector.Common.Lists.{any_of, select}
use debt_collector.Model.{
  MeritSourceKind, PenaltyTrigger, trigger_enum, PenaltyAction, penalty_action_enum, PenaltyRule,
  PenaltySource, penalty_source_enum, PenaltyEvent, Db, Action, Done, gets, modify, pure, now_utc,
  ◌>>=◌, ◌>>◌,
}
use debt_collector.Merit.{insert_idempotent}

-- `_merit_source_kind_for`
abbrev pub merit_source_kind_for : PenaltySource → MeritSourceKind
merit_source_kind_for PenaltySource.ritual_miss = MeritSourceKind.ritual_miss
merit_source_kind_for PenaltySource.task_miss = MeritSourceKind.task_miss
merit_source_kind_for PenaltySource.contract_miss = MeritSourceKind.contract_miss
merit_source_kind_for PenaltySource.rolling_late = MeritSourceKind.rolling_late

-- What a penalty is for.
pub record Offence : Type 0 where
  pub goddess_id : ℕ
  pub sub_id : ℕ
  pub trigger : PenaltyTrigger
  pub source_kind : PenaltySource
  pub source_id : Option ℕ
  pub default_delta : ℤ
  pub days_late : Option ℕ

-- `sub_id = :sub` for the sub's own rules, `sub_id IS NULL` for the goddess's.
abbrev pub in_scope : Bool → ℕ → Option ℕ → Bool
in_scope true sub_id scope = scope ==? sub_id
in_scope false sub_id scope = is_none scope

-- `min_days_late IS NULL OR min_days_late <= :days_late`, where `days_late` is given.
abbrev pub is_late_enough : Option ℕ → Option ℕ → Bool
is_late_enough none threshold = true
is_late_enough (some days) none = true
is_late_enough (some days) (some threshold) = leb threshold days

abbrev pub matches : Bool → Offence → PenaltyRule → Bool
matches sub_scoped o rule =
    rule.goddess_id == o.goddess_id
    && (rule.trigger is o.trigger)
    && rule.active
    && in_scope sub_scoped o.sub_id rule.sub_id
    && is_late_enough o.days_late rule.min_days_late

-- The sort key: `min_days_late` descending, nulls last, where `days_late` is given, and else
-- `created_at` descending. Among equals the first row is taken.
abbrev pub rank : Option ℕ → PenaltyRule → ℕ
rank none rule = rule.created_at
rank (some days) rule = elim rule.min_days_late [ none ↦ 0 | some threshold ↦ threshold + 1 ]

abbrev pub better : Option ℕ → PenaltyRule → Option PenaltyRule → PenaltyRule
better days rule none = rule
better days rule (some other) = if ltb (rank days rule) (rank days other) then other else rule

abbrev pub best_of : Option ℕ → List PenaltyRule → Option PenaltyRule
best_of days [] = none
best_of days (rule ∷ rest) = some (better days rule (best_of days rest))

-- `_find_best`
unfoldable pub find_best : Bool → Offence → Db → Option PenaltyRule
find_best sub_scoped o db =
    best_of o.days_late (select (matches sub_scoped o) (rows db.penalty_rules))

abbrev pub or_else : Option PenaltyRule → Option PenaltyRule → Option PenaltyRule
or_else none other = other
or_else (some rule) other = some rule

unfoldable pub find_matching_rule : Offence → Db → Option PenaltyRule
find_matching_rule o db = or_else (find_best true o db) (find_best false o db)

-- `source_id = :source_id`, or `source_id IS NULL`.
abbrev pub from_source : Option ℕ → Option ℕ → Bool
from_source none id = is_none id
from_source (some wanted) id = id ==? wanted

abbrev pub is_recent : PenaltyRule → Offence → ℕ → PenaltyEvent → Bool
is_recent rule o now e =
    e.rule_id == rule.id
    && e.sub_id == o.sub_id
    && (e.source_kind is o.source_kind)
    && leb now (e.created_at + 3600 * rule.cooldown_hours)
    && from_source o.source_id e.source_id

unfoldable pub fired_within_cooldown : PenaltyRule → Offence → ℕ → Db → Bool
fired_within_cooldown rule o now db = any_of (is_recent rule o now) db.penalty_events

-- `_emit_merit_event`
unfoldable pub emit_merit_event : Offence → ℤ → Action Bool
emit_merit_event o delta = do
  now ← now_utc
  insert_idempotent (record {
    sub_id = o.sub_id;
    goddess_id = o.goddess_id;
    source_kind = merit_source_kind_for o.source_kind;
    source_id = o.source_id;
    delta = delta;
    created_at = now;
  })

unfoldable pub log_event : PenaltyRule → Offence → ℤ → Action Done
log_event rule o points_delta = do
  now ← now_utc
  modify λ db. record db {
    penalty_events =
        db.penalty_events
        ++ record {
          rule_id = rule.id;
          sub_id = o.sub_id;
          goddess_id = rule.goddess_id;
          trigger = o.trigger;
          action = rule.action;
          points_delta = points_delta;
          source_kind = o.source_kind;
          source_id = o.source_id;
          created_at = now;
        }
          ∷ [];
  }

abbrev pub is_zero : ℤ → Bool
is_zero (pos n) = n == 0
is_zero (negsuc n) = false

-- No rule matches.
unfoldable pub apply_default : Offence → Action ℤ
apply_default o =
    if is_zero o.default_delta
    then pure (pos 0)
    else (emit_merit_event o o.default_delta >> pure o.default_delta)

abbrev pub if_inserted : Bool → ℤ → ℤ
if_inserted true delta = delta
if_inserted false delta = pos 0

-- `if rule.action == PenaltyAction.apply_points: ...`
unfoldable pub apply_points : PenaltyRule → Offence → PenaltyAction → Action ℤ
apply_points rule o PenaltyAction.apply_points = do
  inserted ← emit_merit_event o rule.points_delta
  pure (if_inserted inserted rule.points_delta)
apply_points rule o _ = pure (pos 0)

-- A rule that matches and is not cooling down.
unfoldable pub fire : PenaltyRule → Offence → Action ℤ
fire rule o = do
  applied_delta ← apply_points rule o rule.action
  log_event rule o applied_delta
  pure applied_delta

unfoldable pub apply_rule : PenaltyRule → Offence → Bool → Action ℤ
apply_rule rule o true = pure (pos 0)
apply_rule rule o false = fire rule o

unfoldable pub apply_matching : Option PenaltyRule → Offence → Action ℤ
apply_matching none o = apply_default o
apply_matching (some rule) o = do
  now ← now_utc
  recent ← gets (fired_within_cooldown rule o now)
  apply_rule rule o recent

unfoldable pub apply_penalty : Offence → Action ℤ
apply_penalty o = do rule ← gets (find_matching_rule o); apply_matching rule o
