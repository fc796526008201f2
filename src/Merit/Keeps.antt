-- ===== src/Merit/Keeps.antt =====
-- The actions of server/services/merits/credits.py and server/services/penalty/engine.py, for any
-- predicate on the database that does not read the merit events and the log of the penalties.
use debt_collector.Common.{Option, none, some, Bool, true, false, List, Bool-cases, inl, inr}
use debt_collector.Common.Int.{ℤ, pos}
use debt_collector.Model.{Db, Task, PenaltyRule, PenaltyAction, PenaltyEvent, MeritEvent}
use debt_collector.Model.Keeps.{Keeps, keep_rules, Keeps-modify, Keeps-pure}
use debt_collector.Merit.{insert_if_free, insert_idempotent, record_task_complete}
use debt_collector.Merit.Engine.{
  Offence, is_zero, emit_merit_event, log_event, apply_default, apply_points, fire, apply_rule,
  apply_matching, apply_penalty,
}

module _ (I : Db → Type 0)
    (merits : (db : Db) (es : List MeritEvent) → I db → I (record db { merit_events = es }))
    (fired : (db : Db) (es : List PenaltyEvent)
      → I db
      → I (record db { penalty_events = es })) where
  insert-Keeps : (taken : Bool) (e : MeritEvent) → Keeps I (insert_if_free taken e)
  insert-Keeps true e = Keeps-pure false
  insert-Keeps false e = search (keep_rules, Keeps-modify, merits)

  pub insert_idempotent-Keeps : (e : MeritEvent) → Keeps I (insert_idempotent e)
  unfolding insert_idempotent
  insert_idempotent-Keeps e = search (keep_rules, insert-Keeps)

  pub record_task_complete-Keeps : (t : Task) → Keeps I (record_task_complete t)
  unfolding record_task_complete
  record_task_complete-Keeps t = search (keep_rules, insert_idempotent-Keeps)

  emit-Keeps : (o : Offence) (n : ℤ) → Keeps I (emit_merit_event o n)
  unfolding emit_merit_event
  emit-Keeps o n = search (keep_rules, insert_idempotent-Keeps)

  pub apply_points-Keeps :
      (r : PenaltyRule) (o : Offence) (a : PenaltyAction) → Keeps I (apply_points r o a)
  unfolding apply_points
  apply_points-Keeps r o PenaltyAction.apply_points = search (keep_rules, emit-Keeps)
  apply_points-Keeps r o PenaltyAction.notify_only = Keeps-pure _
  apply_points-Keeps r o PenaltyAction.apply_fee = Keeps-pure _

  log-Keeps : (r : PenaltyRule) (o : Offence) (n : ℤ) → Keeps I (log_event r o n)
  unfolding log_event
  log-Keeps r o n = search (keep_rules, Keeps-modify, fired)

  rule-Keeps : (r : PenaltyRule) (o : Offence) (recent : Bool) → Keeps I (apply_rule r o recent)
  unfolding apply_rule fire
  rule-Keeps r o true = Keeps-pure _
  rule-Keeps r o false = search (keep_rules, apply_points-Keeps, log-Keeps)

  default-Keeps : (o : Offence) → Keeps I (apply_default o)
  unfolding apply_default
  default-Keeps o = elim (Bool-cases (is_zero o.default_delta)) [
    | inl none_due ↦ rw none_due (Keeps-pure (pos 0))
    | inr due ↦ rw due (search (keep_rules, emit-Keeps))
  ]

  matching-Keeps : (r : Option PenaltyRule) (o : Offence) → Keeps I (apply_matching r o)
  unfolding apply_matching
  matching-Keeps none o = default-Keeps o
  matching-Keeps (some r) o = search (keep_rules, rule-Keeps)

  pub apply_penalty-Keeps : (o : Offence) → Keeps I (apply_penalty o)
  unfolding apply_penalty
  apply_penalty-Keeps o = search (keep_rules, matching-Keeps)
