-- ===== src/Merit/Cooldown.antt =====
-- `apply_penalty` of server/services/penalty/engine.py and the cooldown of a rule.
use debt_collector.Common.{
  ℕ, ◌≡◌, refl, ◌∙◌, Bool, true, false, ◌||◌, Option, none, some, arith, ==_refl, Bool-cases, inl,
  inr,
}
use debt_collector.Common.Int.{ℤ, pos}
use debt_collector.Common.Lists.{any_of, any_of-append}
use debt_collector.Model.{Db, PenaltyRule, PenaltyAction, ok, ◌>>=◌, penalty_source_enum}
use debt_collector.Model.Leaves.{
  Leaves, Leaves-bind, Leaves-weaken, Leaves-gets, Leaves-now_utc, Leaves-modify, Leaves-pure,
  Leaves-assoc,
}
use debt_collector.Model.Keeps.{Keeps}
use debt_collector.Merit.Keeps.{apply_points-Keeps}
use debt_collector.Merit.Engine.{
  Offence, find_best, find_matching_rule, is_recent, from_source, fired_within_cooldown, log_event,
  apply_points, fire, apply_rule, apply_matching, apply_penalty,
}

-- What an action leaves that writes merits only.
abbrev SameRules : Db → Db → Type 0
SameRules db d = (d.penalty_rules ≡ db.penalty_rules) × (d.clock ≡ db.clock)

points-SameRules :
    (db : Db) (rule : PenaltyRule) (o : Offence) (action : PenaltyAction)
    → Keeps (SameRules db) (apply_points rule o action)
points-SameRules db = apply_points-Keeps (SameRules db) (λ d es h. h) (λ d es h. h)

from_source_self : (id : Option ℕ) → from_source id id ≡ true
from_source_self none = refl
from_source_self (some i) = ==_refl i

or_true : (a b : Bool) → b ≡ true → (a || (b || false)) ≡ true
or_true a b h = ground arith

module _ (rule : PenaltyRule) (o : Offence) where
  rules-matching :
      (db d : Db)
      → d.penalty_rules ≡ db.penalty_rules
      → find_matching_rule o d ≡ find_matching_rule o db
  unfolding find_matching_rule find_best
  rules-matching db d same = rw same refl

  -- While it is cooling down, a rule does nothing.
  cooling :
      (d : Db)
      → find_matching_rule o d ≡ some rule
      → fired_within_cooldown rule o d.clock d ≡ true
      → apply_penalty o d ≡ ok (pos 0, d)
  unfolding apply_penalty apply_matching apply_rule ◌>>=◌
  cooling d found recent = rw (found, recent) refl

  recent_self :
      (now : ℕ) (delta : ℤ)
      → is_recent rule o now (record {
        rule_id = rule.id;
        sub_id = o.sub_id;
        goddess_id = rule.goddess_id;
        trigger = o.trigger;
        action = rule.action;
        points_delta = delta;
        source_kind = o.source_kind;
        source_id = o.source_id;
        created_at = now;
      })
        ≡ true
  recent_self now delta =
      rw (==_refl rule.id, ==_refl o.sub_id, from_source_self o.source_id) (ground arith)

  fire-recent :
      (db : Db)
      → Leaves
          (λ delta d. SameRules db d × (fired_within_cooldown rule o d.clock d ≡ true))
          (fire rule o db)
  unfolding fire log_event fired_within_cooldown
  fire-recent db =
      Leaves-bind (λ _. SameRules db) _ _ db
        ((points-SameRules db rule o rule.action).keeps db (refl, refl))
        λ delta d done same. Leaves-assoc _ _ _ d (
          Leaves-now_utc _ d (
            Leaves-modify _ _ d (
              Leaves-pure _ _ (
                same,
                any_of-append (is_recent rule o d.clock) d.penalty_events _
                    ∙ or_true (any_of (is_recent rule o d.clock) d.penalty_events) _
                        (recent_self d.clock delta),
              ))))

  -- Where a rule matches an offence and the engine has been asked about it, asking again at the same
  -- time changes nothing more and applies no points, whether the rule fired the first time or was
  -- cooling down already.
  pub apply_penalty-once :
      (db : Db)
      → find_matching_rule o db ≡ some rule
      → Leaves (λ delta d. apply_penalty o d ≡ ok (pos 0, d)) (apply_penalty o db)
  unfolding apply_penalty apply_matching apply_rule
  apply_penalty-once db found = Leaves-gets _ _ db (
      rw found (
        Leaves-now_utc _ db (
          Leaves-gets _ _ db (elim (Bool-cases (fired_within_cooldown rule o db.clock db)) [
            | inl recent ↦ rw recent (Leaves-pure _ db (cooling db found recent))
            | inr idle ↦ rw idle (
                Leaves-weaken _ (fire-recent db)
                  λ delta d h. cooling d (rules-matching db d h.0.0 ∙ found) h.1)
          ]))))
