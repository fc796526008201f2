-- ===== src/Merit/Penalty.antt =====
-- `apply_penalty` of server/services/penalty/engine.py and the balance of the sub.
use debt_collector.Common.{
  ℕ, ◌≡◌, refl, ◌∙◌, Bool, true, false, ◌&&◌, ◌||◌, not, some, ◌==◌, ==_refl, if◌then◌else◌,
}
use debt_collector.Common.Int.{ℤ, pos, ◌+ℤ◌, int_laws}
use debt_collector.Common.Lists.{any_of}
use debt_collector.Model.{Db, PenaltyRule, PenaltyAction, penalty_source_enum}
use debt_collector.Model.Leaves.{
  Leaves, Leaves-bind, Leaves-gets, Leaves-now_utc, Leaves-modify, Leaves-pure, Leaves-assoc,
}
use debt_collector.Merit.{same_source, balance_for_sub}
use debt_collector.Merit.Balance.{share, insert_idempotent-balance}
use debt_collector.Merit.Engine.{
  Offence, merit_source_kind_for, find_matching_rule, fired_within_cooldown, emit_merit_event,
  log_event, if_inserted, apply_points, fire, apply_rule, apply_matching, apply_penalty,
}

-- The points that a rule with an action takes, unless it is held back.
abbrev pub points_unless : Bool → PenaltyAction → ℤ → ℤ
points_unless held PenaltyAction.apply_points points = if held then pos 0 else points
points_unless held PenaltyAction.notify_only points = pos 0
points_unless held PenaltyAction.apply_fee points = pos 0

-- An offence has its merit event already.
abbrev pub has_event : Offence → Db → Bool
has_event o db =
    any_of (same_source (merit_source_kind_for o.source_kind) o.source_id) db.merit_events

module _ (rule : PenaltyRule) (o : Offence) where
  -- What is returned, and the balance before and after.
  abbrev pub Takes : Bool → Db → ℤ → Db → Type 0
  Takes held db delta d =
      (delta ≡ points_unless held rule.action rule.points_delta)
      × (balance_for_sub o.sub_id o.goddess_id d
          ≡ balance_for_sub o.sub_id o.goddess_id db +ℤ delta)

  -- The points that a rule applies are what the balance changes by.
  applied :
      (before after : ℤ) (inserted taken : Bool) (s g : ℕ) (points : ℤ)
      → inserted ≡ not taken
      → after ≡ before +ℤ share (inserted && (s == s && g == g)) points
      → (if_inserted inserted points ≡ points_unless taken PenaltyAction.apply_points points)
        × (after ≡ before +ℤ if_inserted inserted points)
  applied before after true false s g points free h = (refl, h ∙ rw (==_refl s, ==_refl g) refl)
  applied before after false true s g points free h = (refl, h)
  applied before after true true s g points free h = cc
  applied before after false false s g points free h = cc

  apply_points-balance :
      (action : PenaltyAction) (db : Db)
      → Leaves
          (λ delta d.
            (delta ≡ points_unless (has_event o db) action rule.points_delta)
            × (balance_for_sub o.sub_id o.goddess_id d
                ≡ balance_for_sub o.sub_id o.goddess_id db +ℤ delta))
          (apply_points rule o action db)
  unfolding apply_points emit_merit_event
  apply_points-balance PenaltyAction.apply_points db = Leaves-assoc _ _ _ db (
      Leaves-now_utc _ db (
        Leaves-bind _ _ _ db (insert_idempotent-balance _ o.sub_id o.goddess_id db)
          λ inserted d done (free, changed). Leaves-pure _ d (
            applied _ _ inserted (has_event o db) o.sub_id o.goddess_id rule.points_delta free
              changed)))
  apply_points-balance PenaltyAction.notify_only db = Leaves-pure _ db (refl, omega int_laws)
  apply_points-balance PenaltyAction.apply_fee db = Leaves-pure _ db (refl, omega int_laws)

  fire-balance : (db : Db) → Leaves (Takes (has_event o db) db) (fire rule o db)
  unfolding fire log_event balance_for_sub
  fire-balance db =
      Leaves-bind _ _ _ db (apply_points-balance rule.action db) λ delta d done changed.
        Leaves-assoc _ _ _ d (Leaves-now_utc _ d (Leaves-modify _ _ d (Leaves-pure _ _ changed)))

  held_back : (action : PenaltyAction) (points : ℤ) → pos 0 ≡ points_unless true action points
  held_back PenaltyAction.apply_points points = refl
  held_back PenaltyAction.notify_only points = refl
  held_back PenaltyAction.apply_fee points = refl

  -- Where a rule matches, the engine returns the rule's points when the rule is to apply points, has
  -- not fired within its cooldown and the offence has no merit event yet, and 0 otherwise; the balance
  -- of the sub with the goddess has changed by what is returned.
  pub apply_penalty-balance :
      (db : Db)
      → find_matching_rule o db ≡ some rule
      → Leaves
          (λ delta d.
            (delta
              ≡ points_unless
                  (fired_within_cooldown rule o db.clock db || has_event o db)
                  rule.action
                  rule.points_delta)
            × (balance_for_sub o.sub_id o.goddess_id d
                ≡ balance_for_sub o.sub_id o.goddess_id db +ℤ delta))
          (apply_penalty o db)
  unfolding apply_penalty apply_matching apply_rule
  apply_penalty-balance db found = Leaves-gets _ _ db (
      rw found (
        Leaves-now_utc _ db
          (Leaves-gets _ _ db (either (fired_within_cooldown rule o db.clock db)))))
    where
      either :
          (recent : Bool)
          → Leaves (Takes (recent || has_event o db) db) (apply_rule rule o recent db)
      either true = Leaves-pure _ db (held_back rule.action rule.points_delta, omega int_laws)
      either false = fire-balance db
