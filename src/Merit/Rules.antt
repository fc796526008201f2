-- ===== src/Merit/Rules.antt =====
-- server/controllers/penalty_rule_controller.py with daos/penalty_rule_dao.py: the penalty rules that a
-- goddess keeps.
use debt_collector.Common.{
  ℕ, Bool, true, not, ◌&&◌, Option, none, some, String, ◌==◌, is_none, if◌then◌else◌,
}
use debt_collector.Common.Int.{ℤ, pos, leb_ℤ}
use debt_collector.Common.Table.{find_row, put_row, remove_row}
use debt_collector.Common.Lists.{select}
use debt_collector.Model.{
  User, PenaltyTrigger, PenaltyAction, PenaltyRule, Db, Action, Done, AppError, or_raise, raise_if,
  gets, modify, pure, fresh_id, now_utc, ◌>>=◌, ◌>>◌,
}
use debt_collector.Session.{resolve_goddess_id}
use debt_collector.Debt.Propose.{is_linked}
use debt_collector.Payment.Declare.{patched}

pub record PenaltyRuleIn : Type 0 where
  pub sub_id : Option ℕ
  pub trigger : PenaltyTrigger
  pub action : PenaltyAction
  pub points_delta : ℤ
  pub fee_amount : Option ℤ
  pub name : Option String
  pub fee_percent : Option ℤ
  pub min_days_late : Option ℕ
  pub cooldown_hours : ℕ
  pub active : Bool

-- The fields that the request sets.
pub record PenaltyRuleUpdate : Type 0 where
  pub sub_id : Option (Option ℕ)
  pub trigger : Option PenaltyTrigger
  pub action : Option PenaltyAction
  pub points_delta : Option ℤ
  pub fee_amount : Option (Option ℤ)
  pub name : Option (Option String)
  pub fee_percent : Option (Option ℤ)
  pub min_days_late : Option (Option ℕ)
  pub cooldown_hours : Option ℕ
  pub active : Option Bool

-- `0 <= value <= 100`, in hundredths.
abbrev pub fee_in_range : Option ℤ → Bool
fee_in_range none = true
fee_in_range (some value) = leb_ℤ (pos 0) value && leb_ℤ value (pos 10000)

unfoldable pub validate_fee_percent : Option ℤ → Action Done
validate_fee_percent value = raise_if (not (fee_in_range value)) AppError.validation

-- `_require_sub_under_goddess`, where a sub is named.
abbrev pub names_own_sub : ℕ → Option ℕ → Db → Bool
names_own_sub goddess_id none db = true
names_own_sub goddess_id (some sub_id) db = is_linked goddess_id sub_id db

unfoldable pub require_sub_if_named : ℕ → Option ℕ → Action Done
require_sub_if_named goddess_id named = do
  own ← gets (names_own_sub goddess_id named)
  raise_if (not own) AppError.bad_request

unfoldable pub require_owned_rule : ℕ → ℕ → Action PenaltyRule
require_owned_rule goddess_id rule_id = do
  found ← gets (λ db. find_row rule_id db.penalty_rules)
  rule ← or_raise found AppError.not_found
  raise_if (not (rule.goddess_id == goddess_id)) AppError.forbidden
  pure rule

unfoldable pub save_rule : PenaltyRule → Action PenaltyRule
save_rule rule = do
  modify (λ db. record db { penalty_rules = put_row rule.id rule db.penalty_rules })
  pure rule

abbrev pub new_rule : ℕ → ℕ → PenaltyRuleIn → ℕ → PenaltyRule
new_rule id goddess_id payload now = record {
  id = id;
  goddess_id = goddess_id;
  sub_id = payload.sub_id;
  trigger = payload.trigger;
  action = payload.action;
  points_delta = payload.points_delta;
  fee_amount = payload.fee_amount;
  name = payload.name;
  fee_percent = payload.fee_percent;
  min_days_late = payload.min_days_late;
  cooldown_hours = payload.cooldown_hours;
  active = payload.active;
  created_at = now;
  updated_at = now;
}

unfoldable pub create_rule : User → PenaltyRuleIn → Action PenaltyRule
create_rule goddess_user payload = do
  goddess_id ← resolve_goddess_id goddess_user.id
  require_sub_if_named goddess_id payload.sub_id
  validate_fee_percent payload.fee_percent
  now ← now_utc
  id ← fresh_id
  save_rule (new_rule id goddess_id payload now)

abbrev pub is_empty_rule : PenaltyRuleUpdate → Bool
is_empty_rule patch =
    is_none patch.sub_id
    && is_none patch.trigger
    && is_none patch.action
    && is_none patch.points_delta
    && is_none patch.fee_amount
    && is_none patch.name
    && is_none patch.fee_percent
    && is_none patch.min_days_late
    && is_none patch.cooldown_hours
    && is_none patch.active

abbrev pub updated_rule : PenaltyRuleUpdate → PenaltyRule → ℕ → PenaltyRule
updated_rule patch rule now = record rule {
  sub_id = patched patch.sub_id rule.sub_id;
  trigger = patched patch.trigger rule.trigger;
  action = patched patch.action rule.action;
  points_delta = patched patch.points_delta rule.points_delta;
  fee_amount = patched patch.fee_amount rule.fee_amount;
  name = patched patch.name rule.name;
  fee_percent = patched patch.fee_percent rule.fee_percent;
  min_days_late = patched patch.min_days_late rule.min_days_late;
  cooldown_hours = patched patch.cooldown_hours rule.cooldown_hours;
  active = patched patch.active rule.active;
  updated_at = now;
}

unfoldable pub patch_rule : PenaltyRuleUpdate → PenaltyRule → Action PenaltyRule
patch_rule patch rule = do now ← now_utc; save_rule (updated_rule patch rule now)

-- A field that is not set is as one that is set to nothing.
unfoldable pub update_rule : User → ℕ → PenaltyRuleUpdate → Action PenaltyRule
update_rule goddess_user rule_id patch = do
  goddess_id ← resolve_goddess_id goddess_user.id
  rule ← require_owned_rule goddess_id rule_id
  require_sub_if_named goddess_id (patched patch.sub_id none)
  validate_fee_percent (patched patch.fee_percent none)
  if is_empty_rule patch then pure rule else patch_rule patch rule

-- The events of the rule go with it (the foreign key is CASCADE).
unfoldable pub delete_rule : User → ℕ → Action Done
delete_rule goddess_user rule_id = do
  goddess_id ← resolve_goddess_id goddess_user.id
  rule ← require_owned_rule goddess_id rule_id
  modify λ db. record db {
    penalty_rules = remove_row rule.id db.penalty_rules;
    penalty_events = select (λ e. not (e.rule_id == rule.id)) db.penalty_events;
  }
