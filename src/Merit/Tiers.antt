-- ===== src/Merit/Tiers.antt =====
-- server/controllers/merits_controller.py: the rewards and punishments that a goddess keeps, and the
-- invocation of a punishment; with daos/reward_tier_dao.py and daos/punishment_tier_dao.py.

pub mod Invoke
use debt_collector.Common.{
  ℕ, Bool, true, false, not, Option, none, some, String, ◌&&◌, is_none, if◌then◌else◌, ◌==◌,
}
use debt_collector.Common.Int.{ℤ, pos}
use debt_collector.Common.Table.{find_row, put_row, remove_row}
use debt_collector.Common.Lists.{any_of}
use debt_collector.Model.{
  User, RewardTier, PunishmentTier, Task, TaskStatus, MeritSourceKind, Db, Action, Done, AppError,
  or_raise, raise_if, gets, modify, pure, fresh_id, now_utc, ◌>>=◌, ◌>>◌,
}
use debt_collector.Session.{resolve_goddess_id}
use debt_collector.Payment.Declare.{patched}
use debt_collector.Merit.{insert_idempotent}
use debt_collector.Task.{save_task, require_sub_under_goddess}

pub record RewardTierIn : Type 0 where
  pub name : String
  pub description : Option String
  pub cost : ℕ
  pub active : Bool

-- The fields that the request sets.
pub record RewardTierPatchIn : Type 0 where
  pub name : Option String
  pub description : Option (Option String)
  pub cost : Option ℕ
  pub active : Option Bool

pub record PunishmentTierIn : Type 0 where
  pub name : String
  pub description : Option String
  pub default_points_penalty : ℤ
  pub active : Bool

-- The fields that the request sets.
pub record PunishmentTierPatchIn : Type 0 where
  pub name : Option String
  pub description : Option (Option String)
  pub default_points_penalty : Option ℤ
  pub active : Option Bool

unfoldable pub save_reward : RewardTier → Action RewardTier
save_reward tier = do
  modify (λ db. record db { reward_tiers = put_row tier.id tier db.reward_tiers })
  pure tier

unfoldable pub save_punishment : PunishmentTier → Action PunishmentTier
save_punishment tier = do
  modify (λ db. record db { punishment_tiers = put_row tier.id tier db.punishment_tiers })
  pure tier

unfoldable pub require_owned_reward : ℕ → ℕ → Action RewardTier
require_owned_reward goddess_id tier_id = do
  found ← gets (λ db. find_row tier_id db.reward_tiers)
  tier ← or_raise found AppError.not_found
  raise_if (not (tier.goddess_id == goddess_id)) AppError.forbidden
  pure tier

unfoldable pub require_owned_punishment : ℕ → ℕ → Action PunishmentTier
require_owned_punishment goddess_id tier_id = do
  found ← gets (λ db. find_row tier_id db.punishment_tiers)
  tier ← or_raise found AppError.not_found
  raise_if (not (tier.goddess_id == goddess_id)) AppError.forbidden
  pure tier

unfoldable pub create_reward_tier : User → RewardTierIn → Action RewardTier
create_reward_tier goddess_user payload = do
  goddess_id ← resolve_goddess_id goddess_user.id
  now ← now_utc
  id ← fresh_id
  save_reward (record {
    id = id;
    goddess_id = goddess_id;
    name = payload.name;
    description = payload.description;
    cost = payload.cost;
    active = payload.active;
    created_at = now;
    updated_at = now;
  })

abbrev pub is_empty_reward : RewardTierPatchIn → Bool
is_empty_reward patch =
    is_none patch.name
    && (is_none patch.description && (is_none patch.cost && is_none patch.active))

-- The update of the DAO.
unfoldable pub patch_reward : RewardTierPatchIn → RewardTier → Action RewardTier
patch_reward patch tier = do
  now ← now_utc
  save_reward (record tier {
    name = patched patch.name tier.name;
    description = patched patch.description tier.description;
    cost = patched patch.cost tier.cost;
    active = patched patch.active tier.active;
    updated_at = now;
  })

unfoldable pub update_reward_tier : User → ℕ → RewardTierPatchIn → Action RewardTier
update_reward_tier goddess_user tier_id patch = do
  goddess_id ← resolve_goddess_id goddess_user.id
  tier ← require_owned_reward goddess_id tier_id
  if is_empty_reward patch then pure tier else patch_reward patch tier

-- A redemption keeps its reward (the foreign key is RESTRICT): the delete of one fails at the flush.
unfoldable pub delete_reward_tier : User → ℕ → Action Done
delete_reward_tier goddess_user tier_id = do
  goddess_id ← resolve_goddess_id goddess_user.id
  tier ← require_owned_reward goddess_id tier_id
  redeemed ← gets (λ db. any_of (λ r. r.reward_id == tier.id) db.redemptions)
  raise_if redeemed AppError.integrity_error
  modify (λ db. record db { reward_tiers = remove_row tier.id db.reward_tiers })

unfoldable pub create_punishment_tier : User → PunishmentTierIn → Action PunishmentTier
create_punishment_tier goddess_user payload = do
  goddess_id ← resolve_goddess_id goddess_user.id
  now ← now_utc
  id ← fresh_id
  save_punishment (record {
    id = id;
    goddess_id = goddess_id;
    name = payload.name;
    description = payload.description;
    default_points_penalty = payload.default_points_penalty;
    active = payload.active;
    created_at = now;
    updated_at = now;
  })

abbrev pub is_empty_punishment : PunishmentTierPatchIn → Bool
is_empty_punishment patch =
    is_none patch.name
    && (is_none patch.description && (is_none patch.default_points_penalty && is_none patch.active))

-- The update of the DAO.
unfoldable pub patch_punishment : PunishmentTierPatchIn → PunishmentTier → Action PunishmentTier
patch_punishment patch tier = do
  now ← now_utc
  save_punishment (record tier {
    name = patched patch.name tier.name;
    description = patched patch.description tier.description;
    default_points_penalty = patched patch.default_points_penalty tier.default_points_penalty;
    active = patched patch.active tier.active;
    updated_at = now;
  })

unfoldable pub update_punishment_tier : User → ℕ → PunishmentTierPatchIn → Action PunishmentTier
update_punishment_tier goddess_user tier_id patch = do
  goddess_id ← resolve_goddess_id goddess_user.id
  tier ← require_owned_punishment goddess_id tier_id
  if is_empty_punishment patch then pure tier else patch_punishment patch tier

unfoldable pub delete_punishment_tier : User → ℕ → Action Done
delete_punishment_tier goddess_user tier_id = do
  goddess_id ← resolve_goddess_id goddess_user.id
  tier ← require_owned_punishment goddess_id tier_id
  modify (λ db. record db { punishment_tiers = remove_row tier.id db.punishment_tiers })

-- The task that an invoked punishment makes; the points on its completion are the default of the
-- column.
abbrev pub punishment_task : ℕ → ℕ → ℕ → PunishmentTier → ℕ → Task
punishment_task id sub_id goddess_id tier now = record {
  id = id;
  sub_id = sub_id;
  goddess_id = goddess_id;
  title = tier.name;
  description = tier.description;
  due_at = none;
  points_on_complete = pos 1;
  points_on_miss = tier.default_points_penalty;
  status = TaskStatus.open_task;
  evidence_r2_key = none;
  note = none;
  rejection_reason = none;
  submitted_at = none;
  reviewed_at = none;
  reviewed_by = none;
  created_at = now;
  updated_at = now;
}

unfoldable pub invoke_punishment : User → ℕ → ℕ → Action Task
invoke_punishment goddess_user punishment_id sub_id = do
  goddess_id ← resolve_goddess_id goddess_user.id
  tier ← require_owned_punishment goddess_id punishment_id
  raise_if (not tier.active) AppError.conflict
  require_sub_under_goddess goddess_id sub_id
  now ← now_utc
  task_id ← fresh_id
  let task = punishment_task task_id sub_id goddess_id tier now
  save_task task
  insert_idempotent (record {
    sub_id = sub_id;
    goddess_id = goddess_id;
    source_kind = MeritSourceKind.punishment_invoke;
    source_id = some task_id;
    delta = tier.default_points_penalty;
    created_at = now;
  })
  pure task
