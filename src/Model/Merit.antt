-- ===== src/Model/Merit.antt =====
-- server/models/merit_event.py, penalty_rule.py, task.py, reward_tier.py, punishment_tier.py and
-- reward_redemption.py.
use debt_collector.Common.{ℕ, Bool, Option, String, Enum}
use debt_collector.Common.Int.{ℤ}

pub data MeritSourceKind : Type 0 where
  ritual_complete ritual_miss task_complete task_miss manual reward_redeem : MeritSourceKind
  punishment_invoke contract_miss rolling_late : MeritSourceKind

instance abbrev pub merit_source_enum : Enum MeritSourceKind
merit_source_enum = record {
  index = elim [
    | ritual_complete ↦ 0
    | ritual_miss ↦ 1
    | task_complete ↦ 2
    | task_miss ↦ 3
    | manual ↦ 4
    | reward_redeem ↦ 5
    | punishment_invoke ↦ 6
    | contract_miss ↦ 7
    | rolling_late ↦ 8
  ];
}

pub record MeritEvent : Type 0 where
  pub sub_id : ℕ
  pub goddess_id : ℕ
  pub source_kind : MeritSourceKind
  pub source_id : Option ℕ
  pub delta : ℤ
  pub created_at : ℕ

pub data PenaltyTrigger : Type 0 where
  contract_missed ritual_missed rolling_late task_missed : PenaltyTrigger

instance abbrev pub trigger_enum : Enum PenaltyTrigger
trigger_enum = record {
  index = elim [ contract_missed ↦ 0 | ritual_missed ↦ 1 | rolling_late ↦ 2 | task_missed ↦ 3 ];
}

pub data PenaltyAction : Type 0 where
  notify_only apply_points apply_fee : PenaltyAction

instance abbrev pub penalty_action_enum : Enum PenaltyAction
penalty_action_enum = record { index = elim [ notify_only ↦ 0 | apply_points ↦ 1 | apply_fee ↦ 2 ] }

-- `fee_amount` is in pence, and `fee_percent` in hundredths of a percent.
pub record PenaltyRule : Type 0 where
  pub id : ℕ
  pub goddess_id : ℕ
  pub sub_id : Option ℕ
  pub trigger : PenaltyTrigger
  pub action : PenaltyAction
  pub points_delta : ℤ
  pub fee_amount : Option ℤ
  pub name : Option String
  pub fee_percent : Option ℤ
  pub min_days_late : Option ℕ
  pub cooldown_hours : ℕ
  pub active : Bool
  pub created_at : ℕ
  pub updated_at : ℕ

-- The source kinds that the callers of the engine pass as strings.
pub data PenaltySource : Type 0 where
  ritual_miss task_miss contract_miss rolling_late : PenaltySource

instance abbrev pub penalty_source_enum : Enum PenaltySource
penalty_source_enum = record {
  index = elim [ ritual_miss ↦ 0 | task_miss ↦ 1 | contract_miss ↦ 2 | rolling_late ↦ 3 ];
}

pub record PenaltyEvent : Type 0 where
  pub rule_id : ℕ
  pub sub_id : ℕ
  pub goddess_id : ℕ
  pub trigger : PenaltyTrigger
  pub action : PenaltyAction
  pub points_delta : ℤ
  pub source_kind : PenaltySource
  pub source_id : Option ℕ
  pub created_at : ℕ

pub data TaskStatus : Type 0 where
  open_task submitted approved rejected cancelled : TaskStatus

instance abbrev pub task_status_enum : Enum TaskStatus
task_status_enum = record {
  index = elim [ open_task ↦ 0 | submitted ↦ 1 | approved ↦ 2 | rejected ↦ 3 | cancelled ↦ 4 ];
}

pub record Task : Type 0 where
  pub id : ℕ
  pub sub_id : ℕ
  pub goddess_id : ℕ
  pub title : String
  pub description : Option String
  pub due_at : Option ℕ
  pub points_on_complete : ℤ
  pub points_on_miss : ℤ
  pub status : TaskStatus
  pub evidence_r2_key : Option String
  pub note : Option String
  pub rejection_reason : Option String
  pub submitted_at : Option ℕ
  pub reviewed_at : Option ℕ
  pub reviewed_by : Option ℕ
  pub created_at : ℕ
  pub updated_at : ℕ

-- `cost` is positive, by a constraint of the table.
pub record RewardTier : Type 0 where
  pub id : ℕ
  pub goddess_id : ℕ
  pub name : String
  pub description : Option String
  pub cost : ℕ
  pub active : Bool
  pub created_at : ℕ
  pub updated_at : ℕ

pub record PunishmentTier : Type 0 where
  pub id : ℕ
  pub goddess_id : ℕ
  pub name : String
  pub description : Option String
  pub default_points_penalty : ℤ
  pub active : Bool
  pub created_at : ℕ
  pub updated_at : ℕ

pub record RewardRedemption : Type 0 where
  pub id : ℕ
  pub sub_id : ℕ
  pub goddess_id : ℕ
  pub reward_id : ℕ
  pub cost_snapshot : ℕ
  pub created_at : ℕ
