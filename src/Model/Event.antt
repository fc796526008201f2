-- ===== src/Model/Event.antt =====
-- server/models/debt_event.py and server/models/adjustment.py: what changes a contract's balance.
use debt_collector.Common.{ℕ, Option, String, Enum}

pub data EventType : Type 0 where
  period_interest late_penalty payment_applied adjustment surprise_penalty buyout_paid : EventType

instance abbrev pub event_type_enum : Enum EventType
event_type_enum = record {
  index = elim [
    | period_interest ↦ 0
    | late_penalty ↦ 1
    | payment_applied ↦ 2
    | adjustment ↦ 3
    | surprise_penalty ↦ 4
    | buyout_paid ↦ 5
  ];
}

-- `amount` has four decimals: ten-thousandths of a pound, or of one for a rate.
pub record DebtEvent : Type 0 where
  pub contract_id : ℕ
  pub event_type : EventType
  pub amount : ℕ
  pub period_index : Option ℕ
  pub created_at : ℕ

pub data AdjustmentStatus : Type 0 where
  applied pending_sub_approval accepted refused : AdjustmentStatus

instance abbrev pub adjustment_status_enum : Enum AdjustmentStatus
adjustment_status_enum = record {
  index = elim [ applied ↦ 0 | pending_sub_approval ↦ 1 | accepted ↦ 2 | refused ↦ 3 ];
}

pub data ContractAdjustmentKind : Type 0 where
  surprise_penalty adjustment : ContractAdjustmentKind

-- `amount` has two decimals: pence.
pub record ContractAdjustment : Type 0 where
  pub id : ℕ
  pub contract_id : ℕ
  pub proposed_by : ℕ
  pub kind : Option ContractAdjustmentKind
  pub amount : ℕ
  pub reason : Option String
  pub status : AdjustmentStatus
  pub created_at : ℕ
  pub updated_at : ℕ
  pub resolved_at : Option ℕ
