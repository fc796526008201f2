-- ===== src/Model/Payment.antt =====
-- server/models/payment.py, payment_method.py, rolling.py and sub_safeword.py.
use debt_collector.Common.{ℕ, Bool, Option, String, Enum}

pub data DeclarationSource : Type 0 where
  sub_declared goddess_recorded ingested : DeclarationSource

pub data PaymentCategory : Type 0 where
  entry rolling weekly_debt debt_payment buyout tribute : PaymentCategory
  profile_change_fee wishlist : PaymentCategory

instance abbrev pub category_enum : Enum PaymentCategory
category_enum = record {
  index = elim [
    | entry ↦ 0
    | rolling ↦ 1
    | weekly_debt ↦ 2
    | debt_payment ↦ 3
    | buyout ↦ 4
    | tribute ↦ 5
    | profile_change_fee ↦ 6
    | wishlist ↦ 7
  ];
}

pub data PaymentStatus : Type 0 where
  pending validated rejected cancelled : PaymentStatus

instance abbrev pub payment_status_enum : Enum PaymentStatus
payment_status_enum = record {
  index = elim [ pending ↦ 0 | validated ↦ 1 | rejected ↦ 2 | cancelled ↦ 3 ];
}

pub data AllocationTargetType : Type 0 where
  entry rolling_cycle contract_debt contract_buyout tribute wishlist_goal : AllocationTargetType

instance abbrev pub target_enum : Enum AllocationTargetType
target_enum = record {
  index = elim [
    | entry ↦ 0
    | rolling_cycle ↦ 1
    | contract_debt ↦ 2
    | contract_buyout ↦ 3
    | tribute ↦ 4
    | wishlist_goal ↦ 5
  ];
}

-- `amount` is in pence.
pub record PaymentDeclaration : Type 0 where
  pub id : ℕ
  pub sub_id : ℕ
  pub goddess_id : ℕ
  pub method_id : ℕ
  pub amount : ℕ
  pub external_timestamp : Option ℕ
  pub note : Option String
  pub category : PaymentCategory
  pub status : PaymentStatus
  pub target_id : Option ℕ
  pub created_by : ℕ
  pub declared_at : ℕ
  pub validated_at : Option ℕ
  pub validated_by : Option ℕ
  pub rejection_reason : Option String
  pub source : DeclarationSource
  pub proof_key : Option ℕ

pub record PaymentAllocation : Type 0 where
  pub declaration_id : ℕ
  pub target_type : AllocationTargetType
  pub target_id : Option ℕ
  pub amount : ℕ

pub record PaymentMethod : Type 0 where
  pub goddess_id : ℕ
  pub enabled : Bool

-- The index of a day is that of `date.weekday()`.
pub data DeadlineDay : Type 0 where
  mon tue wed thu fri sat sun : DeadlineDay

instance abbrev pub day_enum : Enum DeadlineDay
day_enum = record {
  index = elim [ mon ↦ 0 | tue ↦ 1 | wed ↦ 2 | thu ↦ 3 | fri ↦ 4 | sat ↦ 5 | sun ↦ 6 ];
}

pub data TributePeriod : Type 0 where
  weekly monthly : TributePeriod

-- `amount` is in pence, and `grace_below_percent` in ten-thousandths of the amount.
pub record TributeMinimum : Type 0 where
  pub sub_id : ℕ
  pub goddess_id : ℕ
  pub amount : ℕ
  pub period : TributePeriod
  pub grace_below_percent : ℕ
  pub created_at : ℕ
  pub updated_at : ℕ

-- `amount` is in pence, and `deadline_time` in seconds of the day.
pub record RollingTribute : Type 0 where
  pub id : ℕ
  pub sub_id : ℕ
  pub goddess_id : ℕ
  pub amount : ℕ
  pub deadline_day : DeadlineDay
  pub deadline_time : ℕ
  pub late_multiplier_per_day : ℕ
  pub paused : Bool
  pub notes : Option String
  pub last_paid_at : Option ℕ
  pub created_at : ℕ
  pub updated_at : ℕ
