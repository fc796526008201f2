-- ===== src/Model/Profile.antt =====
-- server/models/sub_profile.py, status_event.py, ritual.py and ritual_occurrence.py.
use debt_collector.Common.Int.{ℤ}
use debt_collector.Common.{ℕ, Bool, Option, String, Enum}

pub data OwnershipStatus : Type 0 where
  free owned in_training collared blackmailed released : OwnershipStatus

instance abbrev pub ownership_enum : Enum OwnershipStatus
ownership_enum = record {
  index = elim [
    | free ↦ 0
    | owned ↦ 1
    | in_training ↦ 2
    | collared ↦ 3
    | blackmailed ↦ 4
    | released ↦ 5
  ];
}

pub record SubProfile : Type 0 where
  pub ownership_status : OwnershipStatus
  pub updated_at : ℕ

pub record StatusEvent : Type 0 where
  pub sub_id : ℕ
  pub goddess_id : ℕ
  pub from_status : OwnershipStatus
  pub to_status : OwnershipStatus
  pub reason : Option String
  pub created_by : ℕ

pub data RitualFrequency : Type 0 where
  daily weekly custom : RitualFrequency

-- A bit of `custom_days_bitmask` is a day of the week, Monday first. `deadline_time` is in seconds.
pub record Ritual : Type 0 where
  pub id : ℕ
  pub sub_id : ℕ
  pub goddess_id : ℕ
  pub title : String
  pub description : Option String
  pub frequency : RitualFrequency
  pub custom_days_bitmask : Option ℕ
  pub deadline_time : Option ℕ
  pub points_on_complete : ℤ
  pub points_on_miss : ℤ
  pub requires_proof : Bool
  pub paused : Bool
  pub created_at : ℕ
  pub updated_at : ℕ

pub data OccurrenceStatus : Type 0 where
  pending completed missed rejected submitted : OccurrenceStatus

instance abbrev pub occurrence_enum : Enum OccurrenceStatus
occurrence_enum = record {
  index = elim [ pending ↦ 0 | completed ↦ 1 | missed ↦ 2 | rejected ↦ 3 | submitted ↦ 4 ];
}

-- `date` is the number of the day.
pub record RitualOccurrence : Type 0 where
  pub id : ℕ
  pub ritual_id : ℕ
  pub sub_id : ℕ
  pub goddess_id : ℕ
  pub date : ℕ
  pub status : OccurrenceStatus
  pub note : Option String
  pub evidence_r2_key : Option String
  pub completed_at : Option ℕ
  pub reviewed_at : Option ℕ
  pub reviewed_by : Option ℕ
  pub created_at : ℕ

pub data ProfileChangeRequestStatus : Type 0 where
  pending approved rejected awaiting_fee_payment cancelled : ProfileChangeRequestStatus

instance abbrev pub change_status_enum : Enum ProfileChangeRequestStatus
change_status_enum = record {
  index = elim [
    | pending ↦ 0
    | approved ↦ 1
    | rejected ↦ 2
    | awaiting_fee_payment ↦ 3
    | cancelled ↦ 4
  ];
}

pub data AvatarKey : Type 0 where
  default pink_1 pink_2 pink_3 pink_4 dark_1 dark_2 dark_3 accent_1 accent_2 : AvatarKey

-- `fee_amount` is in pence.
pub record ProfileChangeRequest : Type 0 where
  pub id : ℕ
  pub sub_id : ℕ
  pub requested_at : ℕ
  pub status : ProfileChangeRequestStatus
  pub proposed_first_name : Option String
  pub proposed_last_name : Option String
  pub proposed_display_name : Option String
  pub proposed_notes : Option String
  pub proposed_avatar_key : Option AvatarKey
  pub proposed_real_name : Option String
  pub fee_amount : Option ℕ
  pub fee_payment_id : Option ℕ
  pub resolved_at : Option ℕ
  pub resolution_note : Option String

-- The columns of a user that a change request is about.
pub record Identity : Type 0 where
  pub first_name : Option String
  pub last_name : Option String
  pub avatar_key : AvatarKey
  pub real_name : Option String
