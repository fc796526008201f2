-- ===== src/Model/Account.antt =====
-- server/models/user.py and server/models/notification.py: who acts, and who is told.
use debt_collector.Common.{ℕ, Option, Enum, String}

pub data UserRole : Type 0 where
  admin goddess sub : UserRole

instance abbrev pub role_enum : Enum UserRole
role_enum = record { index = elim [ admin ↦ 0 | goddess ↦ 1 | sub ↦ 2 ] }

pub data UserStatus : Type 0 where
  pending_entry_tribute active blacklisted deleted : UserStatus

instance abbrev pub user_status_enum : Enum UserStatus
user_status_enum = record {
  index = elim [ pending_entry_tribute ↦ 0 | active ↦ 1 | blacklisted ↦ 2 | deleted ↦ 3 ];
}

-- The columns that the modelled handlers read or write.
pub record User : Type 0 where
  pub id : ℕ
  pub goddess_id : Option ℕ
  pub role : UserRole
  pub status : UserStatus

pub data NotificationType : Type 0 where
  payment_pending payment_validated payment_rejected : NotificationType
  contract_proposed contract_countered contract_counter_accepted : NotificationType
  contract_counter_rejected contract_signed contract_needs_resignature : NotificationType
  contract_surprise_penalty contract_adjustment_proposed : NotificationType
  contract_adjustment_accepted contract_adjustment_refused : NotificationType
  contract_buyout_paid contract_renewed sub_panic review_reminder : NotificationType
  rolling_late contract_late_penalty contract_period_interest : NotificationType
  contract_breached contract_forgiven : NotificationType

instance abbrev pub notification_enum : Enum NotificationType
notification_enum = record {
  index = elim [
    | payment_pending ↦ 0
    | payment_validated ↦ 1
    | payment_rejected ↦ 2
    | contract_proposed ↦ 3
    | contract_countered ↦ 4
    | contract_counter_accepted ↦ 5
    | contract_counter_rejected ↦ 6
    | contract_signed ↦ 7
    | contract_needs_resignature ↦ 8
    | contract_surprise_penalty ↦ 9
    | contract_adjustment_proposed ↦ 10
    | contract_adjustment_accepted ↦ 11
    | contract_adjustment_refused ↦ 12
    | contract_buyout_paid ↦ 13
    | contract_renewed ↦ 14
    | sub_panic ↦ 15
    | review_reminder ↦ 16
    | rolling_late ↦ 17
    | contract_late_penalty ↦ 18
    | contract_period_interest ↦ 19
    | contract_breached ↦ 20
    | contract_forgiven ↦ 21
  ];
}

-- A row of `refresh_token`.
pub record RefreshToken : Type 0 where
  pub user_id : ℕ
  pub token_hash : ℕ
  pub expires_at : ℕ
  pub revoked_at : Option ℕ

-- A row of `notification`: the addressee, the type and the id in the payload.
pub record Notification : Type 0 where
  pub user_id : ℕ
  pub type : NotificationType
  pub subject_id : ℕ

-- An event of the websocket publisher, with its addressee and the id that it is about.
pub data Published : Type 0 where
  notification : ℕ → NotificationType → Published
  payment_declared : ℕ → ℕ → Published
  validation_resolved : ℕ → ℕ → Published
  contract_state_change : ℕ → ℕ → Published

-- The columns of `user` that only authentication reads.
pub record Credential : Type 0 where
  pub user_id : ℕ
  pub username : String
  pub email : String
  pub password_hash : ℕ
  pub last_login_at : Option ℕ

-- A row of `password_reset_token`.
pub record PasswordResetToken : Type 0 where
  pub user_id : ℕ
  pub token_hash : ℕ
  pub expires_at : ℕ
  pub used_at : Option ℕ

-- server/models/invitation.py. The amount is in pence.
pub record Invitation : Type 0 where
  pub id : ℕ
  pub token : String
  pub goddess_id : ℕ
  pub entry_tribute_amount : ℕ
  pub note : Option String
  pub expires_at : ℕ
  pub used_at : Option ℕ
  pub used_by_user_id : Option ℕ
  pub created_at : ℕ
