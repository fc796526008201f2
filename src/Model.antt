-- ===== src/Model.antt =====
-- The database rows: the SQLModel classes of server/models and the columns of server/alembic, and
-- the database itself with the monad of a handler's transaction.
pub mod Account
pub mod Contract
pub mod Event
pub mod Payment
pub mod Merit
pub mod Profile
pub mod Job
pub mod Store
pub mod Leaves
pub mod Keeps
pub use Account.*
pub use Contract.*
pub use Event.*
pub use Payment.*
pub use Merit.{
  MeritSourceKind, merit_source_enum, MeritEvent, PenaltyTrigger, trigger_enum, PenaltyAction,
  penalty_action_enum, PenaltyRule, PenaltySource, penalty_source_enum, PenaltyEvent, TaskStatus,
  task_status_enum, Task, RewardTier, PunishmentTier, RewardRedemption,
}
pub use Profile.{
  OwnershipStatus, ownership_enum, SubProfile, StatusEvent, RitualFrequency, Ritual,
  OccurrenceStatus, occurrence_enum, RitualOccurrence, ProfileChangeRequestStatus,
  change_status_enum, AvatarKey, ProfileChangeRequest, Identity,
}
pub use Job.*
unfoldable pub use Store.*
