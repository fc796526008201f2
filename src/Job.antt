-- ===== src/Job.antt =====
-- The scheduled jobs of server/workers/daily_cron.py on contracts: server/controllers/cron_controller.py,
-- server/services/cron/contracts.py, and server/controllers/late_penalty_controller.py, which does by hand
-- what the daily job does for a missed period.
pub mod Tick
pub mod Timing
pub mod Whole
pub mod Once
pub mod DryRun
pub mod Survives
pub mod Daily
pub mod Keeps
pub mod LatePenalty
pub mod Renewal
