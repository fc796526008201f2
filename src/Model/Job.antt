-- ===== src/Model/Job.antt =====
-- server/models/cron_run.py and server/models/blacklist.py.
use debt_collector.Common.{ℕ, Bool, Option, String}
use debt_collector.Common.Int.{ℤ}

-- `summary_json`, and the number of the entries of `errors`.
pub record Summary : Type 0 where
  pub subs : ℕ
  pub rolling : ℕ
  pub contracts : ℕ
  pub errors : ℕ

-- `errors` is a part of `summary`.
pub record CronRun : Type 0 where
  pub id : ℕ
  pub started_at : ℕ
  pub finished_at : Option ℕ
  pub dry_run : Bool
  pub summary : Summary
  pub triggered_by_user_id : Option ℕ

-- Amounts are in pence.
pub record BlacklistEntry : Type 0 where
  pub id : ℕ
  pub goddess_id : ℕ
  pub sub_id : ℕ
  pub reason : Option String
  pub balance_snapshot : ℤ
  pub reinstatement_fee_paid : Option ℤ
  pub breached_at : ℕ
  pub forgiven_at : Option ℕ
