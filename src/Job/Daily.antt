-- ===== src/Job/Daily.antt =====
-- server/controllers/cron_controller.py: `run_daily` and `validate_apply_preconditions`, with
-- server/daos/cron_run_dao.py. An exception of a sub's part is noted and the job goes on: those that
-- the source can raise, but for one of a flush, come before any write of the contract that they are
-- about. One of a flush makes the session's transaction unusable, and so fails the job.
use debt_collector.Common.{
  ℕ, ◌+◌, Bool, true, false, not, ◌&&◌, ◌||◌, Option, none, some, List, [], ◌∷◌, ◌==◌, ◌==?◌, ◌is◌,
  ltb, if◌then◌else◌,
}
use debt_collector.Common.Int.{pos}
use debt_collector.Common.Table.{find_row, put_row, rows}
use debt_collector.Common.Lists.{select, length}
use debt_collector.Common.{map}
use debt_collector.Model.{
  UserRole, role_enum, UserStatus, user_status_enum, DebtContract, DebtContractStatus,
  contract_status_enum, RollingTribute, NotificationType, PenaltyTrigger, PenaltySource, Summary,
  CronRun, Result, ok, err, Db, Action, Done, AppError, raise_if, or_raise, gets, modify, pure,
  when, now_utc, fresh_id, ◌>>=◌, ◌>>◌,
}
use debt_collector.Session.{notify}
use debt_collector.Merit.Engine.{Offence, apply_penalty}
use debt_collector.Calendar.{London}
use debt_collector.Periods.{days_late}
use debt_collector.Job.Tick.{Rates, tick_contract}

-- An error of a flush: the transaction is unusable.
abbrev pub is_fatal : AppError → Bool
is_fatal AppError.integrity_error = true
is_fatal _ = false

-- `try: ... except Exception`
abbrev pub settle : {A : Type 0} → Result (A × Db) → Db → Result (Option A × Db)
settle (ok r) db = ok (some r.0, r.1)
settle (err e) db = if is_fatal e then err e else ok (none, db)

unfoldable pub caught : {A : Type 0} → Action A → Action (Option A)
caught m db = settle (m db) db

abbrev pub late_tribute : RollingTribute → ℕ → Offence
late_tribute rolling sub_id = record {
  goddess_id = rolling.goddess_id;
  sub_id = sub_id;
  trigger = PenaltyTrigger.rolling_late;
  source_kind = PenaltySource.rolling_late;
  source_id = some rolling.id;
  default_delta = pos 0;
  days_late = none;
}

-- `if late > 0: ...`
unfoldable pub remind : Bool → RollingTribute → ℕ → Action Done
remind false rolling sub_id = pure tt
remind true rolling sub_id = do
  notify sub_id NotificationType.rolling_late rolling.id
  apply_penalty (late_tribute rolling sub_id)
  pure tt

abbrev pub is_due : RollingTribute → Bool
is_due rolling = not (rolling.paused || rolling.amount == 0)

module _ (london : London) where
  unfoldable pub process_tribute : Option RollingTribute → ℕ → Action ℕ
  process_tribute none sub_id = pure 0
  process_tribute (some rolling) sub_id = do
    now ← now_utc
    when (is_due rolling) (remind (ltb 0 (days_late london rolling now)) rolling sub_id)
    pure (if is_due rolling then 1 else 0)

  -- `_process_rolling`
  unfoldable pub process_rolling : ℕ → Action ℕ
  process_rolling sub_id = do
    rolling ← gets (λ db. find_row sub_id db.rollings)
    process_tribute rolling sub_id

-- One more contract, where it has been ticked.
abbrev pub one_more : Bool → ℕ → ℕ
one_more true n = n + 1
one_more false n = n

abbrev pub add_tick : Bool → Option ℕ → Option ℕ
add_tick b none = none
add_tick b (some n) = some (one_more b n)

-- An exception ends the sub's contracts.
unfoldable pub tick_then : Option Bool → Action (Option ℕ) → Action (Option ℕ)
tick_then none rest = pure none
tick_then (some b) rest = do n ← rest; pure (add_tick b n)

abbrev pub count_of : Option ℕ → ℕ
count_of none = 0
count_of (some n) = n

abbrev pub failed : Option ℕ → ℕ
failed none = 1
failed (some n) = 0

abbrev pub counted : Option ℕ → Option ℕ → Summary → Summary
counted rolling contracts s = record s {
  rolling = s.rolling + count_of rolling;
  contracts = s.contracts + count_of contracts;
  errors = s.errors + failed rolling + failed contracts;
}

abbrev pub is_active_of : ℕ → DebtContract → Bool
is_active_of sub_id c = c.sub_id == sub_id && (c.status is DebtContractStatus.active)

abbrev pub active_contracts : ℕ → Db → List ℕ
active_contracts sub_id db = map (λ c. c.id) (select (is_active_of sub_id) (rows db.contracts))

-- `_load_active_subs`
abbrev pub active_subs : Db → List ℕ
active_subs db =
    map (λ u. u.id)
      (select (λ u. (u.role is UserRole.sub) && (u.status is UserStatus.active)) (rows db.users))

abbrev pub started_run : ℕ → Bool → Option ℕ → ℕ → CronRun
started_run id dry_run user_id now = record {
  id = id;
  started_at = now;
  finished_at = none;
  dry_run = dry_run;
  summary = record { subs = 0; rolling = 0; contracts = 0; errors = 0 };
  triggered_by_user_id = user_id;
}

unfoldable pub save_run : CronRun → Action Done
save_run run = modify (λ db. record db { cron_runs = put_row run.id run db.cron_runs })

-- `await sp.rollback()`: what the publisher has sent stays sent.
abbrev pub rolled_back : Db → Db → Db
rolled_back saved db = record saved { published = db.published }

module _ (london : London) (rates : Rates) where
  unfoldable pub tick_all : List ℕ → Action (Option ℕ)
  tick_all [] = pure (some 0)
  tick_all (contract_id ∷ rest) = do
    ticked ← caught (tick_contract rates london contract_id)
    tick_then ticked (tick_all rest)

  -- `_process_contracts`
  unfoldable pub process_contracts : ℕ → Action (Option ℕ)
  process_contracts sub_id = do contracts ← gets (active_contracts sub_id); tick_all contracts

  -- The loop of `run_daily`.
  unfoldable pub process_subs : List ℕ → Summary → Action Summary
  process_subs [] summary = pure summary
  process_subs (sub_id ∷ rest) summary = do
    rolling ← caught (process_rolling london sub_id)
    contracts ← process_contracts sub_id
    process_subs rest (counted rolling contracts summary)

  unfoldable pub run_daily : Bool → Option ℕ → Action CronRun
  run_daily dry_run triggered_by_user_id = do
    now ← now_utc
    run_id ← fresh_id
    let run = started_run run_id dry_run triggered_by_user_id now
    save_run run
    subs ← gets active_subs
    savepoint ← gets (λ db. db)
    summary ←
        process_subs subs (record { subs = length subs; rolling = 0; contracts = 0; errors = 0 })
    when dry_run (modify (rolled_back savepoint))
    let finished = record run { finished_at = some now; summary = summary }
    save_run finished
    pure finished

-- `validate_apply_preconditions`
unfoldable pub validate_apply_preconditions : ℕ → ℕ → Action Done
validate_apply_preconditions last_dry_run_id requesting_user_id = do
  found ← gets (λ db. find_row last_dry_run_id db.cron_runs)
  row ← or_raise found AppError.conflict
  raise_if (not row.dry_run) AppError.conflict
  raise_if (not (row.triggered_by_user_id ==? requesting_user_id)) AppError.conflict
  now ← now_utc
  raise_if (ltb (row.started_at + 300) now) AppError.conflict
