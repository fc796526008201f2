-- ===== src/Job/DryRun.antt =====
-- `run_daily` and `validate_apply_preconditions` of server/controllers/cron_controller.py: a dry run, and
-- what it allows.
use debt_collector.Common.{
  ℕ, ◌+◌, ◌≡◌, refl, true, Bool, ◌&&◌, Option, some, Bool-cases, inl, inr, arith, ◌==◌, ◌==?◌,
  if◌then◌else◌, ltb, leb, ◌∙◌,
}
use debt_collector.Common.Table.{Table, find_row, put_row, find_row-put_row_self}
use debt_collector.Model.{Db, Action, CronRun, Result, Done, AppError, ok, err, raise_if, ◌>>=◌}
use debt_collector.Model.Leaves.{
  Leaves, Leaves-bind, Leaves-weaken, Leaves-pure, Leaves-gets, Leaves-now_utc, Leaves-fresh_id,
  Leaves-modify, Leaves-when,
}
use debt_collector.Calendar.{London}
use debt_collector.Job.Tick.{Rates}
use debt_collector.Job.Daily.{save_run, started_run, run_daily, validate_apply_preconditions}

-- What an action that has not been looked into leaves.
anything : {A : Type 0} (r : Result (A × Db)) → Leaves (λ _ _. Unit {0}) r
anything r = record { at = λ a d e. tt }

module _ {B : Type 0} {P : B → Db → Type 0} where
  Leaves-save_run :
      (run : CronRun) (k : Done → Action B) (db : Db)
      → Leaves P (k tt (record db { cron_runs = put_row run.id run db.cron_runs }))
      → Leaves P ((save_run run >>= k) db)
  unfolding save_run
  Leaves-save_run run k db h = Leaves-modify _ k db h

module _ (london : London) (rates : Rates) (user_id : Option ℕ) (db : Db) where
  -- A dry run leaves the database as it was, whatever the job did in it, but for the log of runs, the id
  -- of the run in it, and what has been sent to the publisher.
  pub run_daily-dry :
      Leaves
        (λ run d. d ≡ record db {
          cron_runs =
              put_row run.id run
                (put_row run.id (started_run run.id true user_id db.clock) db.cron_runs);
          published = d.published;
          next_id = db.next_id + 1;
        })
        (run_daily london rates true user_id db)
  unfolding run_daily
  run_daily-dry = Leaves-now_utc _ db (
      Leaves-fresh_id _ db (
        Leaves-save_run _ _ _ (
          Leaves-gets _ _ _ (
            Leaves-gets _ _ _ (
              Leaves-bind (λ _ _. Unit) _ _ _ (anything _)
                λ summary d done _.
                  Leaves-when true _ _ d
                    (λ _. Leaves-modify _ _ d (Leaves-save_run _ _ _ (Leaves-pure _ _ refl)))
                    (λ no. absurd cc))))))

abbrev pub conflict_unless : Bool → Db → Result (Done × Db)
conflict_unless allowed d = if allowed then ok (tt, d) else err AppError.conflict

in_time :
    (last now : ℕ) (d : Db)
    → raise_if (ltb last now) AppError.conflict d ≡ conflict_unless (leb now last) d
unfolding raise_if
in_time last now d = ground arith

validated :
    (d : Db) (run : CronRun) (other : ℕ)
    → find_row run.id d.cron_runs ≡ some run
    → validate_apply_preconditions run.id other d
      ≡ conflict_unless
          (run.dry_run && run.triggered_by_user_id ==? other && leb d.clock (run.started_at + 300))
          d
unfolding validate_apply_preconditions ◌>>=◌
validated d run other found = rw found (elim (Bool-cases run.dry_run) [
  | inl dry ↦ rw dry (elim (Bool-cases (run.triggered_by_user_id ==? other)) [
    | inl same ↦ rw same (in_time (run.started_at + 300) d.clock d)
    | inr other_user ↦ rw other_user refl
  ])
  | inr applied ↦ rw applied refl
])

abbrev IsLogged : Bool → Option ℕ → ℕ → CronRun → Db → Type 0
IsLogged dry_run user_id now run d =
    (find_row run.id d.cron_runs ≡ some run)
    × (run.dry_run ≡ dry_run)
    × (run.triggered_by_user_id ≡ user_id)
    × (run.started_at ≡ now)

module _ (london : London) (rates : Rates) (dry_run : Bool) (user_id : Option ℕ) (db : Db) where
  run_daily-IsLogged :
      Leaves (IsLogged dry_run user_id db.clock) (run_daily london rates dry_run user_id db)
  unfolding run_daily
  run_daily-IsLogged = Leaves-now_utc _ db (
      Leaves-fresh_id _ db (
        Leaves-save_run _ _ _ (
          Leaves-gets _ _ _ (
            Leaves-gets _ _ _ (
              Leaves-bind (λ _ _. Unit) _ _ _ (anything _)
                λ summary d done _.
                  Leaves-when dry_run _ _ d
                    (λ dry.
                      Leaves-modify _ _ d (Leaves-save_run _ _ _ (Leaves-pure _ _ (logged _ _))))
                    (λ wet. Leaves-save_run _ _ _ (Leaves-pure _ _ (logged _ _))))))))
    where
      logged :
          (run : CronRun) (t : Table CronRun)
          → (find_row run.id (put_row run.id run t) ≡ some run)
            × (dry_run ≡ dry_run)
            × (user_id ≡ user_id)
            × (db.clock ≡ db.clock)
      logged run t = (find_row-put_row_self run.id run t, refl, refl, refl)

-- What is asked for a run of the daily job is allowed for a dry run, to the admin who made it, for five
-- minutes from its start, and for any other run, user or time it is a conflict.
pub run_daily-licenses :
    (london : London) (rates : Rates) (dry_run : Bool) (user_id other seconds : ℕ) (db : Db)
    → Leaves
        (λ run d.
          validate_apply_preconditions run.id other (record d { clock = db.clock + seconds })
          ≡ conflict_unless
              (dry_run && (user_id == other) && leb seconds 300)
              (record d { clock = db.clock + seconds }))
        (run_daily london rates dry_run (some user_id) db)
run_daily-licenses london rates dry_run user_id other seconds db =
    Leaves-weaken _ (run_daily-IsLogged london rates dry_run (some user_id) db)
      λ run d (found, dry, by, at).
        validated (record d { clock = db.clock + seconds }) run other found
        ∙ rw (dry, by, at) (rw (later db.clock) refl)
  where
    later : (now : ℕ) → leb (now + seconds) (now + 300) ≡ leb seconds 300
    later now = ground arith
