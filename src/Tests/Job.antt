-- ===== src/Tests/Job.antt =====
-- The jobs on a contract that is signed in January and run in February.
use debt_collector.Common.{
  ◌≤◌, ◌≡◌, ◌⊎◌, true, false, some, none, arith, if◌then◌else◌, ltb, leb, ◌&&◌, ◌==◌, ◌+◌,
}
use debt_collector.Common.Table.{put_row}
use debt_collector.Model.{Db, ok, err, AppError, CronRun}
use debt_collector.Model.Leaves.{Leaves}
use debt_collector.Calendar.{Date, date_leb, days_in_month, London, IsCalendar}
use debt_collector.Periods.{current_period_index}
use debt_collector.Periods.Progress.{current_period_index_mono}
use debt_collector.Job.Tick.{Rates, tick_contract}
use debt_collector.Job.Daily.{started_run, run_daily, validate_apply_preconditions}
use debt_collector.Job.Once.{tick_contract-once}
use debt_collector.Job.Survives.{run_daily-survives}
use debt_collector.Job.DryRun.{run_daily-dry, run_daily-licenses, conflict_unless}
use debt_collector.Tests.System.{paid, paid_contract}

abbrev january : Date
january = record { year = 2026; month = 1; day = 5 }

abbrev february : Date
february = record { year = 2026; month = 2; day = 9 }

-- A zone in which February comes after 1000 seconds.
abbrev london : London
london = record {
  local = λ now. record { date = if ltb now 1000 then january else february; time = 0 };
  to_utc = λ at. 0;
}

london-IsCalendar : IsCalendar london
unfolding date_leb days_in_month
london-IsCalendar = record { is_date = λ now. ground arith; later = λ a b h. ground arith }

abbrev rates : Rates
rates = record { scale = 10; period_rate = λ terms. 1250 }

abbrev later_db : Db
later_db = record paid { clock = 5000 }

current_period_index_mono_example :
    current_period_index london paid_contract 0 ≤ current_period_index london paid_contract 5000
current_period_index_mono_example =
    current_period_index_mono london london-IsCalendar paid_contract 0 5000 (omega arith)

tick_contract-once_example :
    Leaves
      (λ _ d. tick_contract rates london 10 d ≡ ok (false, d))
      (tick_contract rates london 10 later_db)
tick_contract-once_example = tick_contract-once rates london 10 later_db

run_daily-dry_example :
    Leaves
      (λ run d. d ≡ record later_db {
        cron_runs =
            put_row run.id run
              (put_row run.id (started_run run.id true (some 7) 5000) later_db.cron_runs);
        published = d.published;
        next_id = later_db.next_id + 1;
      })
      (run_daily london rates true (some 7) later_db)
run_daily-dry_example = run_daily-dry london rates (some 7) later_db

run_daily-licenses_example :
    Leaves
      (λ run d.
        validate_apply_preconditions run.id 7 (record d { clock = 5000 + 60 })
        ≡ conflict_unless (true && (7 == 7) && leb 60 300) (record d { clock = 5000 + 60 }))
      (run_daily london rates true (some 7) later_db)
run_daily-licenses_example = run_daily-licenses london rates true 7 7 60 later_db

run_daily-survives_example :
    ((s : CronRun × Db) × (run_daily london rates false none later_db ≡ ok s))
    ⊎ (run_daily london rates false none later_db ≡ err AppError.integrity_error)
run_daily-survives_example = run_daily-survives london rates false none later_db
