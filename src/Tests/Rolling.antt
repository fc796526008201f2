-- ===== src/Tests/Rolling.antt =====
-- A tribute that is set, and cleared.
use debt_collector.Common.{◌≡◌, refl, false, none, some, [], ◌∷◌}
use debt_collector.Model.{Db, RollingTribute, DeadlineDay, PaymentCategory, AppError, ok, err}
use debt_collector.Model.Leaves.{Leaves}
use debt_collector.Payment.Rules.{check_rolling_active}
use debt_collector.Job.Daily.{process_rolling}
use debt_collector.Rolling.{
  RollingTributeIn, RollingTributeOut, get_for_sub_by_goddess, upsert_for_sub, clear_for_sub,
}
use debt_collector.Rolling.RoundTrip.{HasTerms, GoesOn, upsert-roundtrip, clear-stops}
use debt_collector.Tests.{goddess_user, start_db}
use debt_collector.Calendar.{London}
use debt_collector.Model.{◌>>=◌}
use debt_collector.Session.{resolve_goddess_id}
use debt_collector.Debt.Propose.{assert_sub_belongs_to_goddess}
use debt_collector.Rolling.{require_linked, upsert, save_tribute}

-- A zone in which it is the same Monday all the time.
abbrev utc_london : London
utc_london = record {
  local = λ now. record { date = record { year = 2026; month = 1; day = 5 }; time = 0 };
  to_utc = λ at. at.time;
}

abbrev weekly : RollingTributeIn
weekly = record {
  amount = 5000;
  deadline_day = DeadlineDay.fri;
  deadline_time = 64800;
  late_multiplier_per_day = 1;
  paused = false;
  notes = none;
}

abbrev weekly_row : RollingTribute
weekly_row = record {
  id = 70;
  sub_id = 2;
  goddess_id = 3;
  amount = 5000;
  deadline_day = DeadlineDay.fri;
  deadline_time = 64800;
  late_multiplier_per_day = 1;
  paused = false;
  notes = none;
  last_paid_at = none;
  created_at = 0;
  updated_at = 0;
}

abbrev tribute_db : Db
tribute_db = record start_db { rollings = (2, weekly_row) ∷ [] }

upsert-roundtrip_example :
    Leaves
      (λ out d.
        (get_for_sub_by_goddess utc_london goddess_user 2 d ≡ ok (some out, d))
        × HasTerms weekly out.rolling
        × GoesOn 2 (some weekly_row) out.rolling)
      (upsert_for_sub utc_london goddess_user 2 weekly tribute_db)
upsert-roundtrip_example = upsert-roundtrip utc_london goddess_user 2 weekly tribute_db

clear-stops_example :
    Leaves
      (λ _ d.
        ((out : RollingTributeOut) × (get_for_sub_by_goddess utc_london goddess_user 2 d
            ≡ ok (some out, d))
          × (out.amount_due ≡ 0))
        × (process_rolling utc_london 2 d ≡ ok (0, d))
        × (check_rolling_active PaymentCategory.rolling 2 d ≡ err AppError.bad_request))
      (clear_for_sub goddess_user 2 tribute_db)
clear-stops_example = clear-stops utc_london goddess_user 2 tribute_db

-- The operation succeeds on this database.
clears : (d : Db) × (clear_for_sub goddess_user 2 tribute_db ≡ ok (tt, d))
unfolding clear_for_sub require_linked resolve_goddess_id assert_sub_belongs_to_goddess upsert
    save_tribute ◌>>=◌
clears = (_, refl)
