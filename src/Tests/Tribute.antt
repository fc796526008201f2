-- ===== src/Tests/Tribute.antt =====
-- A sub who has paid half of what is asked in a month.
use debt_collector.Common.{◌-◌, ◌*◌, ◌≡◌, refl, none, some, [], ◌∷◌, arith}
use debt_collector.Calendar.{London}
use debt_collector.Model.{
  Db, TributeMinimum, TributePeriod, PaymentDeclaration, PaymentCategory, PaymentStatus,
  DeclarationSource,
}
use debt_collector.Model.Leaves.{Leaves}
use debt_collector.Tribute.{gauge}
use debt_collector.Tribute.Gauge.{Says, gauge-Says}
use debt_collector.Tests.{goddess_user, start_db}

-- A zone in which a month begins at 0 and the next at 100.
abbrev a_zone : London
a_zone = record {
  local = λ now. record { date = record { year = 2026; month = 1; day = 5 }; time = 0 };
  to_utc = λ at. (at.date.month - 1) * 100;
}

abbrev half_paid : PaymentDeclaration
half_paid = record {
  id = 20;
  sub_id = 2;
  goddess_id = 3;
  method_id = 4;
  amount = 5000;
  external_timestamp = none;
  note = none;
  category = PaymentCategory.tribute;
  status = PaymentStatus.validated;
  target_id = none;
  created_by = 2;
  declared_at = 50;
  validated_at = some 60;
  validated_by = some 1;
  rejection_reason = none;
  source = DeclarationSource.sub_declared;
  proof_key = none;
}

abbrev monthly : TributeMinimum
monthly = record {
  sub_id = 2;
  goddess_id = 3;
  amount = 10000;
  period = TributePeriod.monthly;
  grace_below_percent = 8000;
  created_at = 0;
  updated_at = 0;
}

abbrev gauge_db : Db
gauge_db = record start_db {
  tribute_minimums = (2, monthly) ∷ [];
  declarations = (20, half_paid) ∷ [];
}

gauge-Says_example :
    Leaves
      (λ out d. Says out.color out.actual_this_period 10000 8000 × (d ≡ gauge_db))
      (gauge a_zone goddess_user 2 gauge_db)
gauge-Says_example = gauge-Says a_zone goddess_user 2 monthly gauge_db refl (omega arith)
