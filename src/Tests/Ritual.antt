-- ===== src/Tests/Ritual.antt =====
-- A daily ritual of the sub, before and after its first occurrence.
use debt_collector.Common.{◌≡◌, refl, none, [], ◌∷◌, arith}
use debt_collector.Common.Table.{find_row, rows}
use debt_collector.Common.Lists.{select}
use debt_collector.Model.{Db, ok, RitualOccurrence, OccurrenceStatus}
use debt_collector.Model.Leaves.{Leaves}
use debt_collector.Calendar.{London}
use debt_collector.Ritual.{
  complete_occurrence, submit_occurrence, approve_occurrence, reject_occurrence,
}
use debt_collector.Ritual.Lifecycle.{Turned, IsKeyed, occurrence-lifecycle}
use debt_collector.Ritual.Daily.{is_pending_on, seed_occurrences_for_today, mark_missed_for_today}
use debt_collector.Ritual.Daily.Seed.{IsSupplied, seed_occurrences-once}
use debt_collector.Ritual.Daily.Miss.{mark_missed-once}
use debt_collector.Tests.{sub_user, start_db}
use debt_collector.Tests.Profile.{a_ritual}

abbrev an_occurrence : RitualOccurrence
an_occurrence = record {
  id = 31;
  ritual_id = a_ritual.id;
  sub_id = 2;
  goddess_id = 3;
  date = 739500;
  status = OccurrenceStatus.pending;
  note = none;
  evidence_r2_key = none;
  completed_at = none;
  reviewed_at = none;
  reviewed_by = none;
  created_at = 0;
}

abbrev ritual_db : Db
ritual_db = record start_db { rituals = (a_ritual.id, a_ritual) ∷ []; next_id = 40 }

abbrev pending_db : Db
pending_db = record ritual_db { occurrences = (31, an_occurrence) ∷ [] }

abbrev utc : London
utc = record {
  local = λ now. record { date = record { year = 2025; month = 9; day = 1 }; time = now };
  to_utc = λ at. at.time;
}

ritual_db-IsSupplied : IsSupplied ritual_db
ritual_db-IsSupplied k h = refl

pending_db-IsKeyed : IsKeyed pending_db.occurrences
unfolding find_row
pending_db-IsKeyed k o h = ground arith

seed_occurrences-once_example :
    Leaves
      (λ _ d. seed_occurrences_for_today utc 739500 d ≡ ok (0, d))
      (seed_occurrences_for_today utc 739500 ritual_db)
seed_occurrences-once_example = seed_occurrences-once utc 739500 ritual_db ritual_db-IsSupplied

mark_missed-once_example :
    Leaves
      (λ _ d.
        (select (is_pending_on 739500) (rows d.occurrences) ≡ [])
        × (mark_missed_for_today 739500 d ≡ ok (0, d)))
      (mark_missed_for_today 739500 pending_db)
mark_missed-once_example = mark_missed-once 739500 pending_db

occurrence-lifecycle_example :
    Leaves
      (λ _. Turned 31 OccurrenceStatus.pending OccurrenceStatus.completed pending_db)
      (complete_occurrence sub_user 31 none none pending_db)
    × Leaves
        (λ _. Turned 31 OccurrenceStatus.pending OccurrenceStatus.submitted pending_db)
        (submit_occurrence sub_user 31 none none pending_db)
    × Leaves
        (λ _. Turned 31 OccurrenceStatus.submitted OccurrenceStatus.completed pending_db)
        (approve_occurrence sub_user 31 pending_db)
    × Leaves
        (λ _. Turned 31 OccurrenceStatus.submitted OccurrenceStatus.rejected pending_db)
        (reject_occurrence sub_user 31 pending_db)
occurrence-lifecycle_example =
    occurrence-lifecycle sub_user 31 none none pending_db pending_db-IsKeyed
