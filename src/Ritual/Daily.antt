-- ===== src/Ritual/Daily.antt =====
-- server/services/cron/rituals.py: the occurrences of a day are made at its start, and those that are
-- pending at its end are missed. A day is the number of its date.
pub mod Seed
pub mod Miss
use debt_collector.Common.{
  ℕ, zero, suc, ◌+◌, ◌*◌, ◌/◌, ◌%◌, Bool, true, false, not, ◌&&◌, Option, none, some, List, [], ◌∷◌,
  ◌==◌, ◌is◌, if◌then◌else◌,
}
use debt_collector.Common.Table.{Table, put_row, find_row, update_where, rows}
use debt_collector.Common.Lists.{any_of, select, length}
use debt_collector.Model.{
  Ritual, RitualFrequency, RitualOccurrence, OccurrenceStatus, occurrence_enum, PenaltyTrigger,
  PenaltySource, Db, Action, Done, gets, modify, pure, now_utc, fresh_id, ◌>>=◌, ◌>>◌,
}
use debt_collector.Merit.Engine.{Offence, apply_penalty}
use debt_collector.Calendar.{London, weekday, to_ordinal}

-- `date.weekday()` of a day, and 2 to the power of it.
abbrev pub weekday_of : ℕ → ℕ
weekday_of today = (today + 6) % 7

unfoldable pub power_of_two : ℕ → ℕ
power_of_two zero = 1
power_of_two (suc n) = 2 * power_of_two n

-- `custom_days_bitmask or 0`, and `bool(mask & (1 << weekday))`
abbrev pub mask_of : Option ℕ → ℕ
mask_of none = 0
mask_of (some mask) = mask

abbrev pub has_bit : ℕ → ℕ → Bool
has_bit mask n = mask / power_of_two n % 2 == 1

-- `_ritual_fires_on`
abbrev pub fires_as : RitualFrequency → London → Ritual → ℕ → Bool
fires_as RitualFrequency.daily london ritual today = true
fires_as RitualFrequency.weekly london ritual today =
    weekday (london.local ritual.created_at).date == weekday_of today
fires_as RitualFrequency.custom london ritual today =
    has_bit (mask_of ritual.custom_days_bitmask) (weekday_of today)

unfoldable pub ritual_fires_on : London → Ritual → ℕ → Bool
ritual_fires_on london ritual today = fires_as ritual.frequency london ritual today

abbrev pub is_on : ℕ → ℕ → RitualOccurrence → Bool
is_on ritual_id day occ = occ.ritual_id == ritual_id && occ.date == day

-- `_row_for`
abbrev pub row_for : Ritual → ℕ → ℕ → ℕ → RitualOccurrence
row_for ritual today id now = record {
  id = id;
  ritual_id = ritual.id;
  sub_id = ritual.sub_id;
  goddess_id = ritual.goddess_id;
  date = today;
  status = OccurrenceStatus.pending;
  note = none;
  evidence_r2_key = none;
  completed_at = none;
  reviewed_at = none;
  reviewed_by = none;
  created_at = now;
}

-- A row of the INSERT, which does nothing ON CONFLICT with the unique index.
unfoldable pub insert_unless : Bool → Ritual → ℕ → Action ℕ
insert_unless true ritual today = pure 0
insert_unless false ritual today = do
  now ← now_utc
  occurrence_id ← fresh_id
  modify λ db. record db {
    occurrences = put_row occurrence_id (row_for ritual today occurrence_id now) db.occurrences;
  }
  pure 1

unfoldable pub bulk_create_for_date : List Ritual → ℕ → Action ℕ
bulk_create_for_date [] today = pure 0
bulk_create_for_date (ritual ∷ rest) today = do
  taken ← gets (λ db. any_of (is_on ritual.id today) (rows db.occurrences))
  inserted ← insert_unless taken ritual today
  more ← bulk_create_for_date rest today
  pure (inserted + more)

-- `list_active_for_date`, and those of it that fire.
abbrev pub scheduled : London → ℕ → Db → List Ritual
scheduled london today db =
    select (λ r. not r.paused && ritual_fires_on london r today) (rows db.rituals)

unfoldable pub seed_occurrences_for_today : London → ℕ → Action ℕ
seed_occurrences_for_today london today = do
  rituals ← gets (scheduled london today)
  bulk_create_for_date rituals today

abbrev pub is_pending_on : ℕ → RitualOccurrence → Bool
is_pending_on day occ = occ.date == day && (occ.status is OccurrenceStatus.pending)

-- The join with the rituals: an occurrence whose ritual is gone has no row.
abbrev pub joined : Option Ritual → RitualOccurrence → List Offence → List Offence
joined none occ rest = rest
joined (some ritual) occ rest =
    record {
      goddess_id = occ.goddess_id;
      sub_id = occ.sub_id;
      trigger = PenaltyTrigger.ritual_missed;
      source_kind = PenaltySource.ritual_miss;
      source_id = some occ.id;
      default_delta = ritual.points_on_miss;
      days_late = none;
    }
    ∷ rest

-- `list_pending_for_date_with_points`
abbrev pub misses : Table Ritual → List RitualOccurrence → List Offence
misses rituals [] = []
misses rituals (occ ∷ rest) = joined (find_row occ.ritual_id rituals) occ (misses rituals rest)

abbrev pub pending_misses : ℕ → Db → List Offence
pending_misses day db = misses db.rituals (select (is_pending_on day) (rows db.occurrences))

abbrev pub as_missed : RitualOccurrence → RitualOccurrence
as_missed occ = record occ { status = OccurrenceStatus.missed }

-- `mark_missed_by_date`: the number of rows that it has changed.
unfoldable pub mark_missed_by_date : ℕ → Action ℕ
mark_missed_by_date day = do
  count ← gets (λ db. length (select (is_pending_on day) (rows db.occurrences)))
  modify
      (λ db. record db { occurrences = update_where (is_pending_on day) as_missed db.occurrences })
  pure count

unfoldable pub penalise_misses : List Offence → Action Done
penalise_misses [] = pure tt
penalise_misses (o ∷ rest) = do apply_penalty o; penalise_misses rest

unfoldable pub mark_missed_for_today : ℕ → Action ℕ
mark_missed_for_today today = do
  pending ← gets (pending_misses today)
  updated ← mark_missed_by_date today
  penalise_misses pending
  pure updated
