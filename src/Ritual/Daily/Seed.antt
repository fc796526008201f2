-- ===== src/Ritual/Daily/Seed.antt =====
-- `seed_occurrences_for_today` of server/services/cron/rituals.py, twice on one day.
use debt_collector.Common.{
  ℕ, ◌≤◌, ◌≡◌, refl, sym, ap, ◌∙◌, true, false, Bool, ◌||◌, ◌&&◌, not, none, List, [], ◌∷◌, arith,
  ==_refl, subst,
}
use debt_collector.Common.Table.{
  find_row, put_row, find_row-put_row_other, rows, put_row-new, rows-append,
}
use debt_collector.Common.Lists.{any_of, any_of-append, select, Each}
use debt_collector.Model.{Db, Ritual, RitualOccurrence, ok, ◌>>=◌}
use debt_collector.Model.Leaves.{
  Leaves, Leaves-bind, Leaves-weaken, Leaves-pure, Leaves-gets, Leaves-now_utc, Leaves-fresh_id,
  Leaves-modify,
}
use debt_collector.Calendar.{London}
use debt_collector.Ritual.Daily.{
  is_on, row_for, insert_unless, bulk_create_for_date, ritual_fires_on, scheduled,
  seed_occurrences_for_today,
}

-- No row has an id that is still to be given out.
abbrev pub IsSupplied : Db → Type 0
IsSupplied db = (k : ℕ) → db.next_id ≤ k → find_row k db.occurrences ≡ none

abbrev has_one : ℕ → Db → Ritual → Bool
has_one today db r = any_of (is_on r.id today) (rows db.occurrences)

-- Occurrences have been added, and nothing else of theirs has changed.
record IsGrown (today : ℕ) (db d : Db) : Type 0 where
  supplied : IsSupplied d
  same_rituals : d.rituals ≡ db.rituals
  kept : (r : Ritual) → has_one today db r ≡ true → has_one today d r ≡ true

or_left : (a b : Bool) → a ≡ true → (a || b) ≡ true
or_left a b h = ground arith

or_right : (a b : Bool) → b ≡ true → (a || (b || false)) ≡ true
or_right a b h = ground arith

module _ (today : ℕ) where
  insert-IsGrown :
      (ritual : Ritual) (taken : Bool) (db : Db)
      → IsSupplied db
      → has_one today db ritual ≡ taken
      → Leaves
          (λ _ d. IsGrown today db d × (has_one today d ritual ≡ true))
          (insert_unless taken ritual today db)
  unfolding insert_unless
  insert-IsGrown ritual true db supplied h =
      Leaves-pure 0 db (record { supplied = supplied; same_rituals = refl; kept = λ r at. at }, h)
  insert-IsGrown ritual false db supplied h = Leaves-now_utc _ db (
      Leaves-fresh_id _ db (
        Leaves-modify _ _ _ (
          Leaves-pure 1 _ (
            record {
              supplied = λ k le.
                  find_row-put_row_other db.next_id k _ db.occurrences (λ e. omega arith)
                  ∙ supplied k (omega arith);
              same_rituals = refl;
              kept = λ r at. grown r ∙ or_left _ _ at;
            },
            grown ritual
                ∙ or_right (has_one today db ritual) _ (rw (==_refl ritual.id, ==_refl today) refl),
          ))))
    where
      row : RitualOccurrence
      row = row_for ritual today db.next_id db.clock

      grown :
          (r : Ritual)
          → any_of (is_on r.id today) (rows (put_row db.next_id row db.occurrences))
            ≡ (has_one today db r || any_of (is_on r.id today) (row ∷ []))
      grown r =
          ap (λ t. any_of (is_on r.id today) (rows t))
            (put_row-new db.next_id row db.occurrences (supplied db.next_id (omega arith)))
          ∙ ap (any_of (is_on r.id today)) (rows-append db.occurrences _)
          ∙ any_of-append (is_on r.id today) (rows db.occurrences) _

  bulk-IsGrown :
      (rituals : List Ritual) (db : Db)
      → IsSupplied db
      → Leaves
          (λ _ d. IsGrown today db d × Each (λ r. has_one today d r ≡ true) rituals)
          (bulk_create_for_date rituals today db)
  unfolding bulk_create_for_date
  bulk-IsGrown [] db supplied =
      Leaves-pure 0 db (record { supplied = supplied; same_rituals = refl; kept = λ r at. at }, tt)
  bulk-IsGrown (ritual ∷ rest) db supplied = Leaves-gets _ _ db (
      Leaves-bind (λ _ d. IsGrown today db d × (has_one today d ritual ≡ true)) _ _ db
        (insert-IsGrown ritual _ db supplied refl)
        λ n d _ (g, one).
          Leaves-bind (λ _ e. IsGrown today d e × Each (λ r. has_one today e r ≡ true) rest) _ _ d
            (bulk-IsGrown rest d g.supplied)
            λ m e _ (g', all). Leaves-pure _ e (
              record {
                supplied = g'.supplied;
                same_rituals = g'.same_rituals ∙ g.same_rituals;
                kept = λ r at. g'.kept r (g.kept r at);
              },
              (g'.kept ritual one, all),
            ))

  -- Where each ritual has its occurrence, nothing is inserted.
  bulk-idle :
      (rituals : List Ritual) (d : Db)
      → Each (λ r. has_one today d r ≡ true) rituals
      → bulk_create_for_date rituals today d ≡ ok (0, d)
  unfolding bulk_create_for_date insert_unless ◌>>=◌
  bulk-idle [] d all = refl
  bulk-idle (ritual ∷ rest) d (one, all) = rw one (rw (bulk-idle rest d all) refl)

-- A second run of the day's seeding inserts nothing and changes nothing, where the ids in use come from
-- the supply.
pub seed_occurrences-once :
    (london : London) (today : ℕ) (db : Db)
    → IsSupplied db
    → Leaves
        (λ _ d. seed_occurrences_for_today london today d ≡ ok (0, d))
        (seed_occurrences_for_today london today db)
unfolding seed_occurrences_for_today ◌>>=◌
seed_occurrences-once london today db supplied =
    Leaves-weaken _ (bulk-IsGrown today (scheduled london today db) db supplied) λ n d (g, all).
      subst
        (λ rituals.
          bulk_create_for_date
            (select (λ r. not r.paused && ritual_fires_on london r today) (rows rituals)) today d
          ≡ ok (0, d))
        (sym g.same_rituals) (bulk-idle today (scheduled london today db) d all)
