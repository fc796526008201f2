-- ===== src/Ritual/Daily/Miss.antt =====
-- `mark_missed_for_today` of server/services/cron/rituals.py, twice on one day.
use debt_collector.Common.{
  ℕ, ◌≡◌, refl, ap, ◌∙◌, false, Bool, List, [], ◌∷◌, arith, Bool-cases, inl, inr, sym,
}
use debt_collector.Common.Table.{Table, rows, update_where}
use debt_collector.Common.Lists.{select}
use debt_collector.Model.{Db, RitualOccurrence, occurrence_enum, ok, ◌>>=◌}
use debt_collector.Model.Leaves.{
  Leaves, Leaves-bind, Leaves-pure, Leaves-gets, Leaves-modify, Leaves-assoc, Leaves-pure_bind,
}
use debt_collector.Model.Keeps.{Keeps, Keeps-bind, Keeps-pure}
use debt_collector.Merit.Engine.{Offence}
use debt_collector.Merit.Keeps.{apply_penalty-Keeps}
use debt_collector.Ritual.Daily.{
  is_pending_on, as_missed, mark_missed_by_date, penalise_misses, mark_missed_for_today,
}

module _ {V : Type 0} (test : V → Bool) (f : V → V) where
  -- An update whose rows no longer match leaves no row that matches.
  select-update_where :
      (t : Table V)
      → ((v : V) → test (f v) ≡ false)
      → select test (rows (update_where test f t)) ≡ []
  select-update_where [] h = refl
  select-update_where ((j, v) ∷ t) h = elim (Bool-cases (test v)) [
    | inl hit ↦ rw hit (rw (h v) (select-update_where t h))
    | inr miss ↦ rw miss (rw miss (select-update_where t h))
  ]

  -- An update of no row.
  update_where-idle : (t : Table V) → select test (rows t) ≡ [] → update_where test f t ≡ t
  update_where-idle [] h = refl
  update_where-idle ((j, v) ∷ t) h = elim (Bool-cases (test v)) [
    | inl hit ↦ grind (arith, h, hit)
    | inr miss ↦ rw miss (ap (λ x. (j, v) ∷ x) (update_where-idle t (sym (rw miss refl) ∙ h)))
  ]

missed_not_pending : (day : ℕ) (occ : RitualOccurrence) → is_pending_on day (as_missed occ) ≡ false
missed_not_pending day occ = ground arith

penalise-Keeps :
    (t : Table RitualOccurrence) (os : List Offence)
    → Keeps (λ d. d.occurrences ≡ t) (penalise_misses os)
unfolding penalise_misses
penalise-Keeps t [] = Keeps-pure tt
penalise-Keeps t (o ∷ os) =
    Keeps-bind _ _ (apply_penalty-Keeps (λ d. d.occurrences ≡ t) (λ d es h. h) (λ d es h. h) o)
      λ n. penalise-Keeps t os

-- Where nothing is pending, nothing is missed.
idle :
    (day : ℕ) (d : Db)
    → select (is_pending_on day) (rows d.occurrences) ≡ []
    → mark_missed_for_today day d ≡ ok (0, d)
unfolding mark_missed_for_today mark_missed_by_date penalise_misses ◌>>=◌
idle day d h = rw h (
    ap (λ (t : Table RitualOccurrence). ok (0, record d { occurrences = t }))
      (update_where-idle (is_pending_on day) as_missed d.occurrences h))

-- A second run of the day's misses marks nothing, costs no points and changes nothing: whatever was
-- pending on the day is missed after the first.
pub mark_missed-once :
    (day : ℕ) (db : Db)
    → Leaves
        (λ _ d.
          (select (is_pending_on day) (rows d.occurrences) ≡ [])
          × (mark_missed_for_today day d ≡ ok (0, d)))
        (mark_missed_for_today day db)
unfolding mark_missed_for_today mark_missed_by_date
mark_missed-once day db = Leaves-gets _ _ db (
    Leaves-assoc _ _ _ db (
      Leaves-gets _ _ db (
        Leaves-assoc _ _ _ db (
          Leaves-modify _ _ db (
            Leaves-pure_bind _ _ _ (
              Leaves-bind _ _ _ _ ((penalise-Keeps _ _).keeps _ refl) λ n d done same.
                Leaves-pure _ d (none_left d same, idle day d (none_left d same))))))))
  where
    none_left :
        (d : Db)
        → d.occurrences ≡ update_where (is_pending_on day) as_missed db.occurrences
        → select (is_pending_on day) (rows d.occurrences) ≡ []
    none_left d same =
        ap (λ t. select (is_pending_on day) (rows t)) same
        ∙ select-update_where (is_pending_on day) as_missed db.occurrences (missed_not_pending day)
