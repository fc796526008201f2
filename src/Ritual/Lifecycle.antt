-- ===== src/Ritual/Lifecycle.antt =====
-- server/controllers/ritual_controller.py: what the status of an occurrence may become.
use debt_collector.Common.{ℕ, ◌≡◌, ◌≢◌, refl, ap, ◌∙◌, true, not-false, Option, some, ◌is◌, String}
use debt_collector.Common.Table.{
  Table, find_row, put_row, find_row-put_row_self, find_row-put_row_other,
}
use debt_collector.Model.{
  Db, User, Action, Done, Ritual, RitualOccurrence, OccurrenceStatus, occurrence_enum, ◌>>=◌,
}
use debt_collector.Model.Leaves.{
  Leaves, Leaves-bind, Leaves-gets, Leaves-or_raise, Leaves-raise_if, Leaves-now_utc, Leaves-modify,
  Leaves-pure, Leaves-assoc, Leaves-pure_bind,
}
use debt_collector.Model.Keeps.{Keeps, keep_rules}
use debt_collector.Session.Leaves.{Leaves-goddess}
use debt_collector.Model.{MeritEvent}
use debt_collector.Merit.{insert_idempotent}
use debt_collector.Merit.Keeps.{insert_idempotent-Keeps}
use debt_collector.Ritual.{
  get_ritual, save_occurrence, get_occurrence, require_owned_occurrence, require_own_occurrence,
  record_ritual_complete, record_ritual_miss, mark_reviewed, approve_occurrence, reject_occurrence,
  complete_occurrence, submit_occurrence,
}

-- Occurrence `i` has gone from one status to another, and no other occurrence has changed.
pub record Turned (i : ℕ) (s t : OccurrenceStatus) (db d : Db) : Type 0 where
  pub old : RitualOccurrence
  pub new : RitualOccurrence
  pub was : find_row i db.occurrences ≡ some old
  pub from : (old.status is s) ≡ true
  pub is_now : find_row i d.occurrences ≡ some new
  pub to : new.status ≡ t
  pub same_day : (new.ritual_id ≡ old.ritual_id) × (new.date ≡ old.date) × (new.sub_id ≡ old.sub_id)
  pub others : (j : ℕ) → i ≢ j → find_row j d.occurrences ≡ find_row j db.occurrences

abbrev pub IsKeyed : Table RitualOccurrence → Type 0
IsKeyed t = (k : ℕ) (o : RitualOccurrence) → find_row k t ≡ some o → o.id ≡ k

turned :
    (db d : Db) (i : ℕ) (s t : OccurrenceStatus) (old new : RitualOccurrence)
    → IsKeyed db.occurrences
    → find_row i db.occurrences ≡ some old
    → (old.status is s) ≡ true
    → new.id ≡ old.id
    → (new.ritual_id ≡ old.ritual_id) × (new.date ≡ old.date) × (new.sub_id ≡ old.sub_id)
    → new.status ≡ t
    → d.occurrences ≡ put_row new.id new db.occurrences
    → Turned i s t db d
turned db d i s t old new keyed found from id day to written = record {
  old = old;
  new = new;
  was = found;
  from = from;
  is_now = ap (find_row i) here ∙ find_row-put_row_self i new db.occurrences;
  to = to;
  same_day = day;
  others = λ j apart. ap (find_row j) here ∙ find_row-put_row_other i j new db.occurrences apart;
}
  where
    here : d.occurrences ≡ put_row i new db.occurrences
    here = written ∙ ap (λ (k : ℕ). put_row k new db.occurrences) (id ∙ keyed i old found)

module _ {B : Type 0} {P : B → Db → Type 0} where
  Leaves-occurrence :
      (i : ℕ) (k : RitualOccurrence → Action B) (db : Db)
      → ((o : RitualOccurrence) → find_row i db.occurrences ≡ some o → Leaves P (k o db))
      → Leaves P ((get_occurrence i >>= k) db)
  unfolding get_occurrence
  Leaves-occurrence i k db h =
      Leaves-assoc _ _ k db (Leaves-gets _ _ db (Leaves-or_raise _ _ k db h))

  Leaves-ritual :
      (i : ℕ) (k : Ritual → Action B) (db : Db)
      → ((r : Ritual) → Leaves P (k r db))
      → Leaves P ((get_ritual i >>= k) db)
  unfolding get_ritual
  Leaves-ritual i k db h =
      Leaves-assoc _ _ k db (Leaves-gets _ _ db (Leaves-or_raise _ _ k db λ r found. h r))

  Leaves-reviewed :
      (u : User) (i : ℕ) (k : RitualOccurrence → Action B) (db : Db)
      → ((o : RitualOccurrence)
          → find_row i db.occurrences ≡ some o
          → (o.status is OccurrenceStatus.submitted) ≡ true
          → Leaves P (k o db))
      → Leaves P ((require_owned_occurrence u i >>= k) db)
  unfolding require_owned_occurrence
  Leaves-reviewed u i k db h = Leaves-assoc _ _ k db (
      Leaves-goddess _ _ db λ g at. Leaves-assoc _ _ k db (
        Leaves-occurrence i _ db λ o found. Leaves-assoc _ _ k db (
          Leaves-raise_if _ _ _ db λ own. Leaves-assoc _ _ k db (
            Leaves-raise_if _ _ _ db
              λ status. Leaves-pure_bind o k db (h o found (not-false _ status))))))

  Leaves-own :
      (u : User) (i : ℕ) (k : RitualOccurrence → Action B) (db : Db)
      → ((o : RitualOccurrence)
          → find_row i db.occurrences ≡ some o
          → (o.status is OccurrenceStatus.pending) ≡ true
          → Leaves P (k o db))
      → Leaves P ((require_own_occurrence u i >>= k) db)
  unfolding require_own_occurrence
  Leaves-own u i k db h = Leaves-assoc _ _ k db (
      Leaves-occurrence i _ db λ o found. Leaves-assoc _ _ k db (
        Leaves-raise_if _ _ _ db λ own. Leaves-assoc _ _ k db (
          Leaves-raise_if _ _ _ db
            λ status. Leaves-pure_bind o k db (h o found (not-false _ status)))))

  Leaves-save_occurrence :
      (o : RitualOccurrence) (k : Done → Action B) (db : Db)
      → Leaves P (k tt (record db { occurrences = put_row o.id o db.occurrences }))
      → Leaves P ((save_occurrence o >>= k) db)
  unfolding save_occurrence
  Leaves-save_occurrence o k db h = Leaves-modify _ k db h

  Leaves-mark :
      (o : RitualOccurrence) (s : OccurrenceStatus) (u : ℕ) (k : RitualOccurrence → Action B)
      (db : Db)
      → ((saved : RitualOccurrence)
          → saved ≡ record o { status = s; reviewed_at = some db.clock; reviewed_by = some u }
          → Leaves P (k saved (record db { occurrences = put_row saved.id saved db.occurrences })))
      → Leaves P ((mark_reviewed o s u >>= k) db)
  unfolding mark_reviewed
  Leaves-mark o s u k db h = Leaves-assoc _ _ k db (
      Leaves-now_utc _ db
        (Leaves-assoc _ _ k db (Leaves-save_occurrence _ _ db (Leaves-pure_bind _ k _ (h _ refl)))))

-- The credits leave the occurrences alone.
module _ (t : Table RitualOccurrence) where
  insert-Keeps : (e : MeritEvent) → Keeps (λ d. d.occurrences ≡ t) (insert_idempotent e)
  insert-Keeps = insert_idempotent-Keeps (λ d. d.occurrences ≡ t) (λ d es h. h) (λ d es h. h)

  complete-Keeps :
      (o : RitualOccurrence) (r : Ritual)
      → Keeps (λ d. d.occurrences ≡ t) (record_ritual_complete o r)
  unfolding record_ritual_complete
  complete-Keeps o r = search (keep_rules, insert-Keeps)

  miss-Keeps :
      (o : RitualOccurrence) (r : Ritual) → Keeps (λ d. d.occurrences ≡ t) (record_ritual_miss o r)
  unfolding record_ritual_miss
  miss-Keeps o r = search (keep_rules, insert-Keeps)

-- In a table in which each occurrence stands at its id: a completion and a submission by the sub that
-- succeed have taken a pending occurrence to completed and to submitted, an approval and a rejection by
-- the goddess a submitted one to completed and to rejected; its ritual, day and sub stay, and no other
-- occurrence changes.
pub occurrence-lifecycle :
    (u : User) (i : ℕ) (remark evidence : Option String) (db : Db)
    → IsKeyed db.occurrences
    → Leaves
        (λ _. Turned i OccurrenceStatus.pending OccurrenceStatus.completed db)
        (complete_occurrence u i remark evidence db)
      × Leaves
          (λ _. Turned i OccurrenceStatus.pending OccurrenceStatus.submitted db)
          (submit_occurrence u i remark evidence db)
      × Leaves
          (λ _. Turned i OccurrenceStatus.submitted OccurrenceStatus.completed db)
          (approve_occurrence u i db)
      × Leaves
          (λ _. Turned i OccurrenceStatus.submitted OccurrenceStatus.rejected db)
          (reject_occurrence u i db)
unfolding complete_occurrence submit_occurrence approve_occurrence reject_occurrence
occurrence-lifecycle u i remark evidence db keyed = (
  Leaves-own u i _ db λ o found status. Leaves-ritual _ _ db λ r. Leaves-raise_if _ _ _ db λ proof.
      Leaves-now_utc _ db (
        Leaves-save_occurrence _ _ db (
          Leaves-bind _ _ _ _ ((complete-Keeps _ _ _).keeps _ refl) λ x d done same.
            Leaves-pure _ d
              (turned db d i _ _ o _ keyed found status refl (refl, refl, refl) refl same))),
  Leaves-own u i _ db λ o found status. Leaves-ritual _ _ db λ r. Leaves-raise_if _ _ _ db λ proof.
      Leaves-save_occurrence _ _ db (
        Leaves-pure _ _
          (turned db _ i _ _ o _ keyed found status refl (refl, refl, refl) refl refl)),
  Leaves-reviewed u i _ db λ o found status. Leaves-mark o _ _ _ db λ saved built.
      Leaves-ritual _ _ _ λ r.
        Leaves-bind _ _ _ _ ((complete-Keeps _ _ _).keeps _ refl)
          λ x d done same. Leaves-pure _ d (reviewed d o saved _ built found status same),
  Leaves-reviewed u i _ db λ o found status. Leaves-mark o _ _ _ db λ saved built.
      Leaves-ritual _ _ _ λ r.
        Leaves-bind _ _ _ _ ((miss-Keeps _ _ _).keeps _ refl)
          λ x d done same. Leaves-pure _ d (reviewed d o saved _ built found status same),
)
  where
    reviewed :
        (d : Db) (o saved : RitualOccurrence) (s : OccurrenceStatus)
        → saved ≡ record o { status = s; reviewed_at = some db.clock; reviewed_by = some u.id }
        → find_row i db.occurrences ≡ some o
        → (o.status is OccurrenceStatus.submitted) ≡ true
        → d.occurrences ≡ put_row saved.id saved db.occurrences
        → Turned i OccurrenceStatus.submitted s db d
    reviewed d o saved s built found status same =
        turned db d i _ s o saved keyed found status (ap (λ (x : RitualOccurrence). x.id) built)
          (
            ap (λ (x : RitualOccurrence). x.ritual_id) built,
            ap (λ (x : RitualOccurrence). x.date) built,
            ap (λ (x : RitualOccurrence). x.sub_id) built,
          )
          (ap {B = OccurrenceStatus} (λ (x : RitualOccurrence). x.status) built) same
