-- ===== src/Profile/Audit.antt =====
-- The status events that a goddess's change of a status and a panic record, and what a panic does
-- to rituals and tasks.
use debt_collector.Common.{
  ℕ, ◌≡◌, refl, ap, ◌∙◌, true, false, not-false, Option, none, some, List, [], ◌∷◌, ◌++◌, String,
  arith, ◌is◌, Bool-cases, inl, inr,
}
use debt_collector.Common.Table.{Table, find_row, rows}
use debt_collector.Common.Lists.{any_of}
use debt_collector.Model.{
  Db, User, Action, OwnershipStatus, ownership_enum, SubProfile, StatusEvent, Ritual, Task,
  task_status_enum, err, AppError, ◌>>=◌,
}
use debt_collector.Model.Leaves.{
  Leaves, Leaves-bind, Leaves-weaken, Leaves-gets, Leaves-or_raise, Leaves-raise_if, Leaves-now_utc,
  Leaves-modify, Leaves-pure, Leaves-last, Leaves-assoc, Leaves-pure_bind,
}
use debt_collector.Session.Leaves.{Leaves-goddess, Leaves-goddess_user, Leaves-notify_known}
use debt_collector.Profile.{
  can_transition, resolve_goddess_owns_sub, change_ownership_status, is_running, pause_rituals,
  is_outstanding, cancel_tasks, release_profile, soft_release, release_from, trigger,
}

abbrev pub AllAllowed : List StatusEvent → Type 0
AllAllowed [] = Unit
AllAllowed (e ∷ l) = (can_transition e.from_status e.to_status ≡ true) × AllAllowed l

AllAllowed-append :
    (l : List StatusEvent) (e : StatusEvent)
    → AllAllowed l
    → can_transition e.from_status e.to_status ≡ true
    → AllAllowed (l ++ e ∷ [])
AllAllowed-append [] e h fine = (fine, tt)
AllAllowed-append (x ∷ l) e h fine = (h.0, AllAllowed-append l e h.1 fine)

-- From every status but the released one, a release is allowed.
release-allowed :
    (s : OwnershipStatus)
    → (s is OwnershipStatus.released) ≡ false
    → can_transition s OwnershipStatus.released ≡ true
release-allowed s h = ground arith

module _ {B : Type 0} {P : B → Db → Type 0} where
  Leaves-owns_sub :
      (u : User) (sub_id : ℕ) (k : ℕ → Action B) (db : Db)
      → ((g : ℕ) → Leaves P (k g db))
      → Leaves P ((resolve_goddess_owns_sub u sub_id >>= k) db)
  unfolding resolve_goddess_owns_sub
  Leaves-owns_sub u sub_id k db h = Leaves-assoc _ _ k db (
      Leaves-goddess _ _ db λ g at. Leaves-assoc _ _ k db (
        Leaves-gets _ _ db (
          Leaves-assoc _ _ k db (
            Leaves-or_raise _ _ _ db λ hers found.
              Leaves-assoc _ _ k db
                (Leaves-raise_if _ _ _ db λ own. Leaves-pure_bind g k db (h g))))))

-- If the status events record allowed transitions only, they still do after a goddess's change of a
-- sub's status.
pub change_ownership_status-AllAllowed :
    (u : User) (sub_id : ℕ) (to_status : OwnershipStatus) (reason : Option String) (db : Db)
    → AllAllowed db.status_events
    → Leaves
        (λ _ d. AllAllowed d.status_events)
        (change_ownership_status u sub_id to_status reason db)
unfolding change_ownership_status
change_ownership_status-AllAllowed u sub_id to_status reason db h =
    Leaves-owns_sub u sub_id _ db λ g. Leaves-gets _ _ db (
      Leaves-or_raise _ _ _ db λ profile found. Leaves-raise_if _ _ _ db λ allowed.
        Leaves-now_utc _ db (
          Leaves-last _ db (
            Leaves-modify _ _ db
              (Leaves-pure _ _ (AllAllowed-append db.status_events _ h (not-false _ allowed))))))

-- What is left of a release: only the profile and the status events have changed.
abbrev Released : Db → ℕ → Option SubProfile → Db → Type 0
Released db sub_id profile d =
    (AllAllowed db.status_events → AllAllowed d.status_events)
    × (d.rituals ≡ db.rituals)
    × (d.tasks ≡ db.tasks)

release_profile-Released :
    (sub_id goddess_id : ℕ) (o : Option SubProfile) (db : Db)
    → Leaves (λ _. Released db sub_id o) (release_profile sub_id goddess_id o db)
unfolding release_profile
release_profile-Released sub_id goddess_id none db = Leaves-pure _ db (λ h. h, refl, refl)
release_profile-Released sub_id goddess_id (some p) db =
    elim (Bool-cases (p.ownership_status is OwnershipStatus.released)) [
      | inl out ↦ rw out (Leaves-pure _ db (λ h. h, refl, refl))
      | inr held ↦ rw held (
          Leaves-now_utc _ db (
            Leaves-modify _ _ db (
              Leaves-pure _ _ (
                λ h.
                    AllAllowed-append db.status_events _ h
                      (release-allowed p.ownership_status held),
                refl,
                refl,
              ))))
    ]

release_from-Released :
    (sub_id : ℕ) (o : Option ℕ) (db : Db)
    → Leaves (λ _. Released db sub_id none) (release_from sub_id o db)
unfolding release_from soft_release
release_from-Released sub_id none db = Leaves-pure _ db (λ h. h, refl, refl)
release_from-Released sub_id (some g) db = Leaves-assoc _ _ _ db (
    Leaves-gets _ _ db (
      Leaves-bind (λ _. Released db sub_id none) _ _ db
        (release_profile-Released sub_id g (find_row sub_id db.profiles) db)
        λ out d done r.
          Leaves-goddess_user _ _ d λ o. Leaves-notify_known _ _ _ _ d λ ns ps. Leaves-pure _ _ r))

pause_rituals-none :
    (sub_id now : ℕ) (t : Table Ritual)
    → any_of (is_running sub_id) (rows (pause_rituals sub_id now t)) ≡ false
pause_rituals-none sub_id now [] = refl
pause_rituals-none sub_id now ((k, r) ∷ t) = ground (arith, pause_rituals-none sub_id now t)

cancel_tasks-none :
    (sub_id now : ℕ) (l : Table Task)
    → any_of (is_outstanding sub_id) (rows (cancel_tasks sub_id now l)) ≡ false
cancel_tasks-none sub_id now [] = refl
cancel_tasks-none sub_id now ((k, t) ∷ l) = ground (arith, cancel_tasks-none sub_id now l)

-- A panic that is confirmed by the password leaves no ritual of the sub running and no task of the
-- sub open or submitted, and if the status events recorded allowed transitions only, they still do
-- after it; without the password it is an error.
pub panic-stops :
    (u : User) (db : Db)
    → AllAllowed db.status_events
    → Leaves
        (λ _ d.
          (any_of (is_running u.id) (rows d.rituals) ≡ false)
          × (any_of (is_outstanding u.id) (rows d.tasks) ≡ false)
          × AllAllowed d.status_events)
        (trigger u true db)
      × (trigger u false db ≡ err AppError.unauthorized)
unfolding trigger ◌>>=◌
panic-stops u db h = (
  Leaves-weaken _ (release_from-Released u.id u.goddess_id paused) λ out d r. (
    ap (λ t. any_of (is_running u.id) (rows t)) r.1 ∙ pause_rituals-none u.id db.clock db.rituals,
    ap (λ t. any_of (is_outstanding u.id) (rows t)) r.2 ∙ cancel_tasks-none u.id db.clock db.tasks,
    r.0 h,
  ),
  refl,
)
  where
    paused : Db
    paused = record db {
      rituals = pause_rituals u.id db.clock db.rituals;
      tasks = cancel_tasks u.id db.clock db.tasks;
    }
