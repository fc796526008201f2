-- ===== src/Job/Survives.antt =====
-- `run_daily` of server/controllers/cron_controller.py and the exceptions of its parts.
use debt_collector.Common.{
  ℕ, ◌≡◌, ap, ◌⊎◌, inl, inr, refl, true, false, Bool, Bool-cases, Option, none, some, List, [], ◌∷◌,
  arith,
}
use debt_collector.Model.{
  Db, CronRun, Summary, Action, Result, ok, err, AppError, pure, gets, modify, when, fresh_id,
  now_utc, ◌>>=◌, continue,
}
use debt_collector.Calendar.{London}
use debt_collector.Job.Tick.{Rates}
use debt_collector.Job.Daily.{
  is_fatal, settle, caught, tick_then, save_run, tick_all, process_contracts, process_subs,
  run_daily,
}

-- A result, or an error of a flush.
abbrev IsSettled : {A : Type 0} → Result (A × Db) → Type 0
IsSettled (ok s) = Unit
IsSettled (err e) = is_fatal e ≡ true

module _ {A B : Type 0} where
  continue-IsSettled :
      (r : Result (A × Db)) (k : A → Action B)
      → IsSettled r
      → ((a : A) (d : Db) → IsSettled (k a d))
      → IsSettled (continue r k)
  continue-IsSettled (ok s) k h next = next s.0 s.1
  continue-IsSettled (err e) k h next = h

  IsSettled-bind :
      (m : Action A) (k : A → Action B) (db : Db)
      → IsSettled (m db)
      → ((a : A) (d : Db) → IsSettled (k a d))
      → IsSettled ((m >>= k) db)
  unfolding ◌>>=◌
  IsSettled-bind m k db h next = continue-IsSettled (m db) k h next

settle-IsSettled : {A : Type 0} (r : Result (A × Db)) (db : Db) → IsSettled (settle r db)
settle-IsSettled (ok s) db = tt
settle-IsSettled (err e) db = elim (Bool-cases (is_fatal e)) [
  | inl fatal ↦ rw fatal fatal
  | inr mild ↦ rw mild tt
]

tick_then-IsSettled :
    (o : Option Bool) (rest : Action (Option ℕ)) (db : Db)
    → ((d : Db) → IsSettled (rest d))
    → IsSettled (tick_then o rest db)
unfolding tick_then ◌>>=◌
tick_then-IsSettled none rest db h = tt
tick_then-IsSettled (some b) rest db h = continue-IsSettled (rest db) _ (h db) λ n d. tt

module _ (london : London) (rates : Rates) where
  tick_all-IsSettled : (ids : List ℕ) (db : Db) → IsSettled (tick_all london rates ids db)
  unfolding tick_all caught pure
  tick_all-IsSettled [] db = tt
  tick_all-IsSettled (id ∷ ids) db =
      IsSettled-bind _ _ db (settle-IsSettled _ db)
        λ o d. tick_then-IsSettled o _ d (λ e. tick_all-IsSettled ids e)

  process_contracts-IsSettled :
      (id : ℕ) (db : Db) → IsSettled (process_contracts london rates id db)
  unfolding process_contracts gets
  process_contracts-IsSettled id db = IsSettled-bind _ _ db tt λ ids d. tick_all-IsSettled ids d

  process_subs-IsSettled :
      (ids : List ℕ) (summary : Summary) (db : Db)
      → IsSettled (process_subs london rates ids summary db)
  unfolding process_subs caught pure
  process_subs-IsSettled [] summary db = tt
  process_subs-IsSettled (id ∷ ids) summary db =
      IsSettled-bind _ _ db (settle-IsSettled _ db) λ rolling d.
        IsSettled-bind _ _ d (process_contracts-IsSettled id d)
          λ contracts e. process_subs-IsSettled ids _ e

  when-IsSettled : (b : Bool) (f : Db → Db) (db : Db) → IsSettled (when b (modify f) db)
  unfolding when modify
  when-IsSettled true f db = tt
  when-IsSettled false f db = tt

  run_daily-IsSettled :
      (dry_run : Bool) (user_id : Option ℕ) (db : Db)
      → IsSettled (run_daily london rates dry_run user_id db)
  unfolding run_daily save_run now_utc fresh_id gets modify pure
  run_daily-IsSettled dry_run user_id db = IsSettled-bind _ _ db tt λ now d.
      IsSettled-bind _ _ d tt λ run_id e. IsSettled-bind _ _ e tt λ done f.
        IsSettled-bind _ _ f tt λ subs g. IsSettled-bind _ _ g tt λ saved h.
          IsSettled-bind _ _ h (process_subs-IsSettled _ _ h) λ summary i.
            IsSettled-bind _ _ i (when-IsSettled dry_run _ i)
              λ undone j. IsSettled-bind _ _ j tt λ finished k. tt

fatal : (e : AppError) → is_fatal e ≡ true → e ≡ AppError.integrity_error
fatal e h = ground arith

settled :
    {A : Type 0} (r : Result (A × Db))
    → IsSettled r
    → ((s : A × Db) × (r ≡ ok s)) ⊎ (r ≡ err AppError.integrity_error)
settled (ok s) h = inl (s, refl)
settled (err e) h = inr (ap err (fatal e h))

-- The daily job always comes to its end, whatever its subs, tributes and contracts are, or is stopped by
-- an error of a flush: no other error of a sub's part gets out of it.
pub run_daily-survives :
    (london : London) (rates : Rates) (dry_run : Bool) (user_id : Option ℕ) (db : Db)
    → ((s : CronRun × Db) × (run_daily london rates dry_run user_id db ≡ ok s))
      ⊎ (run_daily london rates dry_run user_id db ≡ err AppError.integrity_error)
run_daily-survives london rates dry_run user_id db =
    settled _ (run_daily-IsSettled london rates dry_run user_id db)
