-- ===== src/Job/Keeps.antt =====
-- Actions that keep an invariant, where exceptions are caught, and where the database is read as a whole.
use debt_collector.Common.{Bool-cases, inl, inr, none, refl}
use debt_collector.Model.{Db, Action, Result, ok, err, gets, ◌>>=◌}
use debt_collector.Model.Leaves.{Leaves, Leaves-ok, Leaves-err, Leaves-gets}
use debt_collector.Model.Keeps.{Keeps}
use debt_collector.Job.Daily.{is_fatal, settle, caught}

-- An exception that is caught leaves the database as it was.
settle-Leaves :
    {A : Type 0} (P : Db → Type 0) (r : Result (A × Db)) (db : Db)
    → P db
    → Leaves (λ _. P) r
    → Leaves (λ _. P) (settle r db)
settle-Leaves P (ok s) db h l = Leaves-ok _ _ (l.at s.0 s.1 refl)
settle-Leaves P (err e) db h l = elim (Bool-cases (is_fatal e)) [
  | inl fatal ↦ rw fatal (Leaves-err e)
  | inr mild ↦ rw mild (Leaves-ok none db h)
]

pub Keeps-caught : {I : Db → Type 0} {A : Type 0} (m : Action A) → Keeps I m → Keeps I (caught m)
unfolding caught
Keeps-caught {I} m h = record { keeps = λ db inv. settle-Leaves I (m db) db inv (h.keeps db inv) }

-- The rest of a block after the database has been read.
pub Keeps-reading :
    {I : Db → Type 0} {A : Type 0} (k : Db → Action A)
    → ((saved : Db) → I saved → Keeps I (k saved))
    → Keeps I (gets (λ db. db) >>= k)
Keeps-reading k h = record { keeps = λ db inv. Leaves-gets _ k db ((h db inv).keeps db inv) }
