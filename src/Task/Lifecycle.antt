-- ===== src/Task/Lifecycle.antt =====
-- server/controllers/task_controller.py: what the status of a task may become.
use debt_collector.Common.{ℕ, ◌≡◌, ◌≢◌, refl, ap, ◌∙◌, true, not-false, Option, some, ◌is◌, String}
use debt_collector.Common.Table.{
  Table, find_row, put_row, find_row-put_row_self, find_row-put_row_other,
}
use debt_collector.Model.{Db, User, Action, Done, Task, TaskStatus, task_status_enum, ◌>>=◌}
use debt_collector.Model.Leaves.{
  Leaves, Leaves-bind, Leaves-gets, Leaves-or_raise, Leaves-raise_if, Leaves-now_utc, Leaves-modify,
  Leaves-pure, Leaves-assoc, Leaves-pure_bind,
}
use debt_collector.Model.Keeps.{Keeps}
use debt_collector.Session.Leaves.{Leaves-goddess}
use debt_collector.Merit.{record_task_complete}
use debt_collector.Merit.Keeps.{record_task_complete-Keeps, apply_penalty-Keeps}
use debt_collector.Merit.Engine.{Offence, apply_penalty}
use debt_collector.Task.{
  save_task, get_task, require_owned_task, cancel_task, approve_task, reject_task, submit_task,
}

-- Task `i` has gone from one status to another, and no other task has changed.
pub record Moved (i : ℕ) (s t : TaskStatus) (db d : Db) : Type 0 where
  pub old : Task
  pub new : Task
  pub was : find_row i db.tasks ≡ some old
  pub from : (old.status is s) ≡ true
  pub is_now : find_row i d.tasks ≡ some new
  pub to : (new.status is t) ≡ true
  pub same_sub : new.sub_id ≡ old.sub_id
  pub others : (j : ℕ) → i ≢ j → find_row j d.tasks ≡ find_row j db.tasks

abbrev pub AllKeyed : Table Task → Type 0
AllKeyed tasks = (k : ℕ) (t : Task) → find_row k tasks ≡ some t → t.id ≡ k

saved_task :
    (db d : Db) (i : ℕ) (s t : TaskStatus) (old new : Task)
    → AllKeyed db.tasks
    → find_row i db.tasks ≡ some old
    → (old.status is s) ≡ true
    → new.id ≡ old.id
    → new.sub_id ≡ old.sub_id
    → (new.status is t) ≡ true
    → d.tasks ≡ put_row new.id new db.tasks
    → Moved i s t db d
saved_task db d i s t old new keyed found from id sub to written = record {
  old = old;
  new = new;
  was = found;
  from = from;
  is_now = ap (find_row i) here ∙ find_row-put_row_self i new db.tasks;
  to = to;
  same_sub = sub;
  others = λ j apart. ap (find_row j) here ∙ find_row-put_row_other i j new db.tasks apart;
}
  where
    here : d.tasks ≡ put_row i new db.tasks
    here = written ∙ ap (λ (k : ℕ). put_row k new db.tasks) (id ∙ keyed i old found)

module _ {B : Type 0} {P : B → Db → Type 0} where
  Leaves-task :
      (i : ℕ) (k : Task → Action B) (db : Db)
      → ((t : Task) → find_row i db.tasks ≡ some t → Leaves P (k t db))
      → Leaves P ((get_task i >>= k) db)
  unfolding get_task
  Leaves-task i k db h = Leaves-assoc _ _ k db (Leaves-gets _ _ db (Leaves-or_raise _ _ k db h))

  Leaves-owned :
      (u : User) (i : ℕ) (s : TaskStatus) (k : Task → Action B) (db : Db)
      → ((t : Task) → find_row i db.tasks ≡ some t → (t.status is s) ≡ true → Leaves P (k t db))
      → Leaves P ((require_owned_task u i s >>= k) db)
  unfolding require_owned_task
  Leaves-owned u i s k db h = Leaves-assoc _ _ k db (
      Leaves-goddess _ _ db λ g at. Leaves-assoc _ _ k db (
        Leaves-task i _ db λ t found. Leaves-assoc _ _ k db (
          Leaves-raise_if _ _ _ db λ own. Leaves-assoc _ _ k db (
            Leaves-raise_if _ _ _ db
              λ status. Leaves-pure_bind t k db (h t found (not-false _ status))))))

  Leaves-save_task :
      (t : Task) (k : Done → Action B) (db : Db)
      → Leaves P (k tt (record db { tasks = put_row t.id t db.tasks }))
      → Leaves P ((save_task t >>= k) db)
  unfolding save_task
  Leaves-save_task t k db h = Leaves-modify _ k db h

-- The credit and the penalty of a review leave the tasks alone.
module _ (tasks : Table Task) where
  credit-Keeps : (t : Task) → Keeps (λ d. d.tasks ≡ tasks) (record_task_complete t)
  credit-Keeps t = record_task_complete-Keeps (λ d. d.tasks ≡ tasks) (λ d es h. h) (λ d es h. h) t

  penalty-Keeps : (o : Offence) → Keeps (λ d. d.tasks ≡ tasks) (apply_penalty o)
  penalty-Keeps o = apply_penalty-Keeps (λ d. d.tasks ≡ tasks) (λ d es h. h) (λ d es h. h) o

-- In a table in which each task stands at its id: a cancellation that succeeds has taken an open
-- task to cancelled, a submission an open one to submitted, an approval a submitted one to approved
-- and a rejection a submitted one to rejected; the sub of the task stays, and no other task changes.
pub task-lifecycle :
    (u : User) (i : ℕ) (reason : String) (remark evidence : Option String) (db : Db)
    → AllKeyed db.tasks
    → Leaves (λ _. Moved i TaskStatus.open_task TaskStatus.cancelled db) (cancel_task u i db)
      × Leaves
          (λ _. Moved i TaskStatus.open_task TaskStatus.submitted db)
          (submit_task u i remark evidence db)
      × Leaves (λ _. Moved i TaskStatus.submitted TaskStatus.approved db) (approve_task u i db)
      × Leaves
          (λ _. Moved i TaskStatus.submitted TaskStatus.rejected db)
          (reject_task u i reason db)
unfolding cancel_task submit_task approve_task reject_task
task-lifecycle u i reason remark evidence db keyed = (
  Leaves-owned u i _ _ db λ t found status. Leaves-now_utc _ db (
      Leaves-save_task _ _ db
        (Leaves-pure _ _ (saved_task db _ i _ _ t _ keyed found status refl refl refl refl))),
  Leaves-task i _ db λ t found. Leaves-raise_if _ _ _ db λ own. Leaves-raise_if _ _ _ db λ status.
      Leaves-now_utc _ db (
        Leaves-save_task _ _ db (
          Leaves-pure _ _
            (saved_task db _ i _ _ t _ keyed found (not-false _ status) refl refl refl refl))),
  Leaves-owned u i _ _ db λ t found status. Leaves-now_utc _ db (
      Leaves-save_task _ _ db (
        Leaves-bind _ _ _ _ ((credit-Keeps _ _).keeps _ refl) λ x d done same.
          Leaves-pure _ d (saved_task db d i _ _ t _ keyed found status refl refl refl same))),
  Leaves-owned u i _ _ db λ t found status. Leaves-now_utc _ db (
      Leaves-save_task _ _ db (
        Leaves-bind _ _ _ _ ((penalty-Keeps _ _).keeps _ refl) λ x d done same.
          Leaves-pure _ d (saved_task db d i _ _ t _ keyed found status refl refl refl same))),
)
