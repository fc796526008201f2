-- ===== src/System/Payments.antt =====
-- The payment tables in the databases that the server reaches.
use debt_collector.Common.{ℕ, ◌≡◌, ap, ◌∙◌, false, some, arith}
use debt_collector.Common.Table.{find_row}
use debt_collector.Model.{Db, User, Action, PaymentDeclaration, pure, ◌>>=◌}
use debt_collector.Model.Leaves.{
  Leaves, Leaves-bind, Leaves-pure, Leaves-gets, Leaves-or_raise, Leaves-raise_if,
}
use debt_collector.Model.Keeps.{Keeps-bind, Keeps-pure}
use debt_collector.Payment.Invariant.{AllBacked, AllSingle, PaymentsOk, is_pending}
use debt_collector.Payment.Writes.{DeclarationsForward-refl, DeclarationsForward-trans}
use debt_collector.Payment.Frame.{
  Settled, propose_as_goddess-Keeps, propose_as_sub-Keeps, counter_propose-Keeps,
  accept_counter-Keeps, reject_counter-Keeps, sign_as_sub-Keeps, close_as_goddess-Keeps,
  update_clauses-Keeps, surprise_penalty-Keeps, surprise_penalty_by_slug-Keeps,
  create_adjustment-Keeps, accept_adjustment-Keeps, refuse_adjustment-Keeps,
}
use debt_collector.Payment.Settles.{
  declare_as_sub-Settled, record_as_goddess-Settled, edit_pending_as_sub-Settled,
  cancel_pending_as_sub-Settled, validate-Settled, reject-Settled,
}
use debt_collector.System.{
  Call, goddess_proposes, sub_proposes, counters, accepts_counter, rejects_counter, signs, cancels,
  changes_clauses, penalises, confirms_penalty, adjusts, accepts_adjustment, refuses_adjustment,
  declares, records, edits, withdraws, validates, rejects, penalises_late, breaches, forgives,
  run_call, handle, Job, daily, reviews, run_job,
}
use debt_collector.Payment.Jobs.{bulk_apply-Keeps, run_daily-Keeps}
use debt_collector.Payment.Breaches.{breach-Keeps, forgive-Keeps}
use debt_collector.Payment.Renewals.{run_review_reminders-Keeps, run_auto_extend_renewals-Keeps}
use debt_collector.System.Reach.{
  Step, served, worked, passed, elsewhere, Reach, start, next, Steps, here, then_step,
}

dropped :
    {A : Type 0} (m : Action A) (db : Db)
    → Leaves (λ _. Settled db) (m db)
    → Leaves (λ _. Settled db) ((m >>= λ _. pure tt) db)
dropped m db l = Leaves-bind (λ _. Settled db) m _ db l λ a d e inv. Leaves-pure tt d inv

run_call-Settled :
    (u : User) (call : Call) (db : Db)
    → Settled db db
    → Leaves (λ _. Settled db) (run_call u call db)
unfolding run_call
run_call-Settled u (goddess_proposes s t) db e =
    dropped _ db ((propose_as_goddess-Keeps db u s t).keeps db e)
run_call-Settled u (sub_proposes t) db e = dropped _ db ((propose_as_sub-Keeps db u t).keeps db e)
run_call-Settled u (counters i t) db e = dropped _ db ((counter_propose-Keeps db u i t).keeps db e)
run_call-Settled u (accepts_counter i) db e =
    dropped _ db ((accept_counter-Keeps db u i).keeps db e)
run_call-Settled u (rejects_counter i) db e =
    dropped _ db ((reject_counter-Keeps db u i).keeps db e)
run_call-Settled u (signs i s) db e = dropped _ db ((sign_as_sub-Keeps db u i s).keeps db e)
run_call-Settled u (cancels i) db e = dropped _ db ((close_as_goddess-Keeps db u i).keeps db e)
run_call-Settled u (changes_clauses i c) db e =
    dropped _ db ((update_clauses-Keeps db u i c).keeps db e)
run_call-Settled u (penalises i n) db e =
    dropped _ db ((surprise_penalty-Keeps db u i n).keeps db e)
run_call-Settled u (confirms_penalty f s n r t) db e =
    dropped _ db ((surprise_penalty_by_slug-Keeps db f u s n r t).keeps db e)
run_call-Settled u (adjusts i n r) db e =
    dropped _ db ((create_adjustment-Keeps db u i n r).keeps db e)
run_call-Settled u (accepts_adjustment i) db e =
    dropped _ db ((accept_adjustment-Keeps db u i).keeps db e)
run_call-Settled u (refuses_adjustment i) db e =
    dropped _ db ((refuse_adjustment-Keeps db u i).keeps db e)
run_call-Settled u (declares p) db e = dropped _ db (declare_as_sub-Settled u p db e)
run_call-Settled u (records s p) db e = dropped _ db (record_as_goddess-Settled u s p db e)
run_call-Settled u (edits i p) db e = dropped _ db (edit_pending_as_sub-Settled u i p db e)
run_call-Settled u (withdraws i) db e = cancel_pending_as_sub-Settled u i db e
run_call-Settled u (validates i c) db e = dropped _ db (validate-Settled u i c db e)
run_call-Settled u (rejects i r) db e = dropped _ db (reject-Settled u i r db e)
run_call-Settled u (penalises_late london ids) db e =
    dropped _ db ((bulk_apply-Keeps london db u ids).keeps db e)
run_call-Settled u (breaches i reason) db e = dropped _ db ((breach-Keeps db u i reason).keeps db e)
run_call-Settled u (forgives i fee) db e = dropped _ db ((forgive-Keeps db u i fee).keeps db e)

run_job-Settled : (job : Job) (db : Db) → Settled db db → Leaves (λ _. Settled db) (run_job job db)
unfolding run_job
run_job-Settled (daily london rates dry_run user_id) db e =
    dropped _ db ((run_daily-Keeps london rates db dry_run user_id).keeps db e)
run_job-Settled (reviews london months_later) db e =
    (Keeps-bind _ _ (run_review_reminders-Keeps db london) λ n.
        Keeps-bind _ _ (run_auto_extend_renewals-Keeps months_later db) λ m. Keeps-pure tt).keeps
      db e

handle-Settled :
    (user_id : ℕ) (call : Call) (db : Db)
    → Settled db db
    → Leaves (λ _. Settled db) (handle user_id call db)
unfolding handle
handle-Settled user_id call db e = Leaves-gets _ _ db (
    Leaves-or_raise _ _ _ db
      λ u found. Leaves-raise_if _ _ _ db λ allowed. run_call-Settled u call db e)

abbrev InOrder : Db → Type 0
InOrder db = PaymentsOk db.declarations db.allocations db.next_id

Step-Settled : (db d : Db) → Step db d → InOrder db → Settled db d
Step-Settled db d (served user_id call _ _ done) inv =
    (handle-Settled user_id call db (inv, DeclarationsForward-refl db.declarations)).at tt d done
Step-Settled db d (worked job _ _ whole done) inv =
    (run_job-Settled job db (inv, DeclarationsForward-refl db.declarations)).at tt d done
Step-Settled db d (passed seconds _) inv = (inv, DeclarationsForward-refl db.declarations)
Step-Settled db d (elsewhere _ w) inv = (inv, DeclarationsForward-refl db.declarations)

Reach-InOrder : (db : Db) → Reach db → InOrder db
Reach-InOrder db (start _ (cs, es, adjs, ds, allocs)) =
    rw (ds, allocs) (record { backed = tt; single = tt; known = λ k decl h. ground arith })
Reach-InOrder db (next before _ r step) = (Step-Settled before db step (Reach-InOrder before r)).0

Steps-Settled : (db d : Db) → InOrder db → Steps db d → Settled db d
Steps-Settled db d inv (here _) = (inv, DeclarationsForward-refl db.declarations)
Steps-Settled db d inv (then_step _ before _ steps step) =
    let (inv', f) = Steps-Settled db before inv steps in
    let (inv'', g) = Step-Settled before d step inv' in
    (inv'', DeclarationsForward-trans db.declarations before.declarations d.declarations f g)

-- In every database that the server reaches by the calls and the jobs of System.antt (at whole rates), each allocation is of a
-- declaration that is there and is validated, goes to the target of the declaration's category,
-- and has its amount; and no declaration has two allocations.
pub allocations-backed :
    (db : Db) → Reach db → AllBacked db.declarations db.allocations × AllSingle db.allocations
allocations-backed db r = let inv = Reach-InOrder db r in (inv.backed, inv.single)

-- From a reachable database on, a declaration that has been validated, rejected or cancelled stays
-- exactly as it is, whatever calls of System.antt are made and whatever jobs are done at whole rates.
pub reviewed-final :
    (db d : Db) (i : ℕ) (decl : PaymentDeclaration)
    → Reach db
    → Steps db d
    → find_row i db.declarations ≡ some decl
    → is_pending decl ≡ false
    → find_row i d.declarations ≡ some decl
reviewed-final db d i decl r steps found final =
    let (decl', (at, (sub, same))) =
      (Steps-Settled db d (Reach-InOrder db r) steps).1 i decl found in
    at ∙ ap some (same final)
