-- ===== src/System/Reach.antt =====
-- The databases that the server reaches: steps, runs, and the contracts in them.
use debt_collector.Common.{
  false, ◌⊎◌, inl, inr, Bool-cases, ℕ, ◌+◌, ◌≡◌, [], some, refl, true, ap, ◌∙◌, arith,
}
use debt_collector.Common.Int.{pos}
use debt_collector.Common.Table.{find_row}
use debt_collector.Model.{Db, User, DebtContract, ok, Action, pure, ◌>>=◌}
use debt_collector.Model.Leaves.{
  Leaves, Leaves-bind, Leaves-pure, Leaves-gets, Leaves-or_raise, Leaves-raise_if,
}
use debt_collector.Model.Keeps.{Keeps, Keeps-bind, Keeps-pure}
use debt_collector.Ledger.{events_of, replay_events, replay_from}
use debt_collector.Consistency.Invariant.{IsConsistent, is_negotiating}
use debt_collector.Consistency.Lifecycle.{Evolves, Forward-refl, Forward-trans, can_become}
use debt_collector.Consistency.Proposals.{propose_as_goddess-Evolves, propose_as_sub-Evolves}
use debt_collector.Consistency.Counters.{
  counter_propose-Evolves, accept_counter-Evolves, reject_counter-Evolves,
}
use debt_collector.Consistency.Signature.{
  sign_as_sub-Evolves, close_as_goddess-Evolves, update_clauses-Evolves,
}
use debt_collector.Consistency.Penalties.{surprise_penalty_by_slug-Evolves}
use debt_collector.Consistency.Adjustments.{
  surprise_penalty-Evolves, create_adjustment-Evolves, accept_adjustment-Evolves,
  refuse_adjustment-Evolves,
}
use debt_collector.Consistency.Payments.{
  declare_as_sub-Keeps, record_as_goddess-Keeps, edit_pending_as_sub-Keeps,
  cancel_pending_as_sub-Keeps, validate-Keeps, reject-Keeps,
}
use debt_collector.System.{
  Call, goddess_proposes, sub_proposes, counters, accepts_counter, rejects_counter, signs, cancels,
  changes_clauses, penalises, confirms_penalty, adjusts, accepts_adjustment, refuses_adjustment,
  declares, records, edits, withdraws, validates, rejects, penalises_late, breaches, forgives,
  run_call, handle, Job, daily, reviews, run_job,
}
use debt_collector.Job.Whole.{IsWhole}
use debt_collector.Consistency.Runs.{run_daily-Keeps}
use debt_collector.Consistency.Bulk.{
  bulk_apply-Keeps, run_review_reminders-Keeps, run_auto_extend_renewals-Keeps,
}
use debt_collector.Consistency.Breaches.{breach-Keeps, forgive-Keeps}

abbrev pub IsExact : Job → Type 0
IsExact (daily london rates dry_run user_id) = IsWhole rates
IsExact (reviews london months_later) = Unit

-- A request that is served, or a job that is done, moves the database; time passes; and the rest of the server writes the
-- tables other than those of contracts and payments as it likes. The interest of a job is at rates of a
-- whole number of ten-thousandths, as `IsWhole` says.
pub data Step : Db → Db → Type 0 where
  served : (user_id : ℕ) (call : Call) (db d : Db) → handle user_id call db ≡ ok (tt, d) → Step db d
  worked : (job : Job) (db d : Db) → IsExact job → run_job job db ≡ ok (tt, d) → Step db d
  passed : (seconds : ℕ) (db : Db) → Step db (record db { clock = db.clock + seconds })
  elsewhere :
      (db w : Db)
      → Step db (record db {
        users = w.users;
        goddesses = w.goddesses;
        methods = w.methods;
        rollings = w.rollings;
        tribute_minimums = w.tribute_minimums;
        safewords = w.safewords;
        tasks = w.tasks;
        merit_events = w.merit_events;
        penalty_rules = w.penalty_rules;
        penalty_events = w.penalty_events;
        reward_tiers = w.reward_tiers;
        punishment_tiers = w.punishment_tiers;
        redemptions = w.redemptions;
        profiles = w.profiles;
        change_requests = w.change_requests;
        identities = w.identities;
        status_events = w.status_events;
        rituals = w.rituals;
        occurrences = w.occurrences;
        cron_runs = w.cron_runs;
        blacklist = w.blacklist;
        refresh_tokens = w.refresh_tokens;
        credentials = w.credentials;
        reset_tokens = w.reset_tokens;
        invitations = w.invitations;
        notifications = w.notifications;
        published = w.published;
      })

-- Before any contract and any payment.
abbrev pub IsInitial : Db → Type 0
IsInitial db =
    (db.contracts ≡ [])
    × (db.events ≡ [])
    × (db.adjustments ≡ [])
    × (db.declarations ≡ [])
    × (db.allocations ≡ [])

pub data Reach : Db → Type 0 where
  start : (db : Db) → IsInitial db → Reach db
  next : (db d : Db) → Reach db → Step db d → Reach d

kept :
    {A : Type 0} (m : Action A) (db : Db)
    → Leaves (λ _. Evolves db) (m db)
    → Leaves (λ _. Evolves db) ((m >>= λ _. pure tt) db)
kept m db l = Leaves-bind (λ _. Evolves db) m _ db l λ a d e inv. Leaves-pure tt d inv

kept_too :
    {A : Type 0} (m : Action A) (db : Db)
    → IsConsistent db
    → Keeps (Evolves db) m
    → Leaves (λ _. Evolves db) ((m >>= λ _. pure tt) db)
kept_too m db inv h = kept m db (h.keeps db (inv, Forward-refl db.contracts))

run_call-Evolves :
    (u : User) (call : Call) (db : Db)
    → IsConsistent db
    → Leaves (λ _. Evolves db) (run_call u call db)
unfolding run_call
run_call-Evolves u (goddess_proposes s terms) db inv =
    kept _ db (propose_as_goddess-Evolves u s terms db inv)
run_call-Evolves u (sub_proposes terms) db inv = kept _ db (propose_as_sub-Evolves u terms db inv)
run_call-Evolves u (counters i terms) db inv = kept _ db (counter_propose-Evolves u i terms db inv)
run_call-Evolves u (accepts_counter i) db inv = kept _ db (accept_counter-Evolves u i db inv)
run_call-Evolves u (rejects_counter i) db inv = kept _ db (reject_counter-Evolves u i db inv)
run_call-Evolves u (signs i signature) db inv = kept _ db (sign_as_sub-Evolves u i signature db inv)
run_call-Evolves u (cancels i) db inv = kept _ db (close_as_goddess-Evolves u i db inv)
run_call-Evolves u (changes_clauses i clauses) db inv =
    kept _ db (update_clauses-Evolves u i clauses db inv)
run_call-Evolves u (penalises i n) db inv = kept _ db (surprise_penalty-Evolves u i n db inv)
run_call-Evolves u (confirms_penalty f s n r t) db inv =
    kept _ db (surprise_penalty_by_slug-Evolves f u s n r t db inv)
run_call-Evolves u (adjusts i n reason) db inv =
    kept _ db (create_adjustment-Evolves u i n reason db inv)
run_call-Evolves u (accepts_adjustment i) db inv = kept _ db (accept_adjustment-Evolves u i db inv)
run_call-Evolves u (refuses_adjustment i) db inv = kept _ db (refuse_adjustment-Evolves u i db inv)
run_call-Evolves u (declares payload) db inv = kept_too _ db inv (declare_as_sub-Keeps db u payload)
run_call-Evolves u (records s payload) db inv =
    kept_too _ db inv (record_as_goddess-Keeps db u s payload)
run_call-Evolves u (edits i patch) db inv =
    kept_too _ db inv (edit_pending_as_sub-Keeps db u i patch)
run_call-Evolves u (withdraws i) db inv =
    (cancel_pending_as_sub-Keeps db u i).keeps db (inv, Forward-refl db.contracts)
run_call-Evolves u (validates i category) db inv =
    kept_too _ db inv (validate-Keeps db u i category)
run_call-Evolves u (rejects i reason) db inv = kept_too _ db inv (reject-Keeps db u i reason)
run_call-Evolves u (penalises_late london ids) db inv =
    kept_too _ db inv (bulk_apply-Keeps london db u ids)
run_call-Evolves u (breaches i reason) db inv = kept_too _ db inv (breach-Keeps db u i reason)
run_call-Evolves u (forgives i fee) db inv = kept_too _ db inv (forgive-Keeps db u i fee)

run_job-Evolves :
    (job : Job) (db : Db)
    → IsExact job
    → IsConsistent db
    → Leaves (λ _. Evolves db) (run_job job db)
unfolding run_job
run_job-Evolves (daily london rates dry_run user_id) db whole inv =
    kept_too _ db inv (run_daily-Keeps london rates whole db dry_run user_id)
run_job-Evolves (reviews london months_later) db whole inv =
    (Keeps-bind _ _ (run_review_reminders-Keeps db london) λ n.
        Keeps-bind _ _ (run_auto_extend_renewals-Keeps months_later db) λ m. Keeps-pure tt).keeps
      db (inv, Forward-refl db.contracts)

handle-Evolves :
    (user_id : ℕ) (call : Call) (db : Db)
    → IsConsistent db
    → Leaves (λ _. Evolves db) (handle user_id call db)
unfolding handle
handle-Evolves user_id call db inv = Leaves-gets _ _ db (
    Leaves-or_raise _ _ _ db
      λ u found. Leaves-raise_if _ _ _ db λ allowed. run_call-Evolves u call db inv)

-- A step keeps the invariant, and takes every contract forward.
pub Step-Evolves : (db d : Db) → Step db d → IsConsistent db → Evolves db d
Step-Evolves db d (served user_id call _ _ done) inv =
    (handle-Evolves user_id call db inv).at tt d done
Step-Evolves db d (worked job _ _ whole done) inv = (run_job-Evolves job db whole inv).at tt d done
Step-Evolves db d (passed seconds _) inv = (inv, Forward-refl db.contracts)
Step-Evolves db d (elsewhere _ w) inv = (inv, Forward-refl db.contracts)

IsInitial-IsConsistent : (db : Db) → IsInitial db → IsConsistent db
IsInitial-IsConsistent db (cs, es, adjs, ds, as_) =
    rw (cs, es, adjs)
      (record {
        distinct = tt;
        row_ok = λ k c h. ground arith;
        known = λ k c h. ground arith;
        no_events = λ k h. refl;
        adjusted_known = λ i a h. ground arith;
        adjusted_signed = λ i a c h at. ground arith;
      })

-- Every database that the server reaches satisfies the invariant.
pub Reach-IsConsistent : (db : Db) → Reach db → IsConsistent db
Reach-IsConsistent db (start _ h) = IsInitial-IsConsistent db h
Reach-IsConsistent db (next before _ r step) =
    (Step-Evolves before db step (Reach-IsConsistent before r)).0

-- In every database that the server reaches by the calls and the jobs of System.antt (at whole rates), the stored balance of a
-- contract is its principal with the contract's events replayed over it.
pub balance-replay :
    (db : Db) (contract_id : ℕ) (c : DebtContract)
    → Reach db
    → find_row contract_id db.contracts ≡ some c
    → c.balance ≡ replay_events c.principal (events_of contract_id db.events)
balance-replay db contract_id c r found =
    ((Reach-IsConsistent db r).row_ok contract_id c found).balanced

-- In every database that the server reaches by the calls and the jobs of System.antt (at whole rates), a contract that is still
-- negotiated has no event and owes exactly its principal.
pub negotiated-balance :
    (db : Db) (contract_id : ℕ) (c : DebtContract)
    → Reach db
    → find_row contract_id db.contracts ≡ some c
    → is_negotiating c.status ≡ true
    → (events_of contract_id db.events ≡ []) × (c.balance ≡ pos c.principal)
unfolding replay_events replay_from
negotiated-balance db contract_id c r found neg =
    let row = (Reach-IsConsistent db r).row_ok contract_id c found in
    let none_yet = row.quiet neg in
    (none_yet, row.balanced ∙ ap (replay_events c.principal) none_yet)

-- Any number of steps.
pub data Steps : Db → Db → Type 0 where
  here : (db : Db) → Steps db db
  then_step : (db d e : Db) → Steps db d → Step d e → Steps db e

pub Steps-Evolves : (db d : Db) → IsConsistent db → Steps db d → Evolves db d
Steps-Evolves db d inv (here _) = (inv, Forward-refl db.contracts)
Steps-Evolves db d inv (then_step _ before _ steps step) =
    let (inv', f) = Steps-Evolves db before inv steps in
    let (inv'', g) = Step-Evolves before d step inv' in
    (inv'', Forward-trans db.contracts before.contracts d.contracts f g)

-- From a reachable database on, whatever calls of System.antt are made and
-- whatever jobs are done at whole rates: a contract is never lost;
-- its sub and its goddess stay; its status only goes forward in the order of `can_become`, in
-- which a closed, breached, completed or cancelled contract stays as it is and no signed one is
-- negotiated again; and once it is no longer negotiated its terms are fixed.
pub contract-lifecycle :
    (db d : Db) (contract_id : ℕ) (c : DebtContract)
    → Reach db
    → Steps db d
    → find_row contract_id db.contracts ≡ some c
    → (c' : DebtContract) × ((find_row contract_id d.contracts ≡ some c')
        × ((c'.sub_id ≡ c.sub_id)
            × (c'.goddess_id ≡ c.goddess_id)
            × (can_become c.status c'.status ≡ true)
            × ((is_negotiating c.status ≡ true) ⊎ (c'.terms ≡ c.terms))))
contract-lifecycle db d contract_id c r steps found =
    let (c', (at, f)) =
      (Steps-Evolves db d (Reach-IsConsistent db r) steps).1 contract_id c found in
    (c', (at, (f.same_sub, f.same_goddess, f.moved, fixed c' f.settled)))
  where
    fixed :
        (c' : DebtContract)
        → (is_negotiating c.status ≡ false → c'.terms ≡ c.terms)
        → (is_negotiating c.status ≡ true) ⊎ (c'.terms ≡ c.terms)
    fixed c' h = elim (Bool-cases (is_negotiating c.status)) [
      | inl negotiating ↦ inl negotiating
      | inr signed ↦ inr (h signed)
    ]
