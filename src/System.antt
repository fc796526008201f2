-- ===== src/System.antt =====
-- The server as a transition system: the requests on the routers' handlers, with the authentication
-- and the role guard of server/dependencies/auth.py in front of them, and the jobs of
-- server/workers/daily_cron.py.
pub mod Reach
pub mod Payments
pub mod Exact
pub mod Penalty
use debt_collector.Common.{ℕ, Bool, true, false, not, Option, none, some, List, String, ◌is◌}
use debt_collector.Common.Int.{ℤ}
use debt_collector.Common.Table.{find_row}
use debt_collector.Model.{
  User, UserRole, role_enum, Terms, PaymentCategory, Db, Action, Done, AppError, or_raise, raise_if,
  gets, pure, ◌>>=◌, ◌>>◌,
}
use debt_collector.Debt.Propose.{propose_as_goddess, propose_as_sub}
use debt_collector.Debt.Counter.{counter_propose, accept_counter, reject_counter}
use debt_collector.Debt.Sign.{sign_as_sub, close_as_goddess}
use debt_collector.Debt.Clauses.{ContractClauseIn, update_clauses}
use debt_collector.Debt.Adjust.{
  surprise_penalty, surprise_penalty_by_slug, create_adjustment, accept_adjustment,
  refuse_adjustment,
}
use debt_collector.Payment.Declare.{
  DeclarePaymentIn, EditDeclarationIn, declare_as_sub, record_as_goddess, edit_pending_as_sub,
  cancel_pending_as_sub,
}
use debt_collector.Payment.Review.{validate, reject}
use debt_collector.Calendar.{London}
use debt_collector.Job.Tick.{Rates}
use debt_collector.Job.Daily.{run_daily}
use debt_collector.Job.LatePenalty.{bulk_apply}
use debt_collector.Job.Renewal.{run_review_reminders, run_auto_extend_renewals}
use debt_collector.Blacklist.{breach, forgive}

-- A call of a controller, with its arguments.
pub data Call : Type 0 where
  goddess_proposes : ℕ → Terms → Call
  sub_proposes : Terms → Call
  counters : ℕ → Terms → Call
  accepts_counter rejects_counter : ℕ → Call
  signs : ℕ → String → Call
  cancels : ℕ → Call
  changes_clauses : ℕ → List ContractClauseIn → Call
  penalises : ℕ → ℕ → Call
  confirms_penalty : (ℕ → String) → String → ℕ → String → ℕ → Call
  adjusts : ℕ → ℕ → Option String → Call
  accepts_adjustment refuses_adjustment : ℕ → Call
  declares : DeclarePaymentIn → Call
  records : ℕ → DeclarePaymentIn → Call
  edits : ℕ → EditDeclarationIn → Call
  withdraws : ℕ → Call
  validates : ℕ → Option PaymentCategory → Call
  rejects : ℕ → String → Call
  penalises_late : London → List ℕ → Call
  breaches : ℕ → Option String → Call
  forgives : ℕ → ℤ → Call

-- `require_role(...)` of the route. The calls of the contract's negotiation have no route at this
-- commit, so any user may make them.
abbrev pub role_allowed : Call → UserRole → Bool
role_allowed (penalises i n) role = role is UserRole.goddess
role_allowed (confirms_penalty s l n r t) role = role is UserRole.goddess
role_allowed (adjusts i n r) role = role is UserRole.goddess
role_allowed (accepts_adjustment i) role = role is UserRole.sub
role_allowed (refuses_adjustment i) role = role is UserRole.sub
role_allowed (declares p) role = role is UserRole.sub
role_allowed (records s p) role = role is UserRole.goddess
role_allowed (edits i p) role = role is UserRole.sub
role_allowed (withdraws i) role = role is UserRole.sub
role_allowed (validates i c) role = role is UserRole.goddess
role_allowed (rejects i r) role = role is UserRole.goddess
role_allowed (penalises_late l ids) role = role is UserRole.goddess
role_allowed (breaches s r) role = role is UserRole.goddess
role_allowed (forgives i n) role = role is UserRole.goddess
role_allowed _ role = true

unfoldable pub run_call : User → Call → Action Done
run_call u (goddess_proposes sub_id terms) = propose_as_goddess u sub_id terms >> pure tt
run_call u (sub_proposes terms) = propose_as_sub u terms >> pure tt
run_call u (counters i terms) = counter_propose u i terms >> pure tt
run_call u (accepts_counter i) = accept_counter u i >> pure tt
run_call u (rejects_counter i) = reject_counter u i >> pure tt
run_call u (signs i signature) = sign_as_sub u i signature >> pure tt
run_call u (cancels i) = close_as_goddess u i >> pure tt
run_call u (changes_clauses i clauses) = update_clauses u i clauses >> pure tt
run_call u (penalises i amount) = surprise_penalty u i amount >> pure tt
run_call u (confirms_penalty slug_of slug amount reason at) =
    surprise_penalty_by_slug slug_of u slug amount reason at >> pure tt
run_call u (adjusts i amount reason) = create_adjustment u i amount reason >> pure tt
run_call u (accepts_adjustment i) = accept_adjustment u i >> pure tt
run_call u (refuses_adjustment i) = refuse_adjustment u i >> pure tt
run_call u (declares payload) = declare_as_sub u payload >> pure tt
run_call u (records sub_id payload) = record_as_goddess u sub_id payload >> pure tt
run_call u (edits i patch) = edit_pending_as_sub u i patch >> pure tt
run_call u (withdraws i) = cancel_pending_as_sub u i
run_call u (validates i category) = validate u i category >> pure tt
run_call u (rejects i reason) = reject u i reason >> pure tt
run_call u (penalises_late london ids) = bulk_apply london u ids >> pure tt
run_call u (breaches i reason) = breach u i reason >> pure tt
run_call u (forgives i fee) = forgive u i fee >> pure tt

-- `get_current_user`, `require_role`, and the handler. Where it succeeds, the router commits.
unfoldable pub handle : ℕ → Call → Action Done
handle user_id call = do
  found ← gets (λ db. find_row user_id db.users)
  user ← or_raise found AppError.unauthorized
  raise_if (not (role_allowed call user.role)) AppError.forbidden
  run_call user call

-- A job of server/workers/daily_cron.py on contracts, with what it takes from outside. (An admin may run
-- the first by hand, dry or not.)
pub data Job : Type 0 where
  daily : London → Rates → Bool → Option ℕ → Job
  reviews : London → (ℕ → ℕ → ℕ) → Job

-- `_run_once`, and `_run_contract_09_job`.
unfoldable pub run_job : Job → Action Done
run_job (daily london rates dry_run user_id) = run_daily london rates dry_run user_id >> pure tt
run_job (reviews london months_later) =
    run_review_reminders london >> (run_auto_extend_renewals months_later >> pure tt)
