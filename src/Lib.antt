-- ===== src/Lib.antt =====
-- The server of the debt collector: a goddess lends to her subs by contracts, books payments and
-- penalties on them, and sets tasks, rewards and punishments.
--
-- The parts and how they interact. A request names a user and a call. `handle` (System.antt) looks the
-- user up, asks for the role that the route requires (server/dependencies/auth.py, routers/*.py) and
-- runs the controller's operation; the router commits what it leaves, or rolls back. Controllers read
-- and write tables through their DAOs. A debt contract (controllers/debt) is proposed, countered,
-- signed, given clauses and adjustments, and closed; a payment (controllers/payment) is declared by
-- the sub or recorded by the goddess and then reviewed, and a validated one is allocated to its target
-- and may book an event on a contract. Both book on contracts by the ledger (utils/ledger.py), which
-- appends an event and stores the balance that the replay of all events gives. A reviewed task
-- (controllers/task_controller.py) credits merit points or asks the penalty engine for its rule. A sub
-- may panic at any time, which stops the rituals and tasks and releases the sub. The jobs of
-- workers/daily_cron.py run beside the requests: every day interest and late penalties are booked on
-- the active contracts, reviews are announced and contracts renewed, and the occurrences of rituals
-- are made in the morning and missed at night. A goddess may breach a sub
-- (controllers/blacklist_controller.py), which ends the sub's contracts and sessions, and forgive her.
-- A sub comes by an invitation and signs in for a session (controllers/auth_controller.py). The steps
-- of System are the calls on contracts and payments, the penalties in bulk, the blacklist and the jobs
-- on contracts; the other operations are no steps of it, the rows that an administrator edits by hand
-- (routers/admin.py) among them.
--
-- The files, and what they model:
--   Common      numbers, lists, options, tables and rounding: `Decimal.quantize` with ROUND_HALF_EVEN
--               and ROUND_HALF_UP, the integers of the balances.
--   Model       the rows (server/models, and for the contract tables the migrations
--               server/alembic/versions/38f259f9ec7e_debt_contracts_tables.py, 1de5e6292627 and
--               5fab2f224eea), the database, and the monad of the controllers (Model/Store).
--               Model/Leaves and Model/Keeps are the rules for what an operation leaves and keeps.
--   Session     server/controllers/_goddess.py, services/notifications/notify.py, daos/debt_dao.py;
--               Session/Allocation is daos/allocation_dao.py.
--   Ledger      server/utils/ledger.py: `replay_events`, `recompute_balance`,
--               `apply_event_and_recompute`.
--   Debt        server/controllers/debt/controller.py and helpers.py: Propose, Counter, Sign, Clauses,
--               Adjust, with one definition for each operation that writes, named as in the source;
--               Resave is about the comparison of clauses that voids a signature.
--   Payment     server/controllers/payment/controller.py and helpers.py: Rules, Effects, Declare,
--               Review; Invariant has the predicates on the payment tables, Writes, Frame and
--               Settles the lemmas on the writes and the operations, and Jobs, Breaches and Renewals
--               those on the jobs and the blacklist.
--   Consistency the invariant of contracts, events and adjustments, and lemmas on each operation, in a
--               file for each group of operations.
--   Finance     server/utils/finance.py: `exit_due`, `simulate`, `severe_warning`.
--   Profile     server/services/profile/status_machine.py, services/panic/orchestrator.py,
--               controllers/panic_controller.py, the change of status of profile_controller.py;
--               Profile/Change is its requests for a change of the profile.
--   Merit       server/daos/merit_event_dao.py, services/merits/credits.py, the redemption of
--               controllers/merits_controller.py; Merit/Engine is services/penalty/engine.py with
--               daos/penalty_rule_dao.py. Source is about the one event of a source, Balance, Penalty
--               and Cooldown about balances and penalties.
--               Merit/Tiers is the rewards and punishments of controllers/merits_controller.py, and
--               Merit/Rules is controllers/penalty_rule_controller.py.
--   Task        server/controllers/task_controller.py and daos/task_dao.py.
--   Calendar    what the server uses of Python's datetime.
--   Periods     server/utils/periods.py and utils/rolling.py: `current_period_index`, `days_late`.
--   Job         server/workers/daily_cron.py: Tick and Daily are controllers/cron_controller.py, Renewal
--               is services/cron/contracts.py, LatePenalty is controllers/late_penalty_controller.py;
--               Timing, Once, DryRun, Survives and Whole are about them.
--   Blacklist   server/controllers/blacklist_controller.py.
--   Auth        server/controllers/auth_controller.py with daos/token_dao.py: sessions and the reset of a
--               password; Auth/Invite is controllers/invitation_controller.py. Once, Reset, Lockout and
--               Invite/Once are about them.
--   Ritual      server/controllers/ritual_controller.py with its DAOs; Ritual/Daily is
--               services/cron/rituals.py.
--   Rolling     server/controllers/rolling_controller.py with daos/rolling_dao.py.
--   Tribute     server/controllers/tribute_minimum_controller.py with its DAO.
--   System      requests, jobs and the steps of the server; System/Reach has the databases that it reaches,
--               System/Exact and System/Penalty what payments and a confirmed penalty do to balances
--               in them.
--   Tests       small databases and runs.
--
-- Conventions. An id is a number, fresh ones come from a counter of the database (`uuid4` never
-- repeats one). A time is a number of seconds, and the clock stands still while a request is served.
-- An exception leaves the router before the commit, so an error carries no database. Amounts of money
-- are whole pence; the amounts of events and the rates in percent are in units of 1/10000. A balance
-- is an integer, as it may be negative. The order of events is the order of their insertion. Where a
-- query may return one of several rows in a tie, the first is taken.
--
-- Bounds and fuel. The projection of a contract loops on a count, which is the source's own: the
-- periods of the contract, at most 520; dates are moved day by day, over two weeks at most. Everything
-- else recurs on lists. Decimals are exact: the 28 digits of Python's context and the widths of the
-- columns are not modelled. The rate of a period, which takes a power of a float for a yearly rate, is
-- a parameter of the projections and of the daily job; so are the slugs of contracts (no code at this
-- commit makes them), hashes and secrets
-- (server/core/security.py calls libraries for them), the time zone of London (`zoneinfo`) and
-- `relativedelta`, which moves a time by months. The jobs of the reachable databases have rates of
-- whole ten-thousandths (`IsWhole`), as the ledger's table rounds an event to those.
--
-- Not modelled: the texts of messages and notifications, documents, the object store and push
-- messages; encryption and mail, which are third-party code; consent; lists, dashboards and other
-- reads; the review of tasks and occurrences in a batch (controllers/review_queue_controller.py) and
-- the edits of an administrator (routers/admin.py); payment methods, the inbox and the rows that no
-- other part reads (kinks, limits, journal, toys, photos). An error of a flush
-- inside the daily job is taken to end it, as the session refuses further work. The calls of the
-- negotiation have no route at this commit, so any user may make them.
pub mod Common
pub mod Model
pub mod Ledger
pub mod Session
pub mod Debt
pub mod Payment
pub mod Consistency
pub mod Calendar
pub mod Periods
pub mod Finance
pub mod Profile
pub mod Merit
pub mod Task
pub mod Job
pub mod Blacklist
pub mod Ritual
pub mod Rolling
pub mod Tribute
pub mod Auth
pub mod System
mod Tests
