-- ===== src/Tests.antt =====
-- A small server on which the theorems are tried: a goddess, her sub, and one contract.
mod Ledger
mod System
mod Contracts
mod Finance
mod Profile
mod Merit
mod Task
mod Job
mod Ritual
mod Rolling
mod Tribute
mod Auth
use debt_collector.Common.{
  ℕ, ◌≡◌, refl, Bool, true, false, Option, none, some, List, [], ◌∷◌, String,
}
use debt_collector.Common.Int.{pos}
use debt_collector.Model.{
  User, UserRole, UserStatus, Terms, InterestPeriod, PaymentFrequency, LatePenaltySeverity,
  MidContractAdditionMode, PaymentMethod, RollingTribute, Db, PaymentCategory,
}
use debt_collector.Payment.Declare.{DeclarePaymentIn}

abbrev pub goddess_user : User
goddess_user = record {
  id = 1;
  goddess_id = some 3;
  role = UserRole.goddess;
  status = UserStatus.active;
}

abbrev pub sub_user : User
sub_user = record { id = 2; goddess_id = some 3; role = UserRole.sub; status = UserStatus.active }

-- 1,000 pounds over ten weeks.
abbrev pub some_terms : Terms
some_terms = record {
  principal = 100000;
  interest_rate = 500;
  interest_period = InterestPeriod.monthly;
  duration_periods = 10;
  payment_frequency = PaymentFrequency.weekly;
  minimum_payment = 5000;
  late_penalty_severity = LatePenaltySeverity.light;
  late_penalty_percent = 200;
  dom_can_add_surprise_penalty = true;
  mid_contract_addition_mode = MidContractAdditionMode.dom_controlled;
  exit_amount = 40000;
}

abbrev pub start_db : Db
start_db = record {
  users = (1, goddess_user) ∷ (2, sub_user) ∷ [];
  goddesses = (3, tt) ∷ [];
  contracts = [];
  versions = [];
  audits = [];
  events = [];
  adjustments = [];
  declarations = [];
  allocations = [];
  methods = (4, record { goddess_id = 3; enabled = true }) ∷ [];
  rollings = [];
  tribute_minimums = [];
  safewords = [];
  tasks = [];
  merit_events = [];
  penalty_rules = [];
  penalty_events = [];
  reward_tiers = [];
  punishment_tiers = [];
  redemptions = [];
  profiles = [];
  change_requests = [];
  identities = [];
  status_events = [];
  rituals = [];
  occurrences = [];
  cron_runs = [];
  blacklist = [];
  refresh_tokens = [];
  credentials = [];
  reset_tokens = [];
  invitations = [];
  notifications = [];
  published = [];
  clock = 0;
  next_id = 10;
}

abbrev pub payment_of : PaymentCategory → ℕ → DeclarePaymentIn
payment_of category amount = record {
  amount = amount;
  method_id = 4;
  category = category;
  external_timestamp = none;
  note = none;
  target_id = some 10;
}
