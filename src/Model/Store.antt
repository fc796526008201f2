-- ===== src/Model/Store.antt =====
-- The database and the monad of a handler. A handler runs in one transaction: an exception
-- (server/core/exceptions.py, or one of SQLAlchemy) leaves the router before its commit, so an error
-- carries no database.
use debt_collector.Common.{ℕ, ◌+◌, Bool, true, false, Option, none, some, List, [], ◌∷◌, String}
use debt_collector.Common.Table.{Table}
use debt_collector.Model.Account.{
  User, RefreshToken, Credential, PasswordResetToken, Invitation, Notification, Published,
}
use debt_collector.Model.Contract.{DebtContract, DebtContractVersion, DebtContractAudit}
use debt_collector.Model.Event.{DebtEvent, ContractAdjustment}
use debt_collector.Model.Merit.{
  Task, MeritEvent, PenaltyRule, PenaltyEvent, RewardTier, PunishmentTier, RewardRedemption,
}
use debt_collector.Model.Profile.{
  SubProfile, StatusEvent, Ritual, ProfileChangeRequest, Identity, RitualOccurrence,
}
use debt_collector.Model.Job.{CronRun, BlacklistEntry}
use debt_collector.Model.Payment.{
  PaymentDeclaration, PaymentAllocation, PaymentMethod, RollingTribute, TributeMinimum,
}

-- `clock` is what `now_utc()` returns while a request is served, and `next_id` is the source of
-- fresh ids (`uuid4`). Rolling tributes, tribute minimums, safewords and profiles are keyed by the sub,
-- credentials and identities by the user. The lists are in the order of insertion.
pub record Db : Type 0 where
  pub users : Table User
  pub goddesses : Table (Unit {0})
  pub contracts : Table DebtContract
  pub versions : Table DebtContractVersion
  pub audits : List DebtContractAudit
  pub events : List DebtEvent
  pub adjustments : Table ContractAdjustment
  pub declarations : Table PaymentDeclaration
  pub allocations : List PaymentAllocation
  pub methods : Table PaymentMethod
  pub rollings : Table RollingTribute
  pub tribute_minimums : Table TributeMinimum
  pub safewords : Table String
  pub tasks : Table Task
  pub merit_events : List MeritEvent
  pub penalty_rules : Table PenaltyRule
  pub penalty_events : List PenaltyEvent
  pub reward_tiers : Table RewardTier
  pub punishment_tiers : Table PunishmentTier
  pub redemptions : List RewardRedemption
  pub profiles : Table SubProfile
  pub change_requests : Table ProfileChangeRequest
  pub identities : Table Identity
  pub status_events : List StatusEvent
  pub rituals : Table Ritual
  pub occurrences : Table RitualOccurrence
  pub cron_runs : Table CronRun
  pub blacklist : Table BlacklistEntry
  pub refresh_tokens : List RefreshToken
  pub credentials : Table Credential
  pub reset_tokens : List PasswordResetToken
  pub invitations : Table Invitation
  pub notifications : List Notification
  pub published : List Published
  pub clock : ℕ
  pub next_id : ℕ

pub data AppError : Type 0 where
  not_found forbidden conflict bad_request validation value_error : AppError
  multiple_results integrity_error unauthorized illegal_transition : AppError

pub data Result {ℓ} (A : Type ℓ) : Type ℓ where
  ok : A → Result A
  err : AppError → Result A

abbrev pub Action : Type 0 → Type 0
Action A = Db → Result (A × Db)

abbrev pub Done : Type 0
Done = Unit

module _ {A : Type 0} where
  unfoldable pub pure : A → Action A
  pure a db = ok (a, db)

  unfoldable pub raise : AppError → Action A
  raise e db = err e

  unfoldable pub gets : (Db → A) → Action A
  gets f db = ok (f db, db)

  unfoldable pub or_raise : Option A → AppError → Action A
  or_raise none e db = err e
  or_raise (some a) e db = ok (a, db)

  -- `result.scalar_one_or_none()`
  unfoldable pub one_or_none : List A → Action (Option A)
  one_or_none [] db = ok (none, db)
  one_or_none (a ∷ []) db = ok (some a, db)
  one_or_none (a ∷ b ∷ r) db = err multiple_results

unfoldable pub raise_if : Bool → AppError → Action Done
raise_if true e db = err e
raise_if false e db = ok (tt, db)

unfoldable pub modify : (Db → Db) → Action Done
modify f db = ok (tt, f db)

-- `if test: body`
unfoldable pub when : Bool → Action Done → Action Done
when true m db = m db
when false m db = ok (tt, db)

-- `uuid4()`
unfoldable pub fresh_id : Action ℕ
fresh_id db = ok (db.next_id, record db { next_id = db.next_id + 1 })

-- `now_utc()`
unfoldable pub now_utc : Action ℕ
now_utc db = ok (db.clock, db)

abbrev pub continue : {A B : Type 0} → Result (A × Db) → (A → Action B) → Result (B × Db)
continue (ok r) f = f r.0 r.1
continue (err e) f = err e

-- Opening this opens the actions above.
infixl 5 ◌>>=◌ ◌>>◌
unfoldable pub ◌>>=◌ : {A B : Type 0} → Action A → (A → Action B) → Action B
unfolding pure raise gets or_raise one_or_none raise_if modify when fresh_id now_utc
◌>>=◌ m f db = continue (m db) f

abbrev pub ◌>>◌ : {A B : Type 0} → Action A → Action B → Action B
m >> k = m >>= λ _. k
