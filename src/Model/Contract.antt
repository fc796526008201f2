-- ===== src/Model/Contract.antt =====
-- The rows of the debt contract tables. Amounts are whole pence, rates and percentages the whole
-- number that their column's scale gives. `models/debt.py` does not declare these classes at this
-- commit: the columns are those of the migrations, under the names that the controllers use.
use debt_collector.Common.{ℕ, Bool, Option, List, String, Enum}
use debt_collector.Common.Int.{ℤ}

pub data InterestPeriod : Type 0 where
  monthly yearly : InterestPeriod

pub data PaymentFrequency : Type 0 where
  weekly biweekly monthly : PaymentFrequency

pub data LatePenaltySeverity : Type 0 where
  light medium severe : LatePenaltySeverity

pub data MidContractAdditionMode : Type 0 where
  disabled dom_controlled sub_approval_required : MidContractAdditionMode

instance abbrev pub mode_enum : Enum MidContractAdditionMode
mode_enum = record {
  index = elim [ disabled ↦ 0 | dom_controlled ↦ 1 | sub_approval_required ↦ 2 ];
}

pub data DebtContractStatus : Type 0 where
  pending_sub pending_dom pending_dom_counter pending_sub_signature : DebtContractStatus
  active closed breached completed cancelled_by_dom : DebtContractStatus

instance abbrev pub contract_status_enum : Enum DebtContractStatus
contract_status_enum = record {
  index = elim [
    | pending_sub ↦ 0
    | pending_dom ↦ 1
    | pending_dom_counter ↦ 2
    | pending_sub_signature ↦ 3
    | active ↦ 4
    | closed ↦ 5
    | breached ↦ 6
    | completed ↦ 7
    | cancelled_by_dom ↦ 8
  ];
}

pub data RenewalPolicy : Type 0 where
  none_policy auto_extend : RenewalPolicy

instance abbrev pub renewal_enum : Enum RenewalPolicy
renewal_enum = record { index = elim [ none_policy ↦ 0 | auto_extend ↦ 1 ] }

-- The financial columns, which a contract, a version and a proposal have in common.
pub record Terms : Type 0 where
  pub principal : ℕ
  pub interest_rate : ℕ
  pub interest_period : InterestPeriod
  pub duration_periods : ℕ
  pub payment_frequency : PaymentFrequency
  pub minimum_payment : ℕ
  pub late_penalty_severity : LatePenaltySeverity
  pub late_penalty_percent : ℕ
  pub dom_can_add_surprise_penalty : Bool
  pub mid_contract_addition_mode : MidContractAdditionMode
  pub exit_amount : ℕ

-- An entry of `clauses_json`.
pub record ContractClause : Type 0 where
  pub id : ℕ
  pub label : String
  pub body : String
  pub sort_order : ℕ

pub record DebtContract : Type 0 where
  pub id : ℕ
  pub sub_id : ℕ
  pub goddess_id : ℕ
  pub sub_initiated : Bool
  pub terms : Terms
  pub open terms use *
  pub status : DebtContractStatus
  pub current_version_id : Option ℕ
  pub clauses_json : List ContractClause
  pub renewal_policy : RenewalPolicy
  pub signed_at : Option ℕ
  pub signature_b64 : Option String
  pub review_at : Option ℕ
  pub balance : ℤ
  pub created_at : ℕ
  pub updated_at : ℕ

pub record DebtContractVersion : Type 0 where
  pub id : ℕ
  pub contract_id : ℕ
  pub round_no : ℕ
  pub proposed_by : ℕ
  pub terms : Terms
  pub open terms use *

pub data DebtContractEventType : Type 0 where
  proposed countered accepted_counter rejected_counter signed cancelled : DebtContractEventType
  closed clauses_changed surprise_penalty contract_renewed breached : DebtContractEventType

instance abbrev pub contract_event_enum : Enum DebtContractEventType
contract_event_enum = record {
  index = elim [
    | proposed ↦ 0
    | countered ↦ 1
    | accepted_counter ↦ 2
    | rejected_counter ↦ 3
    | signed ↦ 4
    | cancelled ↦ 5
    | closed ↦ 6
    | clauses_changed ↦ 7
    | surprise_penalty ↦ 8
    | contract_renewed ↦ 9
    | breached ↦ 10
  ];
}

-- `note` is the id of the source contract, where a renewal writes one.
pub record DebtContractAudit : Type 0 where
  pub contract_id : ℕ
  pub event_type : DebtContractEventType
  pub actor_id : ℕ
  pub from_status : Option DebtContractStatus
  pub to_status : DebtContractStatus
  pub source_contract_id : Option ℕ
