-- ===== src/Session/Allocation.antt =====
-- server/daos/allocation_dao.py: allocations of validated payments, and their totals.
use debt_collector.Common.{
  ℕ, Bool, false, ◌&&◌, Option, none, some, List, [], ◌∷◌, ◌++◌, ◌==◌, ◌==?◌, ◌is◌, if◌then◌else◌,
  ltb,
}
use debt_collector.Common.Table.{find_row}
use debt_collector.Common.Lists.{select, sum_by, length, any_of}
use debt_collector.Model.{
  PaymentDeclaration, PaymentAllocation, AllocationTargetType, target_enum, PaymentStatus,
  payment_status_enum, Db, Action, Done, AppError, gets, raise_if, modify, ◌>>=◌, ◌>>◌,
}

pub record ContractPaymentStats : Type 0 where
  pub total_paid : ℕ
  pub payment_count : ℕ
  pub last_payment_at : Option ℕ
  pub first_payment_at : Option ℕ

abbrev pub is_for : ℕ → PaymentAllocation → Bool
is_for declaration_id a = a.declaration_id == declaration_id

abbrev pub allocation_row : PaymentDeclaration → AllocationTargetType → Option ℕ → PaymentAllocation
allocation_row declaration target_type target_id = record {
  declaration_id = declaration.id;
  target_type = target_type;
  target_id = target_id;
  amount = declaration.amount;
}

-- `PaymentAllocationDao.create`, with the unique constraint on `declaration_id`.
unfoldable pub create_allocation :
    PaymentDeclaration → AllocationTargetType → Option ℕ → Action Done
create_allocation declaration target_type target_id = do
  taken ← gets (λ db. any_of (is_for declaration.id) db.allocations)
  raise_if taken AppError.integrity_error
  modify λ db. record db {
    allocations = db.allocations ++ allocation_row declaration target_type target_id ∷ [];
  }

-- The join and the filter of `stats_for_contract`: an allocation to the contract's debt whose
-- declaration is validated.
abbrev pub is_validated : Option PaymentDeclaration → Bool
is_validated none = false
is_validated (some d) = d.status is PaymentStatus.validated

unfoldable pub counts_for : ℕ → Db → PaymentAllocation → Bool
counts_for contract_id db a =
    (a.target_type is AllocationTargetType.contract_debt)
    && a.target_id ==? contract_id
    && is_validated (find_row a.declaration_id db.declarations)

abbrev validated_at_of : Db → PaymentAllocation → Option ℕ
validated_at_of db a = elim (find_row a.declaration_id db.declarations) [
  | none ↦ none
  | some d ↦ d.validated_at
]

-- SQL's MAX and MIN, which skip NULL.
abbrev latest : Option ℕ → Option ℕ → Option ℕ
latest none b = b
latest (some a) none = some a
latest (some a) (some b) = if ltb a b then some b else some a

abbrev earliest : Option ℕ → Option ℕ → Option ℕ
earliest none b = b
earliest (some a) none = some a
earliest (some a) (some b) = if ltb b a then some b else some a

abbrev fold_times :
    (Option ℕ → Option ℕ → Option ℕ)
    → (PaymentAllocation → Option ℕ)
    → List PaymentAllocation
    → Option ℕ
fold_times pick at [] = none
fold_times pick at (a ∷ r) = pick (at a) (fold_times pick at r)

unfoldable pub stats_for_contract : ℕ → Db → ContractPaymentStats
stats_for_contract contract_id db =
    let paid = select (counts_for contract_id db) db.allocations in
    record {
      total_paid = sum_by (λ a. a.amount) paid;
      payment_count = length paid;
      last_payment_at = fold_times latest (validated_at_of db) paid;
      first_payment_at = fold_times earliest (validated_at_of db) paid;
    }
