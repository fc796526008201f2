-- ===== src/Payment/Invariant.antt =====
-- Predicates on the payment tables of server/models/payment.py: where an allocation comes from,
-- how many a declaration has, and what a declaration may become.
use debt_collector.Common.{
  ℕ, ◌<◌, ◌≡◌, ◌≢◌, sym, ◌∙◌, Bool, true, false, some, List, [], ◌∷◌, arith, ◌is◌, subst,
}
use debt_collector.Common.Table.{Table, find_row, put_row, find_row-put_row_other}
use debt_collector.Common.Lists.{any_of}
use debt_collector.Model.{PaymentDeclaration, PaymentAllocation, PaymentStatus, payment_status_enum}
use debt_collector.Session.Allocation.{is_for}
use debt_collector.Payment.Rules.{allocation_target}

abbrev pub is_pending : PaymentDeclaration → Bool
is_pending decl = decl.status is PaymentStatus.pending

-- An allocation, with the declaration that it is of.
pub record Backed (decls : Table PaymentDeclaration) (a : PaymentAllocation) : Type 0 where
  pub declaration : PaymentDeclaration
  pub found : find_row a.declaration_id decls ≡ some declaration
  pub validated : (declaration.status is PaymentStatus.validated) ≡ true
  pub target : allocation_target declaration.category ≡ some a.target_type
  pub amount : a.amount ≡ declaration.amount

abbrev pub AllBacked : Table PaymentDeclaration → List PaymentAllocation → Type 0
AllBacked decls [] = Unit
AllBacked decls (a ∷ l) = Backed decls a × AllBacked decls l

-- No two allocations of one declaration.
abbrev pub AllSingle : List PaymentAllocation → Type 0
AllSingle [] = Unit
AllSingle (a ∷ l) = (any_of (is_for a.declaration_id) l ≡ false) × AllSingle l

-- A declaration under its id, which comes from the supply.
abbrev pub AllKnown : Table PaymentDeclaration → ℕ → Type 0
AllKnown decls n =
    (k : ℕ) (decl : PaymentDeclaration) → find_row k decls ≡ some decl → (decl.id ≡ k) × (k < n)

pub record PaymentsOk (decls : Table PaymentDeclaration) (allocs : List PaymentAllocation) (n : ℕ)
    : Type 0 where
  pub backed : AllBacked decls allocs
  pub single : AllSingle allocs
  pub known : AllKnown decls n

-- Every declaration is still there, and one that is not pending is as it was.
abbrev pub DeclarationsForward : Table PaymentDeclaration → Table PaymentDeclaration → Type 0
DeclarationsForward old new =
    (k : ℕ) (decl : PaymentDeclaration)
    → find_row k old ≡ some decl
    → (decl' : PaymentDeclaration) × ((find_row k new ≡ some decl')
        × ((decl'.sub_id ≡ decl.sub_id) × (is_pending decl ≡ false → decl' ≡ decl)))

pub AllBacked-put :
    (decls : Table PaymentDeclaration) (k : ℕ) (new : PaymentDeclaration)
    (l : List PaymentAllocation)
    → ((old : PaymentDeclaration) → find_row k decls ≡ some old → is_pending old ≡ true)
    → AllBacked decls l
    → AllBacked (put_row k new decls) l
AllBacked-put decls k new [] open_still h = tt
AllBacked-put decls k new (a ∷ l) open_still h =
    (kept h.0, AllBacked-put decls k new l open_still h.1)
  where
    other : Backed decls a → k ≢ a.declaration_id
    other b same =
        let pending =
          open_still b.declaration
            (subst (λ (i : ℕ). find_row i decls ≡ some b.declaration) (sym same) b.found) in
        both b.declaration pending b.validated
      where
        both :
            (d : PaymentDeclaration)
            → is_pending d ≡ true
            → (d.status is PaymentStatus.validated) ≡ true
            → ⊥
        both d p v = ground arith

    kept : Backed decls a → Backed (put_row k new decls) a
    kept b = record {
      declaration = b.declaration;
      found = find_row-put_row_other k a.declaration_id new decls (other b) ∙ b.found;
      validated = b.validated;
      target = b.target;
      amount = b.amount;
    }
