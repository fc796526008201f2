-- ===== src/Payment/Writes.antt =====
-- Lemmas on the writes to the payment tables, for the predicates of Payment/Invariant.
use debt_collector.Common.{
  ==_iff, ℕ, ◌≤◌, ◌<◌, ◌≡◌, refl, sym, ap, ◌∙◌, Bool, true, false, some, List, [], ◌∷◌, ◌++◌, arith,
  ◌==◌, ◌is◌, inl, inr, Bool-cases, subst,
}
use debt_collector.Common.Table.{
  Table, find_row, put_row, put_row-cases, find_row-put_row_other, find_row-put_row_self,
}
use debt_collector.Common.Lists.{any_of, any_of-append}
use debt_collector.Model.{
  PaymentDeclaration, PaymentAllocation, AllocationTargetType, PaymentStatus, payment_status_enum,
}
use debt_collector.Session.Allocation.{is_for, allocation_row}
use debt_collector.Payment.Rules.{allocation_target}
use debt_collector.Payment.Invariant.{
  Backed, AllBacked, AllSingle, PaymentsOk, DeclarationsForward, is_pending, AllBacked-put,
}

AllBacked-append :
    (decls : Table PaymentDeclaration) (l : List PaymentAllocation) (a : PaymentAllocation)
    → AllBacked decls l
    → Backed decls a
    → AllBacked decls (l ++ a ∷ [])
AllBacked-append decls [] a h b = (b, tt)
AllBacked-append decls (x ∷ l) a h b = (h.0, AllBacked-append decls l a h.1 b)

AllSingle-append :
    (l : List PaymentAllocation) (a : PaymentAllocation)
    → AllSingle l
    → any_of (is_for a.declaration_id) l ≡ false
    → AllSingle (l ++ a ∷ [])
AllSingle-append [] a h b = (refl, tt)
AllSingle-append (x ∷ l) a h b = (
  any_of-append (is_for x.declaration_id) l (a ∷ []) ∙ ground arith,
  AllSingle-append l a h.1 (ground arith),
)

module _ {decls : Table PaymentDeclaration} {allocs : List PaymentAllocation} {n : ℕ}
    (inv : PaymentsOk decls allocs n) where
  pub PaymentsOk-fresh : (m : ℕ) → n ≤ m → PaymentsOk decls allocs m
  PaymentsOk-fresh m h = record {
    backed = inv.backed;
    single = inv.single;
    known = λ k decl at. let (same, below) = inv.known k decl at in (same, omega arith);
  }

  -- A declaration is written under a new id, or over one that is pending.
  pub PaymentsOk-write :
      (k : ℕ) (new : PaymentDeclaration)
      → k < n
      → new.id ≡ k
      → ((old : PaymentDeclaration) → find_row k decls ≡ some old → is_pending old ≡ true)
      → PaymentsOk (put_row k new decls) allocs n
  PaymentsOk-write k new below same open_still = record {
    backed = AllBacked-put decls k new allocs open_still inv.backed;
    single = inv.single;
    known = λ j decl at. elim (put_row-cases k j new decl decls at) [
      | inl (is_k, is_new) ↦
          (ap (λ (d : PaymentDeclaration). d.id) (sym is_new) ∙ (same ∙ is_k), omega arith)
      | inr (other, old) ↦ inv.known j decl old
    ];
  }

  -- A validated declaration is allocated, where it has no allocation yet.
  pub PaymentsOk-allocate :
      (decl : PaymentDeclaration) (target_type : AllocationTargetType)
      → find_row decl.id decls ≡ some decl
      → (decl.status is PaymentStatus.validated) ≡ true
      → allocation_target decl.category ≡ some target_type
      → any_of (is_for decl.id) allocs ≡ false
      → PaymentsOk decls (allocs ++ allocation_row decl target_type decl.target_id ∷ []) n
  PaymentsOk-allocate decl target_type found valid target free = record {
    backed = AllBacked-append decls allocs _ inv.backed (record {
      declaration = decl;
      found = found;
      validated = valid;
      target = target;
      amount = refl;
    });
    single = AllSingle-append allocs _ inv.single free;
    known = inv.known;
  }

pub DeclarationsForward-refl : (decls : Table PaymentDeclaration) → DeclarationsForward decls decls
DeclarationsForward-refl decls k decl found = (decl, (found, (refl, λ h. refl)))

pub DeclarationsForward-trans :
    (xs ys zs : Table PaymentDeclaration)
    → DeclarationsForward xs ys
    → DeclarationsForward ys zs
    → DeclarationsForward xs zs
DeclarationsForward-trans xs ys zs f g k x found =
    let (y, (at, (sub, final))) = f k x found in
    let (z, (here, (sub', final'))) = g k y at in
    (z, (here, (sub' ∙ sub, λ h. final' (ap is_pending (final h) ∙ h) ∙ final h)))

not_both : (b : Bool) → b ≡ true → b ≡ false → ⊥
not_both b h k = ground arith

-- A declaration that is pending, or is not there, is written.
pub DeclarationsForward-put :
    (decls : Table PaymentDeclaration) (k : ℕ) (new : PaymentDeclaration)
    → ((old : PaymentDeclaration)
        → find_row k decls ≡ some old
        → (is_pending old ≡ true) × (new.sub_id ≡ old.sub_id))
    → DeclarationsForward decls (put_row k new decls)
DeclarationsForward-put decls k new open_still j decl found = elim (Bool-cases (k == j)) [
  | inl same ↦
      let (pending, sub) =
        open_still decl
          (subst (λ (i : ℕ). find_row i decls ≡ some decl) (sym ((==_iff k j).0 same)) found) in
      (
        new,
        (
          subst (λ (i : ℕ). find_row i (put_row k new decls) ≡ some new) ((==_iff k j).0 same)
              (find_row-put_row_self k new decls),
          (sub, λ h. absurd (not_both (is_pending decl) pending h)),
        ),
      )
  | inr apart ↦
      (decl, (find_row-put_row_other k j new decls (λ e. ground arith) ∙ found, (refl, λ h. refl)))
]
