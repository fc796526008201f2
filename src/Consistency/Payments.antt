-- ===== src/Consistency/Payments.antt =====
-- Lemmas on the handlers of payments, for the ledger invariant.
use debt_collector.Common.{arith, ℕ, none, some, Option, String}
use debt_collector.Model.{
  Result, Db, fresh_id, User, contract_status_enum, PaymentDeclaration, PaymentCategory,
  AllocationTargetType, NotificationType, Published,
}
use debt_collector.Session.Allocation.{create_allocation}
use debt_collector.Payment.Effects.{
  apply_debt_payment, apply_buyout, promote_sub, mark_paid, apply_category, emit_allocation_to,
}
use debt_collector.Model.Keeps.{Keeps, keep_rules, Keeps-modify, Keeps-pure, Keeps-fresh_id}
use debt_collector.Session.{resolve_goddess_id, resolve_goddess_user_id, notify, publish_event}
use debt_collector.Payment.Rules.{
  check_category_for_sub, check_rolling_active, get_method_for_goddess, to_out,
  get_declaration_or_404,
}
use debt_collector.Payment.Declare.{
  DeclarePaymentIn, EditDeclarationIn, save_declaration, announce_declaration, declare_as_sub,
  record_as_goddess, check_patch_category, check_patch_method, own_pending, edit_pending_as_sub,
  cancel_pending_as_sub,
}
use debt_collector.Payment.Review.{reviewed, validate, reject}
use debt_collector.Consistency.Writes.{LedgerOk-fresh}
use debt_collector.Consistency.Settlement.{apply_debt_payment-Evolves, apply_buyout-Evolves}
use debt_collector.Model.Leaves.{Leaves, Leaves-weaken}
use debt_collector.Consistency.Lifecycle.{Evolves, Forward, Forward-trans}

module _ (db0 : Db) where
  -- What a handler does from a later database on.
  carried :
      {A : Type 0} (db : Db) (r : Result (A × Db))
      → Forward db0.contracts db.contracts
      → Leaves (λ _. Evolves db) r
      → Leaves (λ _. Evolves db0) r
  carried db r f l =
      Leaves-weaken r l λ a d e. (e.0, Forward-trans db0.contracts db.contracts d.contracts f e.1)

  create_allocation-Keeps :
      (decl : PaymentDeclaration) (t : AllocationTargetType) (target_id : Option ℕ)
      → Keeps (Evolves db0) (create_allocation decl t target_id)
  unfolding create_allocation
  create_allocation-Keeps decl t target_id = search (keep_rules, Keeps-modify)

  emit_allocation-Keeps :
      (o : Option AllocationTargetType) (decl : PaymentDeclaration)
      → Keeps (Evolves db0) (emit_allocation_to o decl)
  unfolding emit_allocation_to
  emit_allocation-Keeps none decl = Keeps-pure tt
  emit_allocation-Keeps (some t) decl = create_allocation-Keeps decl t decl.target_id

  promote_sub-Keeps : (u : User) → Keeps (Evolves db0) (promote_sub u)
  unfolding promote_sub
  promote_sub-Keeps u = search (keep_rules, Keeps-modify)

  mark_paid-Keeps : (sub_id at : ℕ) → Keeps (Evolves db0) (mark_paid sub_id at)
  unfolding mark_paid
  mark_paid-Keeps sub_id at = search (keep_rules, Keeps-modify)

  apply_debt_payment-Keeps :
      (decl : PaymentDeclaration) (sub_id : ℕ)
      → Keeps (Evolves db0) (apply_debt_payment decl sub_id)
  apply_debt_payment-Keeps decl sub_id = record {
    keeps = λ db e. carried db _ e.1 (apply_debt_payment-Evolves decl sub_id db e.0);
  }

  apply_buyout-Keeps :
      (decl : PaymentDeclaration) (sub_id actor_id now : ℕ)
      → Keeps (Evolves db0) (apply_buyout decl sub_id actor_id now)
  apply_buyout-Keeps decl sub_id actor_id now = record {
    keeps = λ db e. carried db _ e.1 (apply_buyout-Evolves decl sub_id actor_id now db e.0);
  }

  apply_category-Keeps :
      (decl : PaymentDeclaration) (category : PaymentCategory) (u : User) (actor_id now : ℕ)
      → Keeps (Evolves db0) (apply_category decl category u actor_id now)
  unfolding apply_category
  apply_category-Keeps decl category u actor_id now =
      search (
        keep_rules, promote_sub-Keeps, mark_paid-Keeps, apply_debt_payment-Keeps,
        apply_buyout-Keeps,
      )

  check_category-Keeps :
      (u : User) (c : PaymentCategory) → Keeps (Evolves db0) (check_category_for_sub u c)
  unfolding check_category_for_sub
  check_category-Keeps u c = search (keep_rules)

  check_rolling-Keeps :
      (c : PaymentCategory) (sub_id : ℕ) → Keeps (Evolves db0) (check_rolling_active c sub_id)
  unfolding check_rolling_active
  check_rolling-Keeps c sub_id = search (keep_rules)

  get_method-Keeps : (g m : ℕ) → Keeps (Evolves db0) (get_method_for_goddess g m)
  unfolding get_method_for_goddess
  get_method-Keeps g m = search (keep_rules)

  to_out-Keeps : (decl : PaymentDeclaration) → Keeps (Evolves db0) (to_out decl)
  unfolding to_out
  to_out-Keeps decl = search (keep_rules)

  get_declaration-Keeps : (i : ℕ) → Keeps (Evolves db0) (get_declaration_or_404 i)
  unfolding get_declaration_or_404
  get_declaration-Keeps i = search (keep_rules)

  save_declaration-Keeps : (decl : PaymentDeclaration) → Keeps (Evolves db0) (save_declaration decl)
  unfolding save_declaration
  save_declaration-Keeps decl = search (keep_rules, Keeps-modify)

  goddess-Keeps : (u : ℕ) → Keeps (Evolves db0) (resolve_goddess_id u)
  unfolding resolve_goddess_id
  goddess-Keeps u = search (keep_rules)

  goddess_user-Keeps : (g : ℕ) → Keeps (Evolves db0) (resolve_goddess_user_id g)
  unfolding resolve_goddess_user_id
  goddess_user-Keeps g = search (keep_rules)

  notify-Keeps : (u : ℕ) (t : NotificationType) (i : ℕ) → Keeps (Evolves db0) (notify u t i)
  unfolding notify
  notify-Keeps u t i = search (keep_rules, Keeps-modify)

  publish-Keeps : (e : Published) → Keeps (Evolves db0) (publish_event e)
  unfolding publish_event
  publish-Keeps e = search (keep_rules, Keeps-modify)

  reviewed-Keeps : (u : User) (i : ℕ) → Keeps (Evolves db0) (reviewed u i)
  unfolding reviewed
  reviewed-Keeps u i = search (keep_rules, goddess-Keeps, get_declaration-Keeps)

  own_pending-Keeps : (u : User) (i : ℕ) → Keeps (Evolves db0) (own_pending u i)
  unfolding own_pending
  own_pending-Keeps u i = search (keep_rules, get_declaration-Keeps)

  check_patch_category-Keeps :
      (u : User) (c : Option PaymentCategory) → Keeps (Evolves db0) (check_patch_category u c)
  unfolding check_patch_category
  check_patch_category-Keeps u none = Keeps-pure tt
  check_patch_category-Keeps u (some c) =
      search (keep_rules, check_category-Keeps, check_rolling-Keeps)

  check_patch_method-Keeps :
      (u : User) (m : Option ℕ) → Keeps (Evolves db0) (check_patch_method u m)
  unfolding check_patch_method
  check_patch_method-Keeps u none = Keeps-pure tt
  check_patch_method-Keeps u (some m) = search (keep_rules, get_method-Keeps)

  announce_declaration-Keeps :
      (o : Option ℕ) (i : ℕ) → Keeps (Evolves db0) (announce_declaration o i)
  unfolding announce_declaration
  announce_declaration-Keeps none i = Keeps-pure tt
  announce_declaration-Keeps (some u) i = search (keep_rules, notify-Keeps, publish-Keeps)

  fresh_id-Keeps : Keeps (Evolves db0) fresh_id
  fresh_id-Keeps = Keeps-fresh_id λ db e. (LedgerOk-fresh e.0 _ (omega arith), e.1)

  ruleset payment_rules = (
    fresh_id-Keeps, keep_rules, check_category-Keeps, check_rolling-Keeps, get_method-Keeps,
    to_out-Keeps, save_declaration-Keeps, goddess-Keeps, goddess_user-Keeps, notify-Keeps,
    publish-Keeps, reviewed-Keeps, own_pending-Keeps, check_patch_category-Keeps,
    check_patch_method-Keeps, announce_declaration-Keeps, emit_allocation-Keeps,
    apply_category-Keeps,
  )

  -- A sub's declaration keeps the invariant.
  pub declare_as_sub-Keeps :
      (u : User) (payload : DeclarePaymentIn) → Keeps (Evolves db0) (declare_as_sub u payload)
  unfolding declare_as_sub
  declare_as_sub-Keeps u payload = search (payment_rules) depth 15

  -- A goddess's record of a payment keeps the invariant.
  pub record_as_goddess-Keeps :
      (u : User) (sub_id : ℕ) (payload : DeclarePaymentIn)
      → Keeps (Evolves db0) (record_as_goddess u sub_id payload)
  unfolding record_as_goddess
  record_as_goddess-Keeps u sub_id payload = search (payment_rules) depth 15

  -- An edit of a declaration keeps the invariant.
  pub edit_pending_as_sub-Keeps :
      (u : User) (i : ℕ) (patch : EditDeclarationIn)
      → Keeps (Evolves db0) (edit_pending_as_sub u i patch)
  unfolding edit_pending_as_sub
  edit_pending_as_sub-Keeps u i patch = search (payment_rules) depth 15

  -- A cancellation keeps the invariant.
  pub cancel_pending_as_sub-Keeps :
      (u : User) (i : ℕ) → Keeps (Evolves db0) (cancel_pending_as_sub u i)
  unfolding cancel_pending_as_sub
  cancel_pending_as_sub-Keeps u i = search (payment_rules) depth 15

  -- A validation keeps the invariant.
  pub validate-Keeps :
      (u : User) (i : ℕ) (category : Option PaymentCategory)
      → Keeps (Evolves db0) (validate u i category)
  unfolding validate
  validate-Keeps u i category = search (payment_rules) depth 15

  -- A rejection keeps the invariant.
  pub reject-Keeps : (u : User) (i : ℕ) (reason : String) → Keeps (Evolves db0) (reject u i reason)
  unfolding reject
  reject-Keeps u i reason = search (payment_rules) depth 15
