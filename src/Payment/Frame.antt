-- ===== src/Payment/Frame.antt =====
-- The actions that leave the payment tables alone, the handlers of contracts among them.
use debt_collector.Common.{ℕ, Option, none, some, List, String, arith}
use debt_collector.Model.{
  Db, User, UserRole, Terms, DebtContract, DebtContractVersion, DebtContractAudit, DebtEvent,
  NotificationType, Published, AdjustmentStatus, ContractAdjustment, PaymentDeclaration,
  PaymentCategory, modify, fresh_id,
}
use debt_collector.Model.Keeps.{
  Keeps, Keeps-bind, Keeps-gets, keep_rules, Keeps-modify, Keeps-fresh_id, Keeps-pure, Keeps-raise,
}
use debt_collector.Session.{
  resolve_goddess_id, resolve_goddess_user_id, notify, notify_known, publish_event,
  get_contract_or_404, save_contract, create_version, append_audit, list_versions,
}
use debt_collector.Ledger.{apply_event_and_recompute, recompute_balance}
use debt_collector.Debt.Propose.{
  contract_out, assert_sub_belongs_to_goddess, propose_as_goddess, propose_as_sub,
}
use debt_collector.Debt.Counter.{
  counter_target_as, counter_party_of, counter_propose, accept_counter, reject_counter,
}
use debt_collector.Debt.Sign.{publish_state, sign_as_sub, close_as_goddess}
use debt_collector.Debt.Clauses.{ContractClauseIn, normalize_clauses, ids_used, update_clauses}
use debt_collector.Debt.Adjust.{
  surprise_penalty, get_by_slug, require_her_contract, surprise_penalty_by_slug, save_adjustment,
  emit_adjustment_event, announce, create_adjustment, pending_adjustment, accept_adjustment,
  refuse_adjustment,
}
use debt_collector.Payment.Rules.{
  check_category_for_sub, check_rolling_active, get_method_for_goddess, to_out,
  get_declaration_or_404,
}
use debt_collector.Payment.Effects.{
  load_active_contract_for_sub, promote_sub, mark_paid, apply_debt_payment, apply_buyout,
  apply_category,
}
use debt_collector.Payment.Invariant.{PaymentsOk, DeclarationsForward}
use debt_collector.Payment.Writes.{PaymentsOk-fresh}
use debt_collector.Consistency.Signature.{ids_used-bound}

-- The payment tables satisfy their invariant, and no declaration has gone back since `db0`.
abbrev pub Settled : Db → Db → Type 0
Settled db0 d =
    PaymentsOk d.declarations d.allocations d.next_id
    × DeclarationsForward db0.declarations d.declarations

module _ (db0 : Db) where
  pub goddess-Keeps : (u : ℕ) → Keeps (Settled db0) (resolve_goddess_id u)
  unfolding resolve_goddess_id
  goddess-Keeps u = search (keep_rules)

  pub goddess_user-Keeps : (g : ℕ) → Keeps (Settled db0) (resolve_goddess_user_id g)
  unfolding resolve_goddess_user_id
  goddess_user-Keeps g = search (keep_rules)

  pub notify-Keeps : (u : ℕ) (t : NotificationType) (i : ℕ) → Keeps (Settled db0) (notify u t i)
  unfolding notify
  notify-Keeps u t i = search (keep_rules, Keeps-modify)

  pub publish-Keeps : (e : Published) → Keeps (Settled db0) (publish_event e)
  unfolding publish_event
  publish-Keeps e = search (keep_rules, Keeps-modify)

  pub get_contract-Keeps : (i : ℕ) → Keeps (Settled db0) (get_contract_or_404 i)
  unfolding get_contract_or_404
  get_contract-Keeps i = search (keep_rules)

  pub save_contract-Keeps : (c : DebtContract) → Keeps (Settled db0) (save_contract c)
  unfolding save_contract
  save_contract-Keeps c = search (keep_rules, Keeps-modify)

  pub create_version-Keeps : (v : DebtContractVersion) → Keeps (Settled db0) (create_version v)
  unfolding create_version
  create_version-Keeps v = search (keep_rules, Keeps-modify)

  pub append_audit-Keeps : (a : DebtContractAudit) → Keeps (Settled db0) (append_audit a)
  unfolding append_audit
  append_audit-Keeps a = search (keep_rules, Keeps-modify)

  pub list_versions-Keeps : (i : ℕ) → Keeps (Settled db0) (list_versions i)
  unfolding list_versions
  list_versions-Keeps i = search (keep_rules)

  pub contract_out-Keeps :
      (c : DebtContract) (v : Option DebtContractVersion) → Keeps (Settled db0) (contract_out c v)
  unfolding contract_out
  contract_out-Keeps c v = search (keep_rules)

  pub assert_sub-Keeps : (g : ℕ) (s : ℕ) → Keeps (Settled db0) (assert_sub_belongs_to_goddess g s)
  unfolding assert_sub_belongs_to_goddess
  assert_sub-Keeps g s = search (keep_rules)

  pub save_adjustment-Keeps : (a : ContractAdjustment) → Keeps (Settled db0) (save_adjustment a)
  unfolding save_adjustment
  save_adjustment-Keeps a = search (keep_rules, Keeps-modify)

  load_contract-Keeps :
      (s : ℕ) (t : Option ℕ) → Keeps (Settled db0) (load_active_contract_for_sub s t)
  unfolding load_active_contract_for_sub
  load_contract-Keeps s t = search (keep_rules)

  promote_sub-Keeps : (u : User) → Keeps (Settled db0) (promote_sub u)
  unfolding promote_sub
  promote_sub-Keeps u = search (keep_rules, Keeps-modify)

  mark_paid-Keeps : (s : ℕ) (t : ℕ) → Keeps (Settled db0) (mark_paid s t)
  unfolding mark_paid
  mark_paid-Keeps s t = search (keep_rules, Keeps-modify)

  pub check_category-Keeps :
      (u : User) (c : PaymentCategory) → Keeps (Settled db0) (check_category_for_sub u c)
  unfolding check_category_for_sub
  check_category-Keeps u c = search (keep_rules)

  pub check_rolling-Keeps :
      (c : PaymentCategory) (s : ℕ) → Keeps (Settled db0) (check_rolling_active c s)
  unfolding check_rolling_active
  check_rolling-Keeps c s = search (keep_rules)

  pub get_method-Keeps : (g : ℕ) (i : ℕ) → Keeps (Settled db0) (get_method_for_goddess g i)
  unfolding get_method_for_goddess
  get_method-Keeps g i = search (keep_rules)

  get_declaration-Keeps : (i : ℕ) → Keeps (Settled db0) (get_declaration_or_404 i)
  unfolding get_declaration_or_404
  get_declaration-Keeps i = search (keep_rules)

  pub to_out-Keeps : (d : PaymentDeclaration) → Keeps (Settled db0) (to_out d)
  unfolding to_out
  to_out-Keeps d = search (keep_rules)

  pub fresh_id-Keeps : Keeps (Settled db0) fresh_id
  fresh_id-Keeps = Keeps-fresh_id λ db e. (PaymentsOk-fresh e.0 _ (omega arith), e.1)

  pub notify_known-Keeps :
      (o : Option ℕ) (t : NotificationType) (i : ℕ) → Keeps (Settled db0) (notify_known o t i)
  unfolding notify_known
  notify_known-Keeps none t i = Keeps-pure tt
  notify_known-Keeps (some u) t i = notify-Keeps u t i

  pub publish_state-Keeps : (o : Option ℕ) (s i : ℕ) → Keeps (Settled db0) (publish_state o s i)
  unfolding publish_state
  publish_state-Keeps none s i = publish-Keeps _
  publish_state-Keeps (some u) s i = search (keep_rules, publish-Keeps)

  pub recompute-Keeps : (i : ℕ) → Keeps (Settled db0) (recompute_balance i)
  unfolding recompute_balance
  recompute-Keeps i = search (keep_rules)

  pub event-Keeps : (e : DebtEvent) → Keeps (Settled db0) (apply_event_and_recompute e)
  unfolding apply_event_and_recompute
  event-Keeps e = search (keep_rules, Keeps-modify, recompute-Keeps) depth 20

  pub emit_event-Keeps : (i n : ℕ) → Keeps (Settled db0) (emit_adjustment_event i n)
  unfolding emit_adjustment_event
  emit_event-Keeps i n = search (keep_rules, event-Keeps)

  pub announce-Keeps :
      (c : DebtContract) (n : ℕ) (s : AdjustmentStatus) → Keeps (Settled db0) (announce c n s)
  unfolding announce
  announce-Keeps c n AdjustmentStatus.applied = emit_event-Keeps _ _
  announce-Keeps c n AdjustmentStatus.pending_sub_approval = notify-Keeps _ _ _
  announce-Keeps c n AdjustmentStatus.accepted = notify-Keeps _ _ _
  announce-Keeps c n AdjustmentStatus.refused = notify-Keeps _ _ _

  pub pending_adjustment-Keeps : (u : User) (i : ℕ) → Keeps (Settled db0) (pending_adjustment u i)
  unfolding pending_adjustment
  pending_adjustment-Keeps u i = search (keep_rules, get_contract-Keeps) depth 20

  pub counter_target-Keeps :
      (r : UserRole) (u : User) (c : DebtContract) → Keeps (Settled db0) (counter_target_as r u c)
  unfolding counter_target_as
  counter_target-Keeps UserRole.sub u c = search (keep_rules)
  counter_target-Keeps UserRole.goddess u c = search (keep_rules, goddess-Keeps)
  counter_target-Keeps UserRole.admin u c = Keeps-raise _

  pub counter_party-Keeps :
      (r : UserRole) (c : DebtContract) → Keeps (Settled db0) (counter_party_of r c)
  unfolding counter_party_of
  counter_party-Keeps UserRole.sub c = goddess_user-Keeps _
  counter_party-Keeps UserRole.goddess c = Keeps-pure _
  counter_party-Keeps UserRole.admin c = Keeps-pure _

  pub clauses-Keeps : (cs : List ContractClauseIn) → Keeps (Settled db0) (normalize_clauses cs)
  unfolding normalize_clauses
  clauses-Keeps cs = Keeps-bind _ _ (Keeps-gets _) λ next. Keeps-bind _ _ taken λ done. Keeps-pure _
    where
      taken : Keeps (Settled db0) (modify (λ db. record db { next_id = ids_used db.next_id cs }))
      taken = Keeps-modify _ λ db e. (PaymentsOk-fresh e.0 _ (ids_used-bound db.next_id cs), e.1)

  debt_payment-Keeps :
      (d : PaymentDeclaration) (s : ℕ) → Keeps (Settled db0) (apply_debt_payment d s)
  unfolding apply_debt_payment
  debt_payment-Keeps d s = search (keep_rules, load_contract-Keeps, event-Keeps) depth 20

  buyout-Keeps :
      (d : PaymentDeclaration) (s a now : ℕ) → Keeps (Settled db0) (apply_buyout d s a now)
  unfolding apply_buyout
  buyout-Keeps d s a now =
      search
        (
          keep_rules, load_contract-Keeps, event-Keeps, save_contract-Keeps, append_audit-Keeps,
          goddess_user-Keeps, notify_known-Keeps, publish_state-Keeps,
        )
        depth 20

  pub category-Keeps :
      (d : PaymentDeclaration) (c : PaymentCategory) (u : User) (a now : ℕ)
      → Keeps (Settled db0) (apply_category d c u a now)
  unfolding apply_category
  category-Keeps d c u a now =
      search (keep_rules, promote_sub-Keeps, mark_paid-Keeps, debt_payment-Keeps, buyout-Keeps)
        depth 20

  pub ruleset handler_rules = (
    keep_rules, goddess-Keeps, goddess_user-Keeps, notify-Keeps, publish-Keeps, get_contract-Keeps,
    save_contract-Keeps, create_version-Keeps, append_audit-Keeps, list_versions-Keeps,
    contract_out-Keeps, assert_sub-Keeps, save_adjustment-Keeps, fresh_id-Keeps, notify_known-Keeps,
    publish_state-Keeps, event-Keeps, announce-Keeps, pending_adjustment-Keeps,
    counter_target-Keeps, counter_party-Keeps, clauses-Keeps, emit_event-Keeps,
  )

  pub propose_as_goddess-Keeps :
      (u : User) (s : ℕ) (t : Terms) → Keeps (Settled db0) (propose_as_goddess u s t)
  unfolding propose_as_goddess
  propose_as_goddess-Keeps u s t = search (handler_rules) depth 25

  pub propose_as_sub-Keeps : (u : User) (t : Terms) → Keeps (Settled db0) (propose_as_sub u t)
  unfolding propose_as_sub
  propose_as_sub-Keeps u t = search (handler_rules) depth 25

  pub counter_propose-Keeps :
      (u : User) (i : ℕ) (t : Terms) → Keeps (Settled db0) (counter_propose u i t)
  unfolding counter_propose
  counter_propose-Keeps u i t = search (handler_rules) depth 25

  pub accept_counter-Keeps : (u : User) (i : ℕ) → Keeps (Settled db0) (accept_counter u i)
  unfolding accept_counter
  accept_counter-Keeps u i = search (handler_rules) depth 25

  pub reject_counter-Keeps : (u : User) (i : ℕ) → Keeps (Settled db0) (reject_counter u i)
  unfolding reject_counter
  reject_counter-Keeps u i = search (handler_rules) depth 25

  pub sign_as_sub-Keeps : (u : User) (i : ℕ) (s : String) → Keeps (Settled db0) (sign_as_sub u i s)
  unfolding sign_as_sub
  sign_as_sub-Keeps u i s = search (handler_rules) depth 25

  pub close_as_goddess-Keeps : (u : User) (i : ℕ) → Keeps (Settled db0) (close_as_goddess u i)
  unfolding close_as_goddess
  close_as_goddess-Keeps u i = search (handler_rules) depth 25

  pub update_clauses-Keeps :
      (u : User) (i : ℕ) (cs : List ContractClauseIn) → Keeps (Settled db0) (update_clauses u i cs)
  unfolding update_clauses
  update_clauses-Keeps u i cs = search (handler_rules) depth 25

  her_contract-Keeps :
      (slug_of : ℕ → String) (u : User) (slug : String)
      → Keeps (Settled db0) (require_her_contract slug_of u slug)
  unfolding require_her_contract get_by_slug
  her_contract-Keeps slug_of u slug = search (handler_rules) depth 20

  pub surprise_penalty_by_slug-Keeps :
      (slug_of : ℕ → String) (u : User) (slug : String) (n : ℕ) (reason : String) (at : ℕ)
      → Keeps (Settled db0) (surprise_penalty_by_slug slug_of u slug n reason at)
  unfolding surprise_penalty_by_slug
  surprise_penalty_by_slug-Keeps slug_of u slug n reason at =
      search (handler_rules, her_contract-Keeps, fresh_id-Keeps, save_adjustment-Keeps) depth 30

  pub surprise_penalty-Keeps :
      (u : User) (i : ℕ) (n : ℕ) → Keeps (Settled db0) (surprise_penalty u i n)
  unfolding surprise_penalty
  surprise_penalty-Keeps u i n = search (handler_rules) depth 25

  pub create_adjustment-Keeps :
      (u : User) (i : ℕ) (n : ℕ) (r : Option String)
      → Keeps (Settled db0) (create_adjustment u i n r)
  unfolding create_adjustment
  create_adjustment-Keeps u i n r = search (handler_rules) depth 25

  pub accept_adjustment-Keeps : (u : User) (i : ℕ) → Keeps (Settled db0) (accept_adjustment u i)
  unfolding accept_adjustment
  accept_adjustment-Keeps u i = search (handler_rules) depth 25

  pub refuse_adjustment-Keeps : (u : User) (i : ℕ) → Keeps (Settled db0) (refuse_adjustment u i)
  unfolding refuse_adjustment
  refuse_adjustment-Keeps u i = search (handler_rules) depth 25
