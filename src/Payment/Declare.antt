-- ===== src/Payment/Declare.antt =====
-- server/controllers/payment/controller.py: `declare_as_sub`, `record_as_goddess`,
-- `edit_pending_as_sub` and `cancel_pending_as_sub`. The upload of the proof to the object store is
-- not modelled; its key is given by the declaration's id.
use debt_collector.Common.{ℕ, true, false, not, Option, none, some, ◌==◌, ◌==?◌, ◌is◌, String}
use debt_collector.Common.Table.{find_row, put_row}
use debt_collector.Model.{
  User, PaymentCategory, category_enum, PaymentStatus, payment_status_enum, DeclarationSource,
  PaymentDeclaration, NotificationType, Published, Action, Done, AppError, or_raise, raise_if, gets,
  modify, pure, fresh_id, now_utc, ◌>>=◌, ◌>>◌,
}
use debt_collector.Session.{resolve_goddess_id, resolve_goddess_user_id, notify, publish_event}
use debt_collector.Payment.Rules.{
  PaymentOut, to_out, check_category_for_sub, check_rolling_active, get_method_for_goddess,
  get_declaration_or_404,
}
use debt_collector.Payment.Effects.{emit_allocation, apply_category}

pub record DeclarePaymentIn : Type 0 where
  pub amount : ℕ
  pub method_id : ℕ
  pub category : PaymentCategory
  pub external_timestamp : Option ℕ
  pub note : Option String
  pub target_id : Option ℕ

unfoldable pub save_declaration : PaymentDeclaration → Action Done
save_declaration decl =
    modify (λ db. record db { declarations = put_row decl.id decl db.declarations })

-- `if goddess_user_id is not None: ...`
unfoldable pub announce_declaration : Option ℕ → ℕ → Action Done
announce_declaration none declaration_id = pure tt
announce_declaration (some goddess_user_id) declaration_id = do
  notify goddess_user_id NotificationType.payment_pending declaration_id
  publish_event (Published.payment_declared goddess_user_id declaration_id)

unfoldable pub declare_as_sub : User → DeclarePaymentIn → Action PaymentOut
declare_as_sub sub_user payload = do
  check_category_for_sub sub_user payload.category
  check_rolling_active payload.category sub_user.id
  goddess_id ← or_raise sub_user.goddess_id AppError.bad_request
  get_method_for_goddess goddess_id payload.method_id
  declaration_uuid ← fresh_id
  now ← now_utc
  let decl : PaymentDeclaration = record {
    id = declaration_uuid;
    sub_id = sub_user.id;
    goddess_id = goddess_id;
    method_id = payload.method_id;
    amount = payload.amount;
    external_timestamp = payload.external_timestamp;
    note = payload.note;
    category = payload.category;
    status = PaymentStatus.pending;
    target_id = payload.target_id;
    created_by = sub_user.id;
    declared_at = now;
    validated_at = none;
    validated_by = none;
    rejection_reason = none;
    source = DeclarationSource.sub_declared;
    proof_key = some declaration_uuid;
  }
  save_declaration decl
  goddess_user_id ← resolve_goddess_user_id goddess_id
  announce_declaration goddess_user_id declaration_uuid
  to_out decl

-- `sub is None or sub.goddess_id != goddess_id`
abbrev pub linked_sub : ℕ → Option User → Option User
linked_sub goddess_id none = none
linked_sub goddess_id (some u) = elim (u.goddess_id ==? goddess_id) [ true ↦ some u | false ↦ none ]

unfoldable pub record_as_goddess : User → ℕ → DeclarePaymentIn → Action PaymentOut
record_as_goddess goddess_user sub_id payload = do
  goddess_id ← resolve_goddess_id goddess_user.id
  found ← gets (λ db. linked_sub goddess_id (find_row sub_id db.users))
  sub ← or_raise found AppError.not_found
  check_category_for_sub sub payload.category
  check_rolling_active payload.category sub.id
  get_method_for_goddess goddess_id payload.method_id
  now ← now_utc
  declaration_id ← fresh_id
  let decl : PaymentDeclaration = record {
    id = declaration_id;
    sub_id = sub.id;
    goddess_id = goddess_id;
    method_id = payload.method_id;
    amount = payload.amount;
    external_timestamp = payload.external_timestamp;
    note = payload.note;
    category = payload.category;
    status = PaymentStatus.validated;
    target_id = payload.target_id;
    created_by = goddess_user.id;
    declared_at = now;
    validated_at = some now;
    validated_by = some goddess_user.id;
    rejection_reason = none;
    source = DeclarationSource.goddess_recorded;
    proof_key = none;
  }
  save_declaration decl
  emit_allocation decl
  apply_category decl payload.category sub goddess_user.id now
  to_out decl

-- The fields that the request sets (`exclude_unset`). A column that is not nullable takes no null.
pub record EditDeclarationIn : Type 0 where
  pub amount : Option ℕ
  pub method_id : Option ℕ
  pub category : Option PaymentCategory
  pub external_timestamp : Option (Option ℕ)
  pub note : Option (Option String)
  pub target_id : Option (Option ℕ)

abbrev pub patched : {A : Type 0} → Option A → A → A
patched none old = old
patched (some new) old = new

abbrev pub apply_patch : EditDeclarationIn → PaymentDeclaration → PaymentDeclaration
apply_patch patch decl = record decl {
  amount = patched patch.amount decl.amount;
  method_id = patched patch.method_id decl.method_id;
  category = patched patch.category decl.category;
  external_timestamp = patched patch.external_timestamp decl.external_timestamp;
  note = patched patch.note decl.note;
  target_id = patched patch.target_id decl.target_id;
}

unfoldable pub check_patch_category : User → Option PaymentCategory → Action Done
check_patch_category sub_user none = pure tt
check_patch_category sub_user (some category) = do
  check_category_for_sub sub_user category
  check_rolling_active category sub_user.id

unfoldable pub check_patch_method : User → Option ℕ → Action Done
check_patch_method sub_user none = pure tt
check_patch_method sub_user (some method_id) = do
  goddess_id ← or_raise sub_user.goddess_id AppError.bad_request
  get_method_for_goddess goddess_id method_id

-- The guards that the sub's operations on a pending declaration begin with.
unfoldable pub own_pending : User → ℕ → Action PaymentDeclaration
own_pending sub_user declaration_id = do
  decl ← get_declaration_or_404 declaration_id
  raise_if (not (decl.sub_id == sub_user.id)) AppError.forbidden
  raise_if (not (decl.status is PaymentStatus.pending)) AppError.conflict
  pure decl

unfoldable pub edit_pending_as_sub : User → ℕ → EditDeclarationIn → Action PaymentOut
edit_pending_as_sub sub_user declaration_id patch = do
  decl ← own_pending sub_user declaration_id
  check_patch_category sub_user patch.category
  check_patch_method sub_user patch.method_id
  let saved = apply_patch patch decl
  save_declaration saved
  to_out saved

unfoldable pub cancel_pending_as_sub : User → ℕ → Action Done
cancel_pending_as_sub sub_user declaration_id = do
  decl ← own_pending sub_user declaration_id
  now ← now_utc
  save_declaration (record decl { status = PaymentStatus.cancelled; validated_at = some now })
