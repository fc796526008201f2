-- ===== src/Payment/Review.antt =====
-- server/controllers/payment/controller.py: `validate` and `reject`.
use debt_collector.Common.{ℕ, not, Option, some, ◌==◌, ◌is◌, String}
use debt_collector.Common.Table.{find_row}
use debt_collector.Model.{
  User, PaymentCategory, category_enum, PaymentStatus, payment_status_enum, PaymentDeclaration,
  NotificationType, Published, Action, AppError, or_raise, raise_if, gets, pure, now_utc, ◌>>=◌,
  ◌>>◌,
}
use debt_collector.Session.{resolve_goddess_id, notify, publish_event}
use debt_collector.Payment.Rules.{
  PaymentOut, to_out, check_category_for_sub, check_rolling_active, get_declaration_or_404,
}
use debt_collector.Payment.Effects.{emit_allocation, apply_category}
use debt_collector.Payment.Declare.{save_declaration, patched}

-- The guards that both reviews begin with.
unfoldable pub reviewed : User → ℕ → Action PaymentDeclaration
reviewed goddess_user declaration_id = do
  goddess_id ← resolve_goddess_id goddess_user.id
  decl ← get_declaration_or_404 declaration_id
  raise_if (not (decl.goddess_id == goddess_id)) AppError.forbidden
  raise_if (not (decl.status is PaymentStatus.pending)) AppError.conflict
  pure decl

-- `PaymentDeclarationDao.mark_validated`
abbrev pub marked_validated : PaymentDeclaration → ℕ → ℕ → PaymentCategory → PaymentDeclaration
marked_validated decl validated_by now category = record decl {
  status = PaymentStatus.validated;
  validated_by = some validated_by;
  validated_at = some now;
  category = category;
}

unfoldable pub validate : User → ℕ → Option PaymentCategory → Action PaymentOut
validate goddess_user declaration_id recategorize_to = do
  decl ← reviewed goddess_user declaration_id
  let category = patched recategorize_to decl.category
  found ← gets (λ db. find_row decl.sub_id db.users)
  sub ← or_raise found AppError.not_found
  check_category_for_sub sub category
  check_rolling_active category decl.sub_id
  now ← now_utc
  let saved = marked_validated decl goddess_user.id now category
  save_declaration saved
  emit_allocation saved
  apply_category saved category sub goddess_user.id now
  notify decl.sub_id NotificationType.payment_validated decl.id
  publish_event (Published.validation_resolved decl.sub_id decl.id)
  to_out saved

unfoldable pub reject : User → ℕ → String → Action PaymentOut
reject goddess_user declaration_id reason = do
  decl ← reviewed goddess_user declaration_id
  now ← now_utc
  let saved = record decl {
    validated_by = some goddess_user.id;
    status = PaymentStatus.rejected;
    rejection_reason = some reason;
    validated_at = some now;
  }
  save_declaration saved
  notify decl.sub_id NotificationType.payment_rejected decl.id
  publish_event (Published.validation_resolved decl.sub_id decl.id)
  to_out saved
