-- ===== src/Profile/Change.antt =====
-- server/controllers/profile_controller.py with daos/profile_change_request_dao.py: a sub asks for a change of
-- the profile, which the goddess approves, rejects, or approves for a fee. `on_fee_paid`, which nothing
-- calls, is left out.
pub mod Settled
use debt_collector.Common.{
  ℕ, Bool, true, false, not, ◌&&◌, ◌||◌, Option, none, some, String, ◌==◌, ◌is◌, is_none,
  if◌then◌else◌,
}
use debt_collector.Common.Table.{Table, find_row, put_row}
use debt_collector.Model.{
  User, ProfileChangeRequestStatus, change_status_enum, AvatarKey, ProfileChangeRequest, Identity,
  PaymentDeclaration, PaymentMethod, PaymentCategory, PaymentStatus, DeclarationSource, Db, Action,
  Done, AppError, or_raise, raise_if, gets, modify, pure, fresh_id, now_utc, ◌>>=◌, ◌>>◌,
}
use debt_collector.Session.{resolve_goddess_id}
use debt_collector.Debt.Propose.{is_linked}
use debt_collector.Payment.Rules.{owned_method}
use debt_collector.Payment.Declare.{save_declaration}
use text.Mathlib.Text as Text

pub record ProfileChangeRequestIn : Type 0 where
  pub proposed_first_name : Option String
  pub proposed_last_name : Option String
  pub proposed_display_name : Option String
  pub proposed_notes : Option String
  pub proposed_avatar_key : Option AvatarKey
  pub proposed_real_name : Option String

-- An empty text is as none.
abbrev pub is_given : Option String → Bool
is_given none = false
is_given (some text) = not (Text.◌==◌ text "")

abbrev pub is_any_given : ProfileChangeRequestIn → Bool
is_any_given payload =
    is_given payload.proposed_first_name
    || is_given payload.proposed_last_name
    || is_given payload.proposed_display_name
    || is_given payload.proposed_notes
    || not (is_none payload.proposed_avatar_key)
    || is_given payload.proposed_real_name

-- `create`, and the flush of a row that has been changed.
unfoldable pub save_request : ℕ → ProfileChangeRequest → Action ProfileChangeRequest
save_request request_id req = do
  modify (λ db. record db { change_requests = put_row request_id req db.change_requests })
  pure req

unfoldable pub request_change : User → ProfileChangeRequestIn → Action ProfileChangeRequest
request_change sub_user payload = do
  raise_if (not (is_any_given payload)) AppError.bad_request
  now ← now_utc
  id ← fresh_id
  save_request id (record {
    id = id;
    sub_id = sub_user.id;
    requested_at = now;
    status = ProfileChangeRequestStatus.pending;
    proposed_first_name = payload.proposed_first_name;
    proposed_last_name = payload.proposed_last_name;
    proposed_display_name = payload.proposed_display_name;
    proposed_notes = payload.proposed_notes;
    proposed_avatar_key = payload.proposed_avatar_key;
    proposed_real_name = payload.proposed_real_name;
    fee_amount = none;
    fee_payment_id = none;
    resolved_at = none;
    resolution_note = none;
  })

unfoldable pub get_request : ℕ → Action ProfileChangeRequest
get_request request_id = do
  found ← gets (λ db. find_row request_id db.change_requests)
  or_raise found AppError.not_found

-- The request with `_assert_goddess_owns_request`.
unfoldable pub require_her_request : User → ℕ → Action ProfileChangeRequest
require_her_request goddess_user request_id = do
  req ← get_request request_id
  goddess_id ← resolve_goddess_id goddess_user.id
  linked ← gets (is_linked goddess_id req.sub_id)
  raise_if (not linked) AppError.forbidden
  pure req

-- `_apply_diff`
abbrev pub preferred : {A : Type 0} → Option A → Option A → Option A
preferred none old = old
preferred (some new) old = some new

abbrev pub chosen : {A : Type 0} → Option A → A → A
chosen none old = old
chosen (some new) old = new

abbrev pub with_diff : ProfileChangeRequest → Identity → Identity
with_diff req identity = record {
  first_name = preferred req.proposed_first_name identity.first_name;
  last_name = preferred req.proposed_last_name identity.last_name;
  avatar_key = chosen req.proposed_avatar_key identity.avatar_key;
  real_name = preferred req.proposed_real_name identity.real_name;
}

abbrev pub diff_applied : ProfileChangeRequest → Option Identity → Table Identity → Table Identity
diff_applied req none identities = identities
diff_applied req (some identity) identities = put_row req.sub_id (with_diff req identity) identities

unfoldable pub apply_diff : ProfileChangeRequest → Action Done
apply_diff req = do
  found ← gets (λ db. find_row req.sub_id db.users)
  or_raise found AppError.not_found
  modify (λ db. record db {
    identities = diff_applied req (find_row req.sub_id db.identities) db.identities;
  })

unfoldable pub approve_free : ℕ → User → Action ProfileChangeRequest
approve_free request_id goddess_user = do
  req ← require_her_request goddess_user request_id
  raise_if (not (req.status is ProfileChangeRequestStatus.pending)) AppError.conflict
  apply_diff req
  now ← now_utc
  save_request request_id
      (record req { status = ProfileChangeRequestStatus.approved; resolved_at = some now })

unfoldable pub set_fee : ℕ → User → ℕ → Action ProfileChangeRequest
set_fee request_id goddess_user fee_amount = do
  req ← require_her_request goddess_user request_id
  raise_if (not (req.status is ProfileChangeRequestStatus.pending)) AppError.conflict
  save_request request_id (record req {
    fee_amount = some fee_amount;
    status = ProfileChangeRequestStatus.awaiting_fee_payment;
  })

abbrev pub fee_declaration : ℕ → User → ℕ → ℕ → ℕ → ℕ → PaymentDeclaration
fee_declaration id sub_user goddess_id method_id amount now = record {
  id = id;
  sub_id = sub_user.id;
  goddess_id = goddess_id;
  method_id = method_id;
  amount = amount;
  external_timestamp = none;
  note = none;
  category = PaymentCategory.profile_change_fee;
  status = PaymentStatus.pending;
  target_id = none;
  created_by = sub_user.id;
  declared_at = now;
  validated_at = none;
  validated_by = none;
  rejection_reason = none;
  source = DeclarationSource.sub_declared;
  proof_key = none;
}

-- `method is None or not method.enabled`
abbrev pub enabled_method : Option PaymentMethod → Option PaymentMethod
enabled_method none = none
enabled_method (some method) = if method.enabled then some method else none

unfoldable pub accept_fee : ℕ → User → ℕ → Action ProfileChangeRequest
accept_fee request_id sub_user method_id = do
  req ← get_request request_id
  raise_if (not (req.sub_id == sub_user.id)) AppError.forbidden
  raise_if (not (req.status is ProfileChangeRequestStatus.awaiting_fee_payment)) AppError.conflict
  amount ← or_raise req.fee_amount AppError.bad_request
  goddess_id ← or_raise sub_user.goddess_id AppError.bad_request
  found ← gets (λ db. enabled_method (owned_method goddess_id (find_row method_id db.methods)))
  or_raise found AppError.not_found
  now ← now_utc
  payment_id ← fresh_id
  save_declaration (fee_declaration payment_id sub_user goddess_id method_id amount now)
  save_request request_id (record req { fee_payment_id = some payment_id })

abbrev pub is_rejectable : ProfileChangeRequestStatus → Bool
is_rejectable s =
    (s is ProfileChangeRequestStatus.pending)
    || (s is ProfileChangeRequestStatus.awaiting_fee_payment)

unfoldable pub reject_change : ℕ → User → String → Action ProfileChangeRequest
reject_change request_id goddess_user reason = do
  req ← require_her_request goddess_user request_id
  raise_if (not (is_rejectable req.status)) AppError.conflict
  now ← now_utc
  save_request request_id (record req {
    status = ProfileChangeRequestStatus.rejected;
    resolution_note = some reason;
    resolved_at = some now;
  })
