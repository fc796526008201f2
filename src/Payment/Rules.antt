-- ===== src/Payment/Rules.antt =====
-- server/controllers/payment/helpers.py, and the guards of controller.py: which category a sub may
-- pay in, and what a payment is allocated to.
use Prim.Native.Char.{code}
use Prim.Native.String.{String}
use debt_collector.Common.{
  ℕ, Bool, true, false, ◌&&◌, ◌||◌, not, Option, none, some, ◌==◌, ◌is◌, leb, if◌then◌else◌,
}
use debt_collector.Common.Table.{find_row}
use debt_collector.Common.Lists.{select}
use debt_collector.Model.{
  User, UserStatus, user_status_enum, PaymentCategory, category_enum, AllocationTargetType,
  PaymentDeclaration, PaymentAllocation, PaymentMethod, RollingTribute, Action, Done, AppError,
  or_raise, raise_if, gets, pure, one_or_none, ◌>>=◌,
}
use debt_collector.Session.Allocation.{is_for}

-- `CATEGORY_TO_ALLOCATION_TARGET.get`
abbrev pub allocation_target : PaymentCategory → Option AllocationTargetType
allocation_target PaymentCategory.entry = some AllocationTargetType.entry
allocation_target PaymentCategory.tribute = some AllocationTargetType.tribute
allocation_target PaymentCategory.rolling = some AllocationTargetType.rolling_cycle
allocation_target PaymentCategory.weekly_debt = some AllocationTargetType.contract_debt
allocation_target PaymentCategory.debt_payment = some AllocationTargetType.contract_debt
allocation_target PaymentCategory.buyout = some AllocationTargetType.contract_buyout
allocation_target PaymentCategory.profile_change_fee = none
allocation_target PaymentCategory.wishlist = none

-- `category in DEBT_PAYMENT_CATEGORIES`
abbrev pub is_debt_payment : PaymentCategory → Bool
is_debt_payment category =
    (category is PaymentCategory.weekly_debt) || (category is PaymentCategory.debt_payment)

-- `check_category_for_sub`. `UNSUPPORTED_CATEGORIES` is empty.
abbrev pub category_allowed : UserStatus → PaymentCategory → Bool
category_allowed status PaymentCategory.entry = status is UserStatus.pending_entry_tribute
category_allowed status PaymentCategory.tribute = not (status is UserStatus.pending_entry_tribute)
category_allowed status _ = true

unfoldable pub check_category_for_sub : User → PaymentCategory → Action Done
check_category_for_sub sub category =
    raise_if (not (category_allowed sub.status category)) AppError.bad_request

abbrev pub is_rolling_active : Option RollingTribute → Bool
is_rolling_active none = false
is_rolling_active (some r) = not (r.amount == 0) && not r.paused

-- `if category == rolling: await self._check_rolling_active(sub_id)`
unfoldable pub check_rolling_active : PaymentCategory → ℕ → Action Done
check_rolling_active category sub_id = do
  tribute ← gets (λ db. find_row sub_id db.rollings)
  raise_if ((category is PaymentCategory.rolling) && not (is_rolling_active tribute))
      AppError.bad_request

-- `PaymentMethodDao.get_by_id`, which asks for the goddess's own method.
abbrev pub owned_method : ℕ → Option PaymentMethod → Option PaymentMethod
owned_method goddess_id none = none
owned_method goddess_id (some m) = if m.goddess_id == goddess_id then some m else none

unfoldable pub get_method_for_goddess : ℕ → ℕ → Action Done
get_method_for_goddess goddess_id method_id = do
  found ← gets (λ db. owned_method goddess_id (find_row method_id db.methods))
  method ← or_raise found AppError.not_found
  raise_if (not method.enabled) AppError.bad_request

unfoldable pub get_declaration_or_404 : ℕ → Action PaymentDeclaration
get_declaration_or_404 declaration_id = do
  found ← gets (λ db. find_row declaration_id db.declarations)
  or_raise found AppError.not_found

-- `str.isspace` of one character.
abbrev is_space : ℕ → Bool
is_space c =
    (leb 9 c && leb c 13)
    || (leb 28 c && leb c 32)
    || c == 133
    || c == 160
    || c == 5760
    || (leb 8192 c && leb c 8202)
    || c == 8232
    || c == 8233
    || c == 8239
    || c == 8287
    || c == 12288

-- `not word.strip()`
unfoldable pub is_blank : String → Bool
is_blank String.[] = true
is_blank (String.◌∷◌ c s) = is_space (code c) && is_blank s

-- `to_out`: the declaration with its allocation.
pub record PaymentOut : Type 0 where
  pub declaration : PaymentDeclaration
  pub allocation : Option PaymentAllocation

unfoldable pub to_out : PaymentDeclaration → Action PaymentOut
to_out decl = do
  found ← gets (λ db. select (is_for decl.id) db.allocations)
  allocation ← one_or_none found
  pure (record { declaration = decl; allocation = allocation })
