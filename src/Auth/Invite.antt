-- ===== src/Auth/Invite.antt =====
-- server/controllers/invitation_controller.py with daos/invitation_dao.py: a goddess invites a sub, who
-- signs up. The mail of `resend`, the page of `preview` and the personal data of a signup are left out.
pub mod Once
use debt_collector.Common.{
  ℕ, ◌+◌, ◌*◌, Bool, true, false, not, Option, none, some, List, [], ◌∷◌, String, ◌==◌, ◌is◌, ltb,
  leb, is_none, if◌then◌else◌,
}
use debt_collector.Common.Table.{find_row, put_row, rows}
use debt_collector.Common.Lists.{select, first_of?, any_of}
use debt_collector.Model.{
  User, UserRole, UserStatus, user_status_enum, Credential, Invitation, SubProfile, OwnershipStatus,
  Db, Action, Done, AppError, or_raise, one_or_none, raise_if, gets, modify, pure, fresh_id,
  now_utc, ◌>>=◌, ◌>>◌,
}
use debt_collector.Session.{resolve_goddess_id}
use debt_collector.Blacklist.{save_user}
use debt_collector.Auth.{Security, TokenPair, same_text, get_by_email, save_credential, issue}

pub data InvitationStatus : Type 0 where
  active pending_entry_tribute_paid consumed expired : InvitationStatus

-- `_derive_status`
abbrev pub derive_status : Invitation → Option UserStatus → ℕ → InvitationStatus
derive_status invitation linked now =
    if is_none invitation.used_at
    then (if ltb now invitation.expires_at
        then InvitationStatus.active
        else InvitationStatus.expired)
    else elim linked [
      | none ↦ InvitationStatus.consumed
      | some s ↦
          if s is UserStatus.pending_entry_tribute
          then InvitationStatus.pending_entry_tribute_paid
          else InvitationStatus.consumed
    ]

unfoldable pub save_invitation : Invitation → Action Done
save_invitation i = modify (λ db. record db { invitations = put_row i.id i db.invitations })

pub record InvitationCreate : Type 0 where
  pub entry_tribute_amount : ℕ
  pub note : Option String
  pub expires_in_days : ℕ

pub record SignupRequest : Type 0 where
  pub username : String
  pub email : String
  pub password : String

-- `get_by_token`: the first row, with its goddess.
abbrev pub joined_with : Option Done → Invitation → Option Invitation
joined_with none i = none
joined_with (some g) i = some i

abbrev pub with_goddess : Option Invitation → Db → Option Invitation
with_goddess none db = none
with_goddess (some i) db = joined_with (find_row i.goddess_id db.goddesses) i

unfoldable pub get_by_token : String → Db → Option Invitation
get_by_token token db =
    with_goddess (first_of? (λ i. same_text i.token token) (rows db.invitations)) db

-- The tests of `get_public` and `consume`.
unfoldable pub open_invitation : String → Action Invitation
open_invitation token = do
  found ← gets (get_by_token token)
  invitation ← or_raise found AppError.not_found
  now ← now_utc
  raise_if (ltb invitation.expires_at now) AppError.conflict
  raise_if (not (is_none invitation.used_at)) AppError.conflict
  pure invitation

unfoldable pub get_public : String → Action Invitation
get_public token = do invitation ← open_invitation token; pure invitation

unfoldable pub get_by_username : String → Action (Option Credential)
get_by_username username = do
  found ← gets (λ db. select (λ c. same_text c.username username) (rows db.credentials))
  one_or_none found

unfoldable pub create_default_row : ℕ → Action Done
create_default_row user_id = do
  now ← now_utc
  modify λ db. record db {
    profiles =
        put_row user_id (record { ownership_status = OwnershipStatus.free; updated_at = now })
          db.profiles;
  }

module _ (security : Security) where
  unfoldable pub create : ℕ → InvitationCreate → Action Invitation
  create goddess_user_id payload = do
    goddess_id ← resolve_goddess_id goddess_user_id
    now ← now_utc
    secret ← fresh_id
    invitation_id ← fresh_id
    let invitation : Invitation = record {
      id = invitation_id;
      token = security.raw_token secret;
      goddess_id = goddess_id;
      entry_tribute_amount = payload.entry_tribute_amount;
      note = payload.note;
      expires_at = now + payload.expires_in_days * 86400;
      used_at = none;
      used_by_user_id = none;
      created_at = now;
    }
    save_invitation invitation
    pure invitation

  unfoldable pub consume : String → SignupRequest → Action TokenPair
  consume token signup = do
    invitation ← open_invitation token
    existing_email ← get_by_email signup.email
    raise_if (not (is_none existing_email)) AppError.conflict
    existing_username ← get_by_username signup.username
    raise_if (not (is_none existing_username)) AppError.conflict
    user_id ← fresh_id
    save_user (record {
      id = user_id;
      goddess_id = some invitation.goddess_id;
      role = UserRole.sub;
      status = UserStatus.pending_entry_tribute;
    })
    save_credential (record {
      user_id = user_id;
      username = signup.username;
      email = signup.email;
      password_hash = security.hash_password signup.password;
      last_login_at = none;
    })
    create_default_row user_id
    now ← now_utc
    save_invitation (record invitation { used_at = some now; used_by_user_id = some user_id })
    issue security user_id UserRole.sub
