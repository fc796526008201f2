-- ===== src/Tests/Auth.antt =====
-- A sub with a session, a request for a new password, and an invitation.
use Prim.Native.String.{len}
use debt_collector.Common.{◌+◌, ◌≡◌, refl, false, none, some, [], ◌∷◌}
use debt_collector.Common.Lists.{select, any_of}
use debt_collector.Model.{
  Db, RefreshToken, PasswordResetToken, Credential, Invitation, AppError, err,
}
use debt_collector.Model.Leaves.{Leaves}
use debt_collector.Blacklist.{breach}
use debt_collector.Blacklist.Effect.{is_usable}
use debt_collector.Auth.{Security, has_reset_hash, refresh, confirm_password_reset}
use debt_collector.Auth.Once.{refresh-once}
use debt_collector.Auth.Reset.{reset-once}
use debt_collector.Auth.Lockout.{breach-refresh}
use debt_collector.Auth.Invite.{SignupRequest, consume}
use debt_collector.Auth.Invite.Once.{consume-once}
use debt_collector.Tests.{goddess_user, start_db}

abbrev security : Security
security = record {
  hash_token = λ raw. len raw;
  hash_password = λ password. len password;
  verify = λ password hash. some none;
  raw_token = λ n. "a new secret";
  refresh_ttl = 1000;
  reset_ttl = 100;
  access_ttl = 10;
}

abbrev session : RefreshToken
session = record { user_id = 2; token_hash = 6; expires_at = 1000; revoked_at = none }

abbrev a_reset : PasswordResetToken
a_reset = record { user_id = 2; token_hash = 5; expires_at = 100; used_at = none }

abbrev sub_credential : Credential
sub_credential = record {
  user_id = 2;
  username = "sub";
  email = "sub@example.org";
  password_hash = 8;
  last_login_at = none;
}

abbrev invitation : Invitation
invitation = record {
  id = 50;
  token = "token";
  goddess_id = 3;
  entry_tribute_amount = 5000;
  note = none;
  expires_at = 604800;
  used_at = none;
  used_by_user_id = none;
  created_at = 0;
}

abbrev auth_db : Db
auth_db = record start_db {
  refresh_tokens = session ∷ [];
  reset_tokens = a_reset ∷ [];
  credentials = (2, sub_credential) ∷ [];
  invitations = (50, invitation) ∷ [];
  next_id = 60;
}

abbrev new_sub : SignupRequest
new_sub = record { username = "new"; email = "new@example.org"; password = "password" }

refresh-once_example :
    Leaves
      (λ _ d.
        refresh security "secret" (record d { clock = d.clock + 5 }) ≡ err AppError.unauthorized)
      (refresh security "secret" auth_db)
refresh-once_example = refresh-once security "secret" 5 auth_db

reset-once_example :
    Leaves
      (λ _ d.
        (confirm_password_reset security "reset" "other" (record d { clock = d.clock + 5 })
          ≡ err AppError.bad_request)
        × ((t : PasswordResetToken) × ((select (has_reset_hash security 5) auth_db.reset_tokens
                ≡ t ∷ [])
              × (any_of (is_usable t.user_id) d.refresh_tokens ≡ false))))
      (confirm_password_reset security "reset" "password" auth_db)
reset-once_example = reset-once security "reset" "password" "other" 5 auth_db

breach-refresh_example :
    Leaves
      (λ _ d. refresh security "secret" d ≡ err AppError.unauthorized)
      (breach goddess_user 2 none auth_db)
breach-refresh_example =
    breach-refresh security "secret" session goddess_user 2 none auth_db refl refl

consume-once_example :
    Leaves
      (λ _ d. consume security "token" new_sub d ≡ err AppError.conflict)
      (consume security "token" new_sub auth_db)
consume-once_example = consume-once security "token" new_sub new_sub auth_db (refl, tt)
