-- ===== src/Auth.antt =====
-- server/controllers/auth_controller.py with daos/token_dao.py: sessions and the reset of a password. The
-- hashes, the secrets and the settings are parameters; a JSON web token is what it says.
pub mod Invite
pub mod Once
pub mod Reset
pub mod Lockout
use text.Mathlib.Text as Text
use debt_collector.Common.{
  ℕ, ◌+◌, Bool, true, false, not, ◌&&◌, ◌||◌, Option, none, some, List, [], ◌∷◌, ◌++◌, String, ◌==◌,
  ◌is◌, ltb, is_none, if◌then◌else◌,
}
use debt_collector.Common.Table.{find_row, put_row, rows}
use debt_collector.Common.Lists.{select, any_of}
use debt_collector.Model.{
  User, UserRole, UserStatus, user_status_enum, RefreshToken, Credential, PasswordResetToken, Db,
  Action, Done, AppError, or_raise, one_or_none, raise_if, gets, modify, pure, when, fresh_id,
  now_utc, ◌>>=◌, ◌>>◌,
}
use debt_collector.Blacklist.{revoke_all_refresh_for_user}

-- server/core/security.py and core/config.py. `verify` is `verify_password_with_rehash`: nothing for a
-- wrong password, and a new hash where the old one is to be replaced; `raw_token` is a secret of the
-- supply. The times to live are in seconds.
pub record Security : Type 0 where
  pub hash_token : String → ℕ
  pub hash_password : String → ℕ
  pub verify : String → ℕ → Option (Option ℕ)
  pub raw_token : ℕ → String
  pub refresh_ttl : ℕ
  pub reset_ttl : ℕ
  pub access_ttl : ℕ

-- The claims of the access token, and the refresh token.
pub record TokenPair : Type 0 where
  pub user_id : ℕ
  pub role : UserRole
  pub refresh_token : String
  pub expires_in : ℕ

abbrev pub same_text : String → String → Bool
same_text a b = Text.◌==◌ a b

-- `get_by_email`
unfoldable pub get_by_email : String → Action (Option Credential)
get_by_email email = do
  found ← gets (λ db. select (λ c. same_text c.email email) (rows db.credentials))
  one_or_none found

abbrev pub account_of : Option Credential → Db → Option (User × Credential)
account_of none db = none
account_of (some c) db = elim (find_row c.user_id db.users) [ none ↦ none | some u ↦ some (u, c) ]

unfoldable pub save_credential : Credential → Action Done
save_credential c = modify (λ db. record db { credentials = put_row c.user_id c db.credentials })

abbrev pub has_hash : ℕ → RefreshToken → Bool
has_hash hash t = t.token_hash == hash

-- `get_refresh_by_hash`
unfoldable pub get_refresh_by_hash : ℕ → Action (Option RefreshToken)
get_refresh_by_hash hash = do
  found ← gets (λ db. select (has_hash hash) db.refresh_tokens)
  one_or_none found

-- `revoke`, of the row with a hash, which is unique.
abbrev pub revoked_at : ℕ → ℕ → List RefreshToken → List RefreshToken
revoked_at hash now [] = []
revoked_at hash now (t ∷ ts) =
    (if has_hash hash t then record t { revoked_at = some now } else t) ∷ revoked_at hash now ts

unfoldable pub revoke : ℕ → Action Done
revoke hash =
    modify (λ db. record db { refresh_tokens = revoked_at hash db.clock db.refresh_tokens })

module _ (security : Security) where
  abbrev pub new_refresh : ℕ → String → ℕ → RefreshToken
  new_refresh user_id raw now = record {
    user_id = user_id;
    token_hash = security.hash_token raw;
    expires_at = now + security.refresh_ttl;
    revoked_at = none;
  }

  -- `create_refresh_token`; the hash is unique.
  unfoldable pub create_refresh_token : ℕ → String → Action Done
  create_refresh_token user_id raw = do
    taken ← gets (λ db. any_of (has_hash (security.hash_token raw)) db.refresh_tokens)
    raise_if taken AppError.integrity_error
    modify (λ db. record db {
      refresh_tokens = db.refresh_tokens ++ new_refresh user_id raw db.clock ∷ [];
    })

  -- A new pair of tokens, with which `login`, `refresh` and a signup end.
  unfoldable pub issue : ℕ → UserRole → Action TokenPair
  issue user_id role = do
    secret ← fresh_id
    create_refresh_token user_id (security.raw_token secret)
    pure (record {
      user_id = user_id;
      role = role;
      refresh_token = security.raw_token secret;
      expires_in = security.access_ttl;
    })

  unfoldable pub rehash : Option ℕ → Credential → Action Done
  rehash none credential = pure tt
  rehash (some hash) credential = save_credential (record credential { password_hash = hash })

  abbrev pub hashed : Option ℕ → Credential → Credential
  hashed none credential = credential
  hashed (some hash) credential = record credential { password_hash = hash }

  unfoldable pub login : String → String → Action TokenPair
  login email password = do
    credential ← get_by_email email
    found ← gets (account_of credential)
    account ← or_raise found AppError.unauthorized
    verified ← or_raise (security.verify password (account.1).password_hash) AppError.unauthorized
    raise_if
        (((account.0).status is UserStatus.blacklisted)
          || ((account.0).status is UserStatus.deleted))
        AppError.forbidden
    rehash verified account.1
    pair ← issue (account.0).id (account.0).role
    now ← now_utc
    save_credential (record (hashed verified account.1) { last_login_at = some now })
    pure pair

  -- The token that is given, where it is neither revoked nor expired.
  unfoldable pub usable_refresh : String → Action RefreshToken
  usable_refresh raw = do
    found ← get_refresh_by_hash (security.hash_token raw)
    token ← or_raise found AppError.unauthorized
    raise_if (not (is_none token.revoked_at)) AppError.unauthorized
    now ← now_utc
    raise_if (ltb token.expires_at now) AppError.unauthorized
    pure token

  unfoldable pub refresh : String → Action TokenPair
  refresh raw = do
    token ← usable_refresh raw
    found ← gets (λ db. find_row token.user_id db.users)
    user ← or_raise found AppError.unauthorized
    revoke (security.hash_token raw)
    issue user.id user.role

  abbrev pub is_live : Option RefreshToken → Bool
  is_live none = false
  is_live (some t) = is_none t.revoked_at

  unfoldable pub logout : String → Action Done
  logout raw = do
    found ← get_refresh_by_hash (security.hash_token raw)
    when (is_live found) (revoke (security.hash_token raw))

  abbrev pub new_reset : ℕ → String → ℕ → PasswordResetToken
  new_reset user_id raw now = record {
    user_id = user_id;
    token_hash = security.hash_token raw;
    expires_at = now + security.reset_ttl;
    used_at = none;
  }

  -- `create_reset_token`; the hash is unique.
  unfoldable pub create_reset_token : ℕ → String → Action Done
  create_reset_token user_id raw = do
    taken ← gets (λ db. any_of (λ t. t.token_hash == security.hash_token raw) db.reset_tokens)
    raise_if taken AppError.integrity_error
    modify
        (λ db. record db { reset_tokens = db.reset_tokens ++ new_reset user_id raw db.clock ∷ [] })

  unfoldable pub reset_for : Option (User × Credential) → Action Done
  reset_for none = pure tt
  reset_for (some account) = do
    secret ← fresh_id
    create_reset_token (account.0).id (security.raw_token secret)

  -- `request_password_reset`, but for the mail.
  unfoldable pub request_password_reset : String → Action Done
  request_password_reset email = do
    credential ← get_by_email email
    account ← gets (account_of credential)
    reset_for account

  abbrev pub has_reset_hash : ℕ → PasswordResetToken → Bool
  has_reset_hash hash t = t.token_hash == hash

  abbrev pub used_at : ℕ → ℕ → List PasswordResetToken → List PasswordResetToken
  used_at hash now [] = []
  used_at hash now (t ∷ ts) =
      (if has_reset_hash hash t then record t { used_at = some now } else t) ∷ used_at hash now ts

  -- `consume_reset_token`, and what its caller makes of no token.
  unfoldable pub consume_reset_token : String → Action PasswordResetToken
  consume_reset_token raw = do
    rows_found ← gets (λ db. select (has_reset_hash (security.hash_token raw)) db.reset_tokens)
    found ← one_or_none rows_found
    token ← or_raise found AppError.bad_request
    now ← now_utc
    raise_if (not (is_none token.used_at) || ltb token.expires_at now) AppError.bad_request
    modify
        (λ db. record db { reset_tokens = used_at (security.hash_token raw) now db.reset_tokens })
    pure token

  unfoldable pub confirm_password_reset : String → String → Action Done
  confirm_password_reset raw new_password = do
    token ← consume_reset_token raw
    found ← gets (λ db. find_row token.user_id db.credentials)
    credential ← or_raise found AppError.bad_request
    save_credential (record credential { password_hash = security.hash_password new_password })
    revoke_all_refresh_for_user token.user_id
