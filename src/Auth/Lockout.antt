-- ===== src/Auth/Lockout.antt =====
-- server/controllers/blacklist_controller.py and auth_controller.py together: a sub who is breached has no
-- session left.
use debt_collector.Common.{
  ℕ, ◌≡◌, refl, ap, ◌∙◌, ◌&&◌, Option, none, some, List, [], ◌∷◌, String, ◌==◌, ==_refl, Bool-cases,
  inl, inr, if◌then◌else◌, is_none, map,
}
use debt_collector.Common.Lists.{select}
use debt_collector.Model.{Db, User, RefreshToken, AppError, err}
use debt_collector.Model.Leaves.{
  Leaves, Leaves-bind, Leaves-gets, Leaves-or_raise, Leaves-raise_if, Leaves-now_utc, Leaves-modify,
  Leaves-pure, Leaves-fresh_id,
}
use debt_collector.Model.Keeps.{Keeps, keep_rules, Keeps-modify, Keeps-pure, Keeps-bind}
use debt_collector.Model.{DebtContract, DebtContractAudit}
use debt_collector.Session.{get_contract_or_404, save_contract, append_audit}
use debt_collector.Session.Leaves.{Leaves-goddess, Leaves-notify}
use debt_collector.Blacklist.{
  breach_contract, breach_all, breach_active, save_user, revoke_tokens, revoke_all_refresh_for_user,
  save_entry, breach,
}
use debt_collector.Auth.{Security, has_hash, refresh}
use debt_collector.Auth.Once.{refused}

module _ (ts : List RefreshToken) where
  save_contract-Keeps : (c : DebtContract) → Keeps (λ d. d.refresh_tokens ≡ ts) (save_contract c)
  unfolding save_contract
  save_contract-Keeps c = search (keep_rules, Keeps-modify)

  append_audit-Keeps : (a : DebtContractAudit) → Keeps (λ d. d.refresh_tokens ≡ ts) (append_audit a)
  unfolding append_audit
  append_audit-Keeps a = search (keep_rules, Keeps-modify)

  get_contract-Keeps : (i : ℕ) → Keeps (λ d. d.refresh_tokens ≡ ts) (get_contract_or_404 i)
  unfolding get_contract_or_404
  get_contract-Keeps i = search (keep_rules)

  breach_contract-Keeps : (a i : ℕ) → Keeps (λ d. d.refresh_tokens ≡ ts) (breach_contract a i)
  unfolding breach_contract
  breach_contract-Keeps a i =
      search (keep_rules, get_contract-Keeps, save_contract-Keeps, append_audit-Keeps) depth 15

  breach_all-Keeps : (a : ℕ) (ids : List ℕ) → Keeps (λ d. d.refresh_tokens ≡ ts) (breach_all a ids)
  unfolding breach_all
  breach_all-Keeps a [] = Keeps-pure _
  breach_all-Keeps a (id ∷ ids) =
      Keeps-bind _ _ (breach_contract-Keeps a id)
        λ b. Keeps-bind _ _ (breach_all-Keeps a ids) λ s. Keeps-pure _

  breach_active-Keeps : (a i : ℕ) → Keeps (λ d. d.refresh_tokens ≡ ts) (breach_active a i)
  unfolding breach_active
  breach_active-Keeps a i = search (keep_rules, breach_all-Keeps)

-- What `revoke_tokens` makes of one token.
abbrev ended : ℕ → ℕ → RefreshToken → RefreshToken
ended user_id now t =
    if t.user_id == user_id && is_none t.revoked_at then record t { revoked_at = some now } else t

ended-hash :
    (hash user_id now : ℕ) (t : RefreshToken)
    → has_hash hash (ended user_id now t) ≡ has_hash hash t
ended-hash hash user_id now t = elim (Bool-cases (t.user_id == user_id && is_none t.revoked_at)) [
  | inl hit ↦ rw hit refl
  | inr miss ↦ rw miss refl
]

select-revoke_tokens :
    (hash user_id now : ℕ) (ts : List RefreshToken)
    → select (has_hash hash) (revoke_tokens user_id now ts)
      ≡ map (ended user_id now) (select (has_hash hash) ts)
select-revoke_tokens hash user_id now [] = refl
select-revoke_tokens hash user_id now (t ∷ ts) = elim (Bool-cases (has_hash hash t)) [
  | inl hit ↦
      rw (ended-hash hash user_id now t)
        (rw hit (ap (λ l. ended user_id now t ∷ l) (select-revoke_tokens hash user_id now ts)))
  | inr miss ↦
      rw (ended-hash hash user_id now t) (rw miss (select-revoke_tokens hash user_id now ts))
]

ended-revoked :
    (user_id now : ℕ) (t : RefreshToken)
    → t.user_id ≡ user_id
    → (at : ℕ) × ((ended user_id now t).revoked_at ≡ some at)
ended-revoked user_id now t own = by_state t.revoked_at refl
  where
    by_state :
        (o : Option ℕ) → t.revoked_at ≡ o → (at : ℕ) × ((ended user_id now t).revoked_at ≡ some at)
    by_state none live = (now, rw (own, live, ==_refl user_id) refl)
    by_state (some at) dead = (at, rw (dead, own, ==_refl user_id) refl)

-- After a breach of a sub, every refresh token of the sub is refused: no session that was open can be
-- continued.
pub breach-refresh :
    (security : Security) (raw : String) (t : RefreshToken) (u : User) (sub_id : ℕ)
    (reason : Option String) (db : Db)
    → select (has_hash (security.hash_token raw)) db.refresh_tokens ≡ t ∷ []
    → t.user_id ≡ sub_id
    → Leaves (λ _ d. refresh security raw d ≡ err AppError.unauthorized) (breach u sub_id reason db)
unfolding breach save_user revoke_all_refresh_for_user save_entry
breach-refresh security raw t u sub_id reason db found own = Leaves-goddess u.id _ db λ g at.
    Leaves-gets _ _ db (
      Leaves-or_raise _ _ _ db λ s mine. Leaves-raise_if _ _ _ db λ free. Leaves-now_utc _ db (
        Leaves-bind (λ _ d. d.refresh_tokens ≡ db.refresh_tokens) _ _ db
          ((breach_active-Keeps db.refresh_tokens u.id sub_id).keeps db refl)
          λ snapshot d _ same. Leaves-modify _ _ d (
            Leaves-modify _ _ _ (
              Leaves-fresh_id _ _ (
                Leaves-modify _ _ _
                  (Leaves-notify _ _ _ _ _ (Leaves-pure _ _ (shut d _ (tokens d same)))))))))
  where
    tokens :
        (d : Db)
        → d.refresh_tokens ≡ db.refresh_tokens
        → select
            (has_hash (security.hash_token raw))
            (revoke_tokens sub_id d.clock d.refresh_tokens)
          ≡ ended sub_id d.clock t ∷ []
    tokens d same =
        ap (λ l. select (has_hash (security.hash_token raw)) (revoke_tokens sub_id d.clock l)) same
        ∙ select-revoke_tokens (security.hash_token raw) sub_id d.clock db.refresh_tokens
        ∙ ap (map (ended sub_id d.clock)) found

    shut :
        (d e : Db)
        → select (has_hash (security.hash_token raw)) e.refresh_tokens ≡ ended sub_id d.clock t ∷ []
        → refresh security raw e ≡ err AppError.unauthorized
    shut d e here =
        let (at, revoked) = ended-revoked sub_id d.clock t own in
        refused security raw e (ended sub_id d.clock t) at here revoked
