-- ===== src/Auth/Once.antt =====
-- server/controllers/auth_controller.py: a refresh token and a reset token are used once.
use debt_collector.Common.{
  ℕ, ◌+◌, ◌≡◌, ◌≢◌, refl, sym, ap, ◌∙◌, false, some, List, [], ◌∷◌, ◌++◌, String, ◌==◌, arith,
  Bool-cases, inl, inr, subst, map, ==_iff,
}
use debt_collector.Common.Lists.{select, select-append, any_of}
use debt_collector.Model.{Db, RefreshToken, AppError, Action, err, ◌>>=◌}
use debt_collector.Model.Leaves.{
  Leaves, Leaves-gets, Leaves-or_raise, Leaves-raise_if, Leaves-now_utc, Leaves-modify, Leaves-pure,
  Leaves-assoc, Leaves-pure_bind, Leaves-fresh_id,
}
use debt_collector.Model.Leaves.{Leaves-unique}
use debt_collector.Auth.{
  Security, has_hash, get_refresh_by_hash, revoked_at, revoke, new_refresh, create_refresh_token,
  issue, usable_refresh, refresh,
}

none_found :
    (hash : ℕ) (ts : List RefreshToken)
    → any_of (has_hash hash) ts ≡ false
    → select (has_hash hash) ts ≡ []
none_found hash [] h = refl
none_found hash (t ∷ ts) h = elim (Bool-cases (has_hash hash t)) [
  | inl hit ↦ ground (arith, h, hit)
  | inr miss ↦ rw miss (none_found hash ts (ground (arith, h, miss)))
]

abbrev marked : ℕ → RefreshToken → RefreshToken
marked now t = record t { revoked_at = some now }

select-revoked_at :
    (hash now : ℕ) (ts : List RefreshToken)
    → select (has_hash hash) (revoked_at hash now ts) ≡ map (marked now) (select (has_hash hash) ts)
select-revoked_at hash now [] = refl
select-revoked_at hash now (t ∷ ts) = elim (Bool-cases (has_hash hash t)) [
  | inl hit ↦ rw hit (rw hit (ap (λ l. marked now t ∷ l) (select-revoked_at hash now ts)))
  | inr miss ↦ rw miss (rw miss (select-revoked_at hash now ts))
]

module _ (security : Security) (raw : String) where
  -- A token that has been revoked is refused.
  pub refused :
      (d : Db) (t : RefreshToken) (at : ℕ)
      → select (has_hash (security.hash_token raw)) d.refresh_tokens ≡ t ∷ []
      → t.revoked_at ≡ some at
      → refresh security raw d ≡ err AppError.unauthorized
  unfolding refresh usable_refresh get_refresh_by_hash ◌>>=◌
  refused d t at found revoked = rw found (rw revoked refl)

  -- With a new token whose hash is free, the old one stands alone under its own.
  alone :
      (user_id now : ℕ) (new : String) (ts : List RefreshToken) (t : RefreshToken)
      → select (has_hash (security.hash_token raw)) ts ≡ t ∷ []
      → any_of (has_hash (security.hash_token new)) ts ≡ false
      → select
          (has_hash (security.hash_token raw))
          (ts ++ new_refresh security user_id new now ∷ [])
        ≡ t ∷ []
  alone user_id now new ts t found free =
      select-append (has_hash (security.hash_token raw)) ts _
      ∙ elim (Bool-cases (security.hash_token new == security.hash_token raw)) [
        | inl same ↦ absurd (
            nothing (
              sym found
              ∙ none_found (security.hash_token raw) ts
                  (subst (λ (h : ℕ). any_of (has_hash h) ts ≡ false) ((==_iff _ _).0 same) free)))
        | inr other ↦ rw (found, other) refl
      ]
    where
      nothing : t ∷ [] ≢ []
      nothing h = cc

  Leaves-usable :
      {B : Type 0} {P : B → Db → Type 0} (k : RefreshToken → Action B) (db : Db)
      → ((t : RefreshToken)
          → select (has_hash (security.hash_token raw)) db.refresh_tokens ≡ t ∷ []
          → Leaves P (k t db))
      → Leaves P ((usable_refresh security raw >>= k) db)
  unfolding usable_refresh get_refresh_by_hash
  Leaves-usable k db h = Leaves-assoc _ _ k db (
      Leaves-assoc _ _ _ db (
        Leaves-gets _ _ db (
          Leaves-unique _ _ db λ o found. Leaves-assoc _ _ k db (
            Leaves-or_raise o _ _ db λ t at. Leaves-assoc _ _ k db (
              Leaves-raise_if _ _ _ db λ live. Leaves-assoc _ _ k db (
                Leaves-now_utc _ db (
                  Leaves-assoc _ _ k db (
                    Leaves-raise_if _ _ _ db
                      λ fresh. Leaves-pure_bind t k db (h t (found t at))))))))))

  -- A refresh token is used once: after a refresh that succeeds the same token is refused, whenever it
  -- is given again before anything else happens.
  pub refresh-once :
      (seconds : ℕ) (db : Db)
      → Leaves
          (λ _ d.
            refresh security raw (record d { clock = d.clock + seconds })
            ≡ err AppError.unauthorized)
          (refresh security raw db)
  unfolding refresh revoke issue create_refresh_token
  refresh-once seconds db = Leaves-usable _ db λ t found. Leaves-gets _ _ db (
      Leaves-or_raise _ _ _ db λ u at. Leaves-modify _ _ db (
        Leaves-fresh_id _ _ (
          Leaves-assoc _ _ _ _ (
            Leaves-gets _ _ _ (
              Leaves-assoc _ _ _ _ (
                Leaves-raise_if _ _ _ _ λ free. Leaves-modify _ _ _ (
                  Leaves-pure _ _ (
                    refused _ (marked db.clock t) db.clock
                      (alone u.id db.clock (security.raw_token db.next_id)
                        (revoked_at (security.hash_token raw) db.clock db.refresh_tokens)
                        (marked db.clock t)
                        (select-revoked_at (security.hash_token raw) db.clock db.refresh_tokens
                          ∙ ap (map (marked db.clock)) found)
                        free)
                      refl))))))))
