-- ===== src/Auth/Reset.antt =====
-- server/controllers/auth_controller.py: the reset of a password.
use debt_collector.Common.{
  ℕ, ◌+◌, ◌≡◌, refl, ap, ◌∙◌, false, some, List, [], ◌∷◌, String, Bool-cases, inl, inr, map,
}
use debt_collector.Common.Lists.{select, any_of}
use debt_collector.Model.{Db, PasswordResetToken, AppError, err, ◌>>=◌}
use debt_collector.Model.Leaves.{
  Leaves, Leaves-gets, Leaves-or_raise, Leaves-raise_if, Leaves-now_utc, Leaves-modify,
  Leaves-assoc, Leaves-pure_bind, Leaves-pure, Leaves-last,
}
use debt_collector.Blacklist.{revoke_all_refresh_for_user}
use debt_collector.Blacklist.Effect.{is_usable, revoked}
use debt_collector.Auth.{
  Security, has_reset_hash, used_at, consume_reset_token, confirm_password_reset, save_credential,
}
use debt_collector.Model.Leaves.{Leaves-unique}

abbrev used : ℕ → PasswordResetToken → PasswordResetToken
used now t = record t { used_at = some now }

module _ (security : Security) (raw : String) where
  select-used_at :
      (hash now : ℕ) (ts : List PasswordResetToken)
      → select (has_reset_hash security hash) (used_at security hash now ts)
        ≡ map (used now) (select (has_reset_hash security hash) ts)
  select-used_at hash now [] = refl
  select-used_at hash now (t ∷ ts) = elim (Bool-cases (has_reset_hash security hash t)) [
    | inl hit ↦ rw hit (rw hit (ap (λ l. used now t ∷ l) (select-used_at hash now ts)))
    | inr miss ↦ rw miss (rw miss (select-used_at hash now ts))
  ]

  -- A token that has been used is refused.
  refused :
      (new_password : String) (d : Db) (t : PasswordResetToken) (at : ℕ)
      → select (has_reset_hash security (security.hash_token raw)) d.reset_tokens ≡ t ∷ []
      → t.used_at ≡ some at
      → confirm_password_reset security raw new_password d ≡ err AppError.bad_request
  unfolding confirm_password_reset consume_reset_token ◌>>=◌
  refused new_password d t at found was_used = rw found (rw was_used refl)

  -- A reset token is used once: after a reset that succeeds the same token is refused, whatever the new
  -- password and however much later; and every session of the user whose token it is has ended.
  pub reset-once :
      (new_password other_password : String) (seconds : ℕ) (db : Db)
      → Leaves
          (λ _ d.
            (confirm_password_reset security raw other_password
                (record d { clock = d.clock + seconds })
              ≡ err AppError.bad_request)
            × ((t : PasswordResetToken) × ((select
                      (has_reset_hash security (security.hash_token raw))
                      db.reset_tokens
                    ≡ t ∷ [])
                  × (any_of (is_usable t.user_id) d.refresh_tokens ≡ false))))
          (confirm_password_reset security raw new_password db)
  unfolding confirm_password_reset consume_reset_token save_credential revoke_all_refresh_for_user
  reset-once new_password other_password seconds db = Leaves-assoc _ _ _ db (
      Leaves-gets _ _ db (
        Leaves-assoc _ _ _ db (
          Leaves-unique _ _ db λ o found. Leaves-assoc _ _ _ db (
            Leaves-or_raise o _ _ db λ t at. Leaves-assoc _ _ _ db (
              Leaves-now_utc _ db (
                Leaves-assoc _ _ _ db (
                  Leaves-raise_if _ _ _ db λ fresh. Leaves-assoc _ _ _ db (
                    Leaves-modify _ _ db (
                      Leaves-pure_bind t _ _ (
                        Leaves-gets _ _ _ (
                          Leaves-or_raise _ _ _ _ λ c known. Leaves-modify _ _ _ (
                            Leaves-last _ _ (
                              Leaves-modify _ _ _ (
                                Leaves-pure _ _ (
                                  refused other_password _ (used db.clock t) db.clock
                                      (select-used_at (security.hash_token raw) db.clock
                                          db.reset_tokens
                                        ∙ ap (map (used db.clock)) (found t at))
                                      refl,
                                  (t, (found t at, revoked t.user_id db.clock db.refresh_tokens)),
                                )))))))))))))))
