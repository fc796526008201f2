-- ===== src/Payment/Breaches.antt =====
-- The blacklist (server/controllers/blacklist_controller.py) leaves the payment tables alone.
use debt_collector.Common.{ℕ, Option, none, some, List, [], ◌∷◌, String}
use debt_collector.Common.Int.{ℤ}
use debt_collector.Model.{Db, User, BlacklistEntry}
use debt_collector.Model.Keeps.{Keeps, keep_rules, Keeps-pure, Keeps-bind, Keeps-modify}
use debt_collector.Blacklist.{
  breach_contract, breach_all, breach_active, save_user, revoke_all_refresh_for_user, save_entry,
  breach, reinstate, forgive,
}
use debt_collector.Payment.Frame.{Settled, handler_rules}

module _ (db0 : Db) where
  save_user-Keeps : (u : User) → Keeps (Settled db0) (save_user u)
  unfolding save_user
  save_user-Keeps u = search (keep_rules, Keeps-modify)

  revoke-Keeps : (i : ℕ) → Keeps (Settled db0) (revoke_all_refresh_for_user i)
  unfolding revoke_all_refresh_for_user
  revoke-Keeps i = search (keep_rules, Keeps-modify)

  save_entry-Keeps : (e : BlacklistEntry) → Keeps (Settled db0) (save_entry e)
  unfolding save_entry
  save_entry-Keeps e = search (keep_rules, Keeps-modify)

  reinstate-Keeps : (o : Option User) → Keeps (Settled db0) (reinstate o)
  unfolding reinstate
  reinstate-Keeps none = Keeps-pure tt
  reinstate-Keeps (some u) = save_user-Keeps _

  breach_contract-Keeps : (a i : ℕ) → Keeps (Settled db0) (breach_contract a i)
  unfolding breach_contract
  breach_contract-Keeps a i = search (handler_rules) depth 20

  breach_all-Keeps : (a : ℕ) (ids : List ℕ) → Keeps (Settled db0) (breach_all a ids)
  unfolding breach_all
  breach_all-Keeps a [] = Keeps-pure _
  breach_all-Keeps a (id ∷ ids) =
      Keeps-bind _ _ (breach_contract-Keeps a id)
        λ b. Keeps-bind _ _ (breach_all-Keeps a ids) λ s. Keeps-pure _

  breach_active-Keeps : (a i : ℕ) → Keeps (Settled db0) (breach_active a i)
  unfolding breach_active
  breach_active-Keeps a i = search (keep_rules, breach_all-Keeps)

  pub breach-Keeps :
      (u : User) (i : ℕ) (reason : Option String) → Keeps (Settled db0) (breach u i reason)
  unfolding breach
  breach-Keeps u i reason =
      search (handler_rules, breach_active-Keeps, save_user-Keeps, revoke-Keeps, save_entry-Keeps)
        depth 20

  pub forgive-Keeps : (u : User) (i : ℕ) (fee : ℤ) → Keeps (Settled db0) (forgive u i fee)
  unfolding forgive
  forgive-Keeps u i fee = search (handler_rules, save_entry-Keeps, reinstate-Keeps) depth 20
