-- ===== src/Consistency/Breaches.antt =====
-- Lemmas on the blacklist, for the ledger invariant.
use debt_collector.Common.{
  ℕ, ◌≡◌, refl, true, false, Option, none, some, List, [], ◌∷◌, arith, subst, sym, String, ◌∙◌,
  some_inj, Bool-cases, inl, inr, ◌==◌,
}
use debt_collector.Common.Int.{ℤ}
use debt_collector.Common.Table.{Table, find_row, put_row, find_row-put_row}
use debt_collector.Common.Lists.{Each, Each-weaken}
use debt_collector.Model.{
  Db, User, DebtContract, DebtContractStatus, contract_status_enum, BlacklistEntry,
}
use debt_collector.Model.Leaves.{
  Leaves, Leaves-weaken, Leaves-bind, Leaves-pure, Leaves-gets, Leaves-now_utc,
}
use debt_collector.Model.Keeps.{Keeps, keep_rules, Keeps-pure, Keeps-modify}
use debt_collector.Session.Leaves.{Leaves-contract, Leaves-save_contract, Leaves-append_audit}
use debt_collector.Blacklist.{
  breach_contract, breach_all, breach_active, save_user, revoke_all_refresh_for_user, save_entry,
  breach, reinstate, forgive,
}
use debt_collector.Consistency.Invariant.{IsConsistent, is_negotiating}
use debt_collector.Consistency.Writes.{LedgerOk-save}
use debt_collector.Consistency.Lifecycle.{
  Evolves, Forward-refl, Forward-trans, Forward-save, Follows-status, can_become,
}
use debt_collector.Consistency.Runs.{
  IsActive, active_contracts-IsActive, goddess-Evolves, notify-Evolves, fresh_id-Evolves,
}

-- A contract that is active, or has been breached already.
abbrev CanBreach : Table DebtContract → ℕ → Type 0
CanBreach cs id =
    (c : DebtContract) × ((find_row id cs ≡ some c)
      × ((can_become c.status DebtContractStatus.breached ≡ true)
          × (is_negotiating c.status ≡ false)))

IsActive-CanBreach : (cs : Table DebtContract) (id : ℕ) → IsActive cs id → CanBreach cs id
IsActive-CanBreach cs id (c, (found, active)) = (c, (found, (ground arith, ground arith)))

CanBreach-put :
    (cs : Table DebtContract) (k id : ℕ) (d : DebtContract)
    → d.status ≡ DebtContractStatus.breached
    → CanBreach cs id
    → CanBreach (put_row k d cs) id
CanBreach-put cs k id d breached (c, (found, h)) = elim (Bool-cases (k == id)) [
  | inl same ↦
      (d, (find_row-put_row k id d cs ∙ rw same refl, (rw breached refl, rw breached refl)))
  | inr other ↦ (c, (find_row-put_row k id d cs ∙ rw other found, h))
]

breach_contract-Evolves :
    (actor_id id : ℕ) (ids : List ℕ) (db : Db)
    → IsConsistent db
    → CanBreach db.contracts id
    → Each (CanBreach db.contracts) ids
    → Leaves
        (λ _ d. Evolves db d × Each (CanBreach d.contracts) ids)
        (breach_contract actor_id id db)
unfolding breach_contract
breach_contract-Evolves actor_id id ids db inv (c', (found', (free, signed))) others =
    Leaves-contract id _ db λ c found. Leaves-now_utc _ db (
      Leaves-save_contract _ _ _ (
        Leaves-append_audit _ _ _ (
          Leaves-pure _ _ (
            (
              LedgerOk-save inv id c _ found refl refl refl (λ h. cc),
              Forward-save db _ id c _ inv found (Forward-refl db.contracts) (
                  Follows-status c _ refl refl refl refl (
                    subst
                      (λ (x : DebtContract). can_become x.status DebtContractStatus.breached ≡ true)
                      (some_inj (sym found' ∙ found)) free)),
            ),
            Each-weaken _ _ ids (λ j. CanBreach-put db.contracts _ j _ refl) others,
          ))))

breach_all-Evolves :
    (actor_id : ℕ) (ids : List ℕ) (db : Db)
    → IsConsistent db
    → Each (CanBreach db.contracts) ids
    → Leaves (λ _. Evolves db) (breach_all actor_id ids db)
unfolding breach_all
breach_all-Evolves actor_id [] db inv h = Leaves-pure _ db (inv, Forward-refl db.contracts)
breach_all-Evolves actor_id (id ∷ ids) db inv (at, h) =
    Leaves-bind (λ _ d. Evolves db d × Each (CanBreach d.contracts) ids) _ _ db
      (breach_contract-Evolves actor_id id ids db inv at h)
      λ b d done (ev, rest).
        Leaves-bind (λ _. Evolves db) _ _ d
          (Leaves-weaken _ (breach_all-Evolves actor_id ids d ev.0 rest)
            λ a e ev'. (ev'.0, Forward-trans db.contracts d.contracts e.contracts ev.1 ev'.1))
          λ s e done' ev'. Leaves-pure _ e ev'

module _ (db0 : Db) where
  breach_all-Keeps : (actor_id sub_id : ℕ) → Keeps (Evolves db0) (breach_active actor_id sub_id)
  unfolding breach_active
  breach_all-Keeps actor_id sub_id = record {
    keeps = λ db ev. Leaves-gets _ _ db (
        Leaves-weaken _
          (breach_all-Evolves actor_id _ db ev.0 (
            Each-weaken _ _ _ (IsActive-CanBreach db.contracts)
              (active_contracts-IsActive db sub_id ev.0)))
          λ a d e. (e.0, Forward-trans db0.contracts db.contracts d.contracts ev.1 e.1));
  }

  save_user-Keeps : (u : User) → Keeps (Evolves db0) (save_user u)
  unfolding save_user
  save_user-Keeps u = search (keep_rules, Keeps-modify)

  revoke-Keeps : (i : ℕ) → Keeps (Evolves db0) (revoke_all_refresh_for_user i)
  unfolding revoke_all_refresh_for_user
  revoke-Keeps i = search (keep_rules, Keeps-modify)

  save_entry-Keeps : (e : BlacklistEntry) → Keeps (Evolves db0) (save_entry e)
  unfolding save_entry
  save_entry-Keeps e = search (keep_rules, Keeps-modify)

  reinstate-Keeps : (o : Option User) → Keeps (Evolves db0) (reinstate o)
  unfolding reinstate
  reinstate-Keeps none = Keeps-pure tt
  reinstate-Keeps (some u) = save_user-Keeps _

  -- A breach keeps the invariant.
  pub breach-Keeps :
      (u : User) (i : ℕ) (reason : Option String) → Keeps (Evolves db0) (breach u i reason)
  unfolding breach
  breach-Keeps u i reason =
      search
        (
          keep_rules, goddess-Evolves, breach_all-Keeps, save_user-Keeps, revoke-Keeps,
          fresh_id-Evolves, save_entry-Keeps, notify-Evolves,
        )
        depth 20

  -- A forgiveness keeps the invariant.
  pub forgive-Keeps : (u : User) (i : ℕ) (fee : ℤ) → Keeps (Evolves db0) (forgive u i fee)
  unfolding forgive
  forgive-Keeps u i fee =
      search (keep_rules, goddess-Evolves, save_entry-Keeps, reinstate-Keeps, notify-Evolves) depth
        20
