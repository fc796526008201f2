-- ===== src/System/Penalty.antt =====
-- `surprise_penalty_by_slug` of server/controllers/debt/controller.py in the databases that the server
-- reaches.
use debt_collector.Common.{ℕ, ◌≡◌, ap, ◌∙◌, some, [], ◌∷◌, String}
use debt_collector.Common.Int.{pos, ◌+ℤ◌}
use debt_collector.Common.Table.{find_row, put_row, find_row-put_row_self, rows}
use debt_collector.Common.Lists.{select}
use debt_collector.Model.{Db, User, DebtContract, EventType}
use debt_collector.Model.Leaves.{
  Leaves, Leaves-raise_if, Leaves-now_utc, Leaves-gets, Leaves-modify, Leaves-fresh_id,
}
use debt_collector.Session.Leaves.{Leaves-notify, Leaves-save_contract, Leaves-append_audit}
use debt_collector.Ledger.Replay.{apply_op-add}
use debt_collector.Ledger.Apply.{balance_after}
use debt_collector.Debt.Adjust.{
  money_event, refreshed, save_adjustment, has_slug, penalty_adjustment, surprise_penalty_by_slug,
}
use debt_collector.Debt.Leaves.{Leaves-contract_out}
use debt_collector.Consistency.Events.{Leaves-event}
use debt_collector.Consistency.Penalties.{Leaves-her_contract}
use debt_collector.System.Reach.{Reach, Reach-IsConsistent}
use debt_collector.System.Exact.{balance_after-event}

-- In every database that the server reaches by the calls and the jobs of System.antt (at whole rates), a
-- surprise penalty that is confirmed and succeeds is booked on the one contract with the slug: its
-- balance is higher by exactly the amount, its other columns but the time of the update are as they
-- were, and the applied adjustment with the amount and the reason is recorded.
pub surprise_penalty_by_slug-exact :
    (slug_of : ℕ → String) (u : User) (slug : String) (amount : ℕ) (reason : String) (at : ℕ)
    (db : Db)
    → Reach db
    → Leaves
        (λ _ d.
          (c : DebtContract) × (select (has_slug slug_of slug) (rows db.contracts) ≡ c ∷ [])
          × (find_row c.id d.contracts
              ≡ some (record c { balance = c.balance +ℤ pos amount; updated_at = db.clock }))
          × (find_row db.next_id d.adjustments
              ≡ some (penalty_adjustment db.next_id c.id u.id amount reason at db.clock)))
        (surprise_penalty_by_slug slug_of u slug amount reason at db)
unfolding surprise_penalty_by_slug save_adjustment
surprise_penalty_by_slug-exact slug_of u slug amount reason at db r =
    Leaves-her_contract slug_of u slug _ db (Reach-IsConsistent db r) λ c found alone.
      Leaves-raise_if _ _ _ db λ allowed. Leaves-raise_if _ _ _ db λ active. Leaves-now_utc _ db (
        Leaves-event _ c _ db found (
          Leaves-fresh_id _ _ (
            Leaves-modify _ _ _ (
              Leaves-append_audit _ _ _ (
                Leaves-save_contract _ _ _ (
                  Leaves-gets _ _ _ (
                    Leaves-notify _ _ _ _ _ (
                      Leaves-contract_out _ _ _ λ out e. (
                        c,
                        alone,
                        higher c found,
                        find_row-put_row_self db.next_id _ db.adjustments,
                      )))))))))
  where
    higher :
        (c : DebtContract)
        → find_row c.id db.contracts ≡ some c
        → find_row c.id (
            put_row c.id
              (refreshed c
                (balance_after db c (money_event c.id EventType.surprise_penalty amount db.clock))
                db.clock)
              (put_row c.id
                (record c {
                  balance =
                      balance_after db c
                        (money_event c.id EventType.surprise_penalty amount db.clock);
                })
                db.contracts))
          ≡ some (record c { balance = c.balance +ℤ pos amount; updated_at = db.clock })
    higher c found =
        find_row-put_row_self c.id _ _
        ∙ ap (λ b. some (record c { balance = b; updated_at = db.clock }))
            (balance_after-event db c (money_event c.id EventType.surprise_penalty amount db.clock)
                r found
              ∙ apply_op-add c.balance amount)
