-- ===== src/System/Exact.antt =====
-- `_apply_debt_payment` and `_apply_buyout` of server/controllers/payment/controller.py in the
-- databases that the server reaches.
use debt_collector.Common.{true, Option, ℕ, ◌≡◌, refl, sym, ap, ◌∙◌, some, arith, ==_refl, ◌is◌}
use debt_collector.Common.Int.{ℤ, pos, ◌-ℤ◌}
use debt_collector.Common.Table.{find_row, put_row, find_row-put_row_self}
use debt_collector.Model.{
  Db, DebtContract, DebtContractStatus, contract_status_enum, DebtEvent, EventType,
  PaymentDeclaration, Action, ok, ◌>>=◌,
}
use debt_collector.Ledger.{apply_op, op_of}
use debt_collector.Ledger.Replay.{apply_op-subtract}
use debt_collector.Ledger.Apply.{balance_after, balance_after-one, after_event, apply_event-found}
use debt_collector.Debt.Adjust.{money_event}
use debt_collector.Payment.Effects.{
  owned_contract, load_active_contract_for_sub, apply_debt_payment,
}
use debt_collector.Payment.Effects.{apply_buyout}
use debt_collector.Consistency.Events.{Leaves-event}
use debt_collector.Model.Leaves.{Leaves, Leaves-found, Leaves-pure, Leaves-last}
use debt_collector.Session.Leaves.{
  Leaves-save_contract, Leaves-append_audit, Leaves-goddess_user, Leaves-notify_known,
}
use debt_collector.Debt.Leaves.{Leaves-publish_state}
use debt_collector.System.Reach.{Reach-IsConsistent}
use debt_collector.System.Reach.{Reach, balance-replay}

-- In a reachable database, an event changes the stored balance by itself.
pub balance_after-event :
    (db : Db) (c : DebtContract) (e : DebtEvent)
    → Reach db
    → find_row e.contract_id db.contracts ≡ some c
    → balance_after db c e ≡ apply_op (op_of e.event_type) c.balance e.amount
balance_after-event db c e r found =
    balance_after-one db c e
    ∙ ap (λ b. apply_op (op_of e.event_type) b e.amount)
        (sym (balance-replay db e.contract_id c r found))

owned_self : (c : DebtContract) → owned_contract c.sub_id (some c) ≡ some c
owned_self c = ground (arith, ==_refl c.sub_id)

loaded_active :
    (db : Db) (contract_id : ℕ) (c : DebtContract) (target_id : Option ℕ)
    → target_id ≡ some contract_id
    → find_row contract_id db.contracts ≡ some c
    → (c.status is DebtContractStatus.active) ≡ true
    → load_active_contract_for_sub c.sub_id target_id db ≡ ok (c, db)
unfolding load_active_contract_for_sub ◌>>=◌
loaded_active db contract_id c target_id target found active =
    rw (target, found) (rw (owned_self c) (rw active refl))

-- In every database that the server reaches by the calls and the jobs of System.antt (at whole rates), a debt payment on a sub's
-- active contract succeeds, and lowers the balance of the contract by exactly its amount.
pub apply_debt_payment-exact :
    (db : Db) (decl : PaymentDeclaration) (contract_id : ℕ) (c : DebtContract)
    → Reach db
    → decl.target_id ≡ some contract_id
    → find_row contract_id db.contracts ≡ some c
    → (c.status is DebtContractStatus.active) ≡ true
    → (d : Db) × ((apply_debt_payment decl c.sub_id db ≡ ok (tt, d))
        × (find_row contract_id d.contracts
            ≡ some (record c { balance = c.balance -ℤ pos decl.amount })))
unfolding apply_debt_payment ◌>>=◌
apply_debt_payment-exact db decl contract_id c r target found active =
    (after_event db c event, (runs, left))
  where
    event : DebtEvent
    event = money_event contract_id EventType.payment_applied decl.amount db.clock

    loaded : load_active_contract_for_sub c.sub_id decl.target_id db ≡ ok (c, db)
    loaded = loaded_active db contract_id c decl.target_id target found active

    runs : apply_debt_payment decl c.sub_id db ≡ ok (tt, after_event db c event)
    runs = rw (loaded, target) (rw (apply_event-found event db c refl found) refl)

    left :
        find_row contract_id (after_event db c event).contracts
        ≡ some (record c { balance = c.balance -ℤ pos decl.amount })
    left =
        find_row-put_row_self contract_id _ db.contracts
        ∙ ap (λ (b : ℤ). some (record c { balance = b }))
            (balance_after-event db c event r found ∙ apply_op-subtract c.balance decl.amount)

Leaves-known :
    {B : Type 0} {P : B → Db → Type 0}
    → (c : DebtContract) (contract_id : ℕ) {target_id : Option ℕ} (k : DebtContract → Action B)
      (db : Db)
    → target_id ≡ some contract_id
    → find_row contract_id db.contracts ≡ some c
    → (c.status is DebtContractStatus.active) ≡ true
    → Leaves P (k c db)
    → Leaves P ((load_active_contract_for_sub c.sub_id target_id >>= k) db)
unfolding ◌>>=◌
Leaves-known c contract_id k db target found active h =
    rw (loaded_active db contract_id c _ target found active) h

-- In every database that the server reaches by the calls and the jobs of System.antt (at whole rates), a buyout of a sub's
-- active contract that succeeds leaves the contract closed, with nothing owed and its terms as
-- they were.
pub apply_buyout-closes :
    (db : Db) (decl : PaymentDeclaration) (actor_id contract_id : ℕ) (c : DebtContract)
    → Reach db
    → decl.target_id ≡ some contract_id
    → find_row contract_id db.contracts ≡ some c
    → (c.status is DebtContractStatus.active) ≡ true
    → Leaves
        (λ _ d.
          find_row contract_id d.contracts
          ≡ some (record c {
            balance = pos 0;
            status = DebtContractStatus.closed;
            updated_at = db.clock;
          }))
        (apply_buyout decl c.sub_id actor_id db.clock db)
unfolding apply_buyout apply_op
apply_buyout-closes db decl actor_id contract_id c r target found active =
    Leaves-known c contract_id _ db target found active (
      Leaves-found _ contract_id _ _ db target (
        Leaves-event _ c _ db found (
          Leaves-save_contract _ _ _ (
            Leaves-append_audit _ _ _ (
              Leaves-goddess_user _ _ _ λ o. Leaves-notify_known _ _ _ _ _ λ ns ps.
                Leaves-last _ _ (Leaves-publish_state _ _ _ _ _ λ qs. Leaves-pure _ _ row))))))
  where
    booked : DebtEvent
    booked = money_event contract_id EventType.buyout_paid decl.amount db.clock

    paid_off : balance_after db c booked ≡ pos 0
    paid_off = balance_after-event db c booked r found

    keyed : c.id ≡ contract_id
    keyed = ((Reach-IsConsistent db r).row_ok contract_id c found).keyed

    row :
        find_row contract_id (
          put_row c.id
            (record c {
              balance = balance_after db c booked;
              status = DebtContractStatus.closed;
              updated_at = db.clock;
            })
            (after_event db c booked).contracts)
        ≡ some (record c {
          balance = pos 0;
          status = DebtContractStatus.closed;
          updated_at = db.clock;
        })
    row =
        ap
          (λ (k : ℕ). find_row contract_id (
            put_row k
              (record c {
                balance = balance_after db c booked;
                status = DebtContractStatus.closed;
                updated_at = db.clock;
              })
              (after_event db c booked).contracts))
          keyed
        ∙ find_row-put_row_self contract_id _ _
        ∙ ap
            (λ (b : ℤ).
              some (record c {
                balance = b;
                status = DebtContractStatus.closed;
                updated_at = db.clock;
              }))
            paid_off
