-- ===== src/Job/Timing.antt =====
-- What the periods of a contract depend on, which booking on contracts (server/utils/ledger.py and
-- controllers/cron_controller.py) leaves alone.
use debt_collector.Common.{
  ℕ, ◌≡◌, refl, sym, ap, ◌∙◌, true, false, Bool, Option, none, some, ◌==◌, ==_iff, Bool-cases, inl,
  inr,
}
use debt_collector.Common.Int.{ℤ}
use debt_collector.Common.Table.{find_row, put_row, find_row-put_row}
use debt_collector.Model.{
  Db, DebtContract, PaymentFrequency, DebtEvent, event_type_enum, NotificationType,
}
use debt_collector.Model.Keeps.{Keeps, keep_rules, Keeps-modify, Keeps-pure}
use debt_collector.Session.{notify}
use debt_collector.Ledger.{store_balance, recompute_balance, apply_event_and_recompute}
use debt_collector.Merit.Engine.{Offence, apply_penalty}
use debt_collector.Merit.Keeps.{apply_penalty-Keeps}
use debt_collector.Job.Tick.{had_min_payment_for_period, is_late_for, penalise}

-- What of a contract its periods depend on.
pub record Timing : Type 0 where
  pub id : ℕ
  pub frequency : PaymentFrequency
  pub signed_at : Option ℕ

abbrev pub of_contract : DebtContract → Timing
of_contract c = record { id = c.id; frequency = c.payment_frequency; signed_at = c.signed_at }

abbrev pub timing : Option DebtContract → Option Timing
timing none = none
timing (some c) = some (of_contract c)

abbrev timing_of : ℕ → Db → Option Timing
timing_of id db = timing (find_row id db.contracts)

store_balance-timing :
    (id k : ℕ) (b : ℤ) (db : Db) → timing_of id (store_balance k b db) ≡ timing_of id db
unfolding store_balance
store_balance-timing id k b db = stored (find_row k db.contracts) refl
  where
    stored :
        (o : Option DebtContract)
        → find_row k db.contracts ≡ o
        → timing (
            find_row id (elim o [
              | none ↦ db.contracts
              | some c ↦ put_row k (record c { balance = b }) db.contracts
            ]))
          ≡ timing_of id db
    stored none h = refl
    stored (some c) h = elim (Bool-cases (k == id)) [
      | inl same ↦
          ap timing (find_row-put_row k id _ db.contracts)
          ∙ rw same
              (ap timing (sym h ∙ ap (λ (j : ℕ). find_row j db.contracts) ((==_iff k id).0 same)))
      | inr other ↦ ap timing (find_row-put_row k id _ db.contracts) ∙ rw other refl
    ]

-- The clock and the timing of a contract are as they were.
abbrev pub SameTime : ℕ → Db → Db → Type 0
SameTime id db d = (timing_of id d ≡ timing_of id db) × (d.clock ≡ db.clock)

module _ (id : ℕ) (db : Db) where
  notify-SameTime : (u : ℕ) (t : NotificationType) (i : ℕ) → Keeps (SameTime id db) (notify u t i)
  unfolding notify
  notify-SameTime u t i = search (keep_rules, Keeps-modify)

  penalty-SameTime : (o : Offence) → Keeps (SameTime id db) (apply_penalty o)
  penalty-SameTime = apply_penalty-Keeps (SameTime id db) (λ d es h. h) (λ d es h. h)

  pub recompute-SameTime : (k : ℕ) → Keeps (SameTime id db) (recompute_balance k)
  unfolding recompute_balance
  recompute-SameTime k = search (keep_rules)

  pub store-SameTime :
      (k : ℕ) (b : ℤ) (d : Db) → SameTime id db d → SameTime id db (store_balance k b d)
  unfolding store_balance
  store-SameTime k b d (same, clock) = (store_balance-timing id k b d ∙ same, clock)

  event-SameTime : (e : DebtEvent) → Keeps (SameTime id db) (apply_event_and_recompute e)
  unfolding apply_event_and_recompute
  event-SameTime e = search (keep_rules, Keeps-modify, recompute-SameTime, store-SameTime) depth 20

  had_min-SameTime :
      (c : DebtContract) (i : ℕ) → Keeps (SameTime id db) (had_min_payment_for_period c i)
  unfolding had_min_payment_for_period
  had_min-SameTime c i = search (keep_rules)

  pub is_late_for-SameTime :
      (first : Bool) (c : DebtContract) (i : ℕ) → Keeps (SameTime id db) (is_late_for first c i)
  unfolding is_late_for
  is_late_for-SameTime true c i = Keeps-pure false
  is_late_for-SameTime false c i = search (keep_rules, had_min-SameTime)

  pub penalise-SameTime : (c : DebtContract) (i : ℕ) → Keeps (SameTime id db) (penalise c i)
  unfolding penalise
  penalise-SameTime c i =
      search (keep_rules, event-SameTime, notify-SameTime, penalty-SameTime) depth 20

pub store_balance-events : (k : ℕ) (b : ℤ) (d : Db) → (store_balance k b d).events ≡ d.events
unfolding store_balance
store_balance-events k b d = refl
