-- ===== src/Consistency/Ticks.antt =====
-- Lemmas on the events that the jobs book on contracts, for the ledger invariant.
use debt_collector.Common.{ℕ, ◌≡◌, true, false, some, Bool, subst, sym}
use debt_collector.Common.Table.{Table, find_row}
use debt_collector.Model.{
  Db, DebtContract, contract_status_enum, NotificationType, Action, pure, ◌>>=◌,
}
use debt_collector.Model.Leaves.{
  Leaves, Leaves-bind, Leaves-now_utc, Leaves-pure, Leaves-gets, Leaves-when,
}
use debt_collector.Model.Keeps.{Keeps, keep_rules, Keeps-pure}
use debt_collector.Session.{notify}
use debt_collector.Session.Leaves.{Leaves-notify, Leaves-contract}
use debt_collector.Merit.Engine.{Offence, apply_penalty}
use debt_collector.Merit.Keeps.{apply_penalty-Keeps}
use debt_collector.Calendar.{London}
use debt_collector.Job.Tick.{
  Rates, had_min_payment_for_period, is_late_for, penalise, accrue_interest, tick_period,
  tick_unless, tick_contract,
}
use debt_collector.Job.Whole.{IsWhole, Leaves-accrue}
use debt_collector.Consistency.Invariant.{IsConsistent, is_negotiating}
use debt_collector.Consistency.Lifecycle.{
  Evolves, Forward, Forward-refl, Forward-trans, Forward-balance, stays_settled,
}
use debt_collector.Consistency.Events.{after_event-IsConsistent, Leaves-event}

-- A contract that has been signed, and so may have events.
abbrev pub IsSigned : Table DebtContract → ℕ → Type 0
IsSigned cs id =
    (c : DebtContract) × ((find_row id cs ≡ some c) × (is_negotiating c.status ≡ false))

pub IsSigned-Forward :
    (cs ds : Table DebtContract) (id : ℕ) → Forward cs ds → IsSigned cs id → IsSigned ds id
IsSigned-Forward cs ds id f (c, (found, signed)) =
    let (d, (at, follows)) = f id c found in
    (d, (at, stays_settled c.status d.status follows.moved signed))

pub apply_penalty-Evolves : (db0 : Db) (o : Offence) → Keeps (Evolves db0) (apply_penalty o)
apply_penalty-Evolves db0 = apply_penalty-Keeps (Evolves db0) (λ d es h. h) (λ d es h. h)

had_min-Evolves :
    (db0 : Db) (c : DebtContract) (i : ℕ) → Keeps (Evolves db0) (had_min_payment_for_period c i)
unfolding had_min_payment_for_period
had_min-Evolves db0 c i = search (keep_rules)

is_late_for-Evolves :
    (db0 : Db) (first : Bool) (c : DebtContract) (i : ℕ)
    → Keeps (Evolves db0) (is_late_for first c i)
unfolding is_late_for
is_late_for-Evolves db0 true c i = Keeps-pure false
is_late_for-Evolves db0 false c i = search (keep_rules, had_min-Evolves)

module _ {A B : Type 0} where
  -- An action that evolves the database, and the rest of its block.
  pub Evolves-bind :
      (m : Action A) (k : A → Action B) (db d : Db)
      → Evolves db d
      → Leaves (λ _. Evolves d) (m d)
      → ((a : A) (e : Db) → Evolves db e → Leaves (λ _. Evolves db) (k a e))
      → Leaves (λ _. Evolves db) ((m >>= k) d)
  Evolves-bind m k db d ev l next =
      Leaves-bind (λ _. Evolves d) m k d l
        λ a e done h. next a e (h.0, Forward-trans db.contracts d.contracts e.contracts ev.1 h.1)

pub penalise-Evolves :
    (k : DebtContract) (i : ℕ) (db : Db)
    → IsConsistent db
    → IsSigned db.contracts k.id
    → Leaves (λ _. Evolves db) (penalise k i db)
unfolding penalise
penalise-Evolves k i db inv (c, (found, signed)) = Leaves-now_utc _ db (
    Leaves-event _ c _ db found (
      Leaves-notify _ _ _ _ _ (
        Leaves-bind (λ _. Evolves db) _ _ _
          ((apply_penalty-Evolves db _).keeps _ (
            after_event-IsConsistent _ db c inv found signed,
            Forward-balance db.contracts _ c _ found,
          ))
          λ a d e ev. Leaves-pure tt d ev)))

module _ (rates : Rates) (whole : IsWhole rates) where
  tick_period-Evolves :
      (k : DebtContract) (i : ℕ) (db : Db)
      → IsConsistent db
      → IsSigned db.contracts k.id
      → Leaves (λ _. Evolves db) (tick_period rates k i db)
  unfolding tick_period
  tick_period-Evolves k i db inv signed =
      Leaves-bind (λ _. Evolves db) _ _ db
        ((is_late_for-Evolves db _ k _).keeps db (inv, Forward-refl db.contracts))
        λ is_late d done ev.
          Leaves-when is_late _ _ d
            (λ _.
              Evolves-bind _ _ db d ev
                (penalise-Evolves k _ d ev.0 (IsSigned-Forward _ _ k.id ev.1 signed))
                λ a e ev'. rest e ev')
            (λ _. rest d ev)
    where
      booked :
          (d : Db)
          → Evolves db d
          → (c : DebtContract) → find_row k.id d.contracts ≡ some c
          → is_negotiating c.status ≡ false
          → Leaves
              (λ _. Evolves db)
              ((accrue_interest rates k i >>= λ _.
                  notify k.sub_id NotificationType.contract_period_interest k.id >>= λ _. pure true)
                d)
      booked d ev c found still = Leaves-accrue rates whole k c i _ d found (
          Leaves-notify _ _ _ _ _ (
            Leaves-pure true _ (
              after_event-IsConsistent _ d c ev.0 found still,
              Forward-trans db.contracts d.contracts _ ev.1
                  (Forward-balance d.contracts _ c _ found),
            )))

      rest :
          (d : Db)
          → Evolves db d
          → Leaves
              (λ _. Evolves db)
              ((accrue_interest rates k i >>= λ _.
                  notify k.sub_id NotificationType.contract_period_interest k.id >>= λ _. pure true)
                d)
      rest d ev =
          let (c, (found, still)) = IsSigned-Forward _ _ k.id ev.1 signed in
          booked d ev c found still

  tick_unless-Evolves :
      (done : Bool) (k : DebtContract) (i : ℕ) (db : Db)
      → IsConsistent db
      → IsSigned db.contracts k.id
      → Leaves (λ _. Evolves db) (tick_unless rates done k i db)
  unfolding tick_unless
  tick_unless-Evolves true k i db inv signed = Leaves-pure false db (inv, Forward-refl db.contracts)
  tick_unless-Evolves false k i db inv signed = tick_period-Evolves k i db inv signed

  -- A tick of a signed contract keeps the invariant.
  pub tick_contract-Evolves :
      (london : London) (id : ℕ) (db : Db)
      → IsConsistent db
      → IsSigned db.contracts id
      → Leaves (λ _. Evolves db) (tick_contract rates london id db)
  unfolding tick_contract
  tick_contract-Evolves london id db inv signed = Leaves-contract id _ db λ c found.
      Leaves-now_utc _ db (
        Leaves-gets _ _ db (
          tick_unless-Evolves _ c _ db inv
            (subst (IsSigned db.contracts) (sym (inv.row_ok id c found).keyed) signed)))
