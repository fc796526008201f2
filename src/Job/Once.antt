-- ===== src/Job/Once.antt =====
-- `_tick_contract` of server/controllers/cron_controller.py, twice at one time.
use debt_collector.Common.{
  ℕ, ◌≡◌, refl, sym, ap, ◌∙◌, true, false, Bool, ◌||◌, Option, none, some, [], ◌∷◌, ◌++◌, ◌==◌,
  ==_refl, arith, Bool-cases, inl, inr, subst, some_inj,
}
use debt_collector.Common.Table.{find_row}
use debt_collector.Common.Lists.{any_of, any_of-append}
use debt_collector.Model.{Db, DebtContract, EventType, event_type_enum, NotificationType, ok, ◌>>=◌}
use debt_collector.Model.Leaves.{
  Leaves, Leaves-bind, Leaves-weaken, Leaves-pure, Leaves-gets, Leaves-now_utc, Leaves-raise_if,
  Leaves-modify, Leaves-last,
}
use debt_collector.Model.Keeps.{Keeps, keep_rules, Keeps-modify, Keeps-when}
use debt_collector.Session.{notify, get_contract_or_404}
use debt_collector.Session.Leaves.{Leaves-contract}
use debt_collector.Calendar.{London}
use debt_collector.Periods.{current_period_index, periods_since, signed_date, london_date}
use debt_collector.Job.Tick.{
  Rates, exists_for_period, is_of_period, interest_event, accrue_interest, tick_period, tick_unless,
  tick_contract,
}
use debt_collector.Job.Timing.{
  Timing, of_contract, timing, SameTime, recompute-SameTime, store-SameTime, is_late_for-SameTime,
  penalise-SameTime, store_balance-events,
}

booked :
    (rates : Rates) (c : DebtContract) (i now : ℕ) (db : Db)
    → any_of
        (is_of_period c.id i EventType.period_interest)
        (db.events ++ interest_event rates c i now ∷ [])
      ≡ true
booked rates c i now db =
    any_of-append (is_of_period c.id i EventType.period_interest) db.events _
    ∙ rw (==_refl c.id, ==_refl i)
        (last (any_of (is_of_period c.id i EventType.period_interest) db.events))
  where
    last : (b : Bool) → (b || true) ≡ true
    last b = ground arith

-- The same, and the interest of a period is booked.
abbrev IsTicked : ℕ → DebtContract → ℕ → Db → Db → Type 0
IsTicked id c i db d =
    SameTime id db d × (exists_for_period c.id i EventType.period_interest d ≡ true)

module _ (rates : Rates) (id : ℕ) (db : Db) (c : DebtContract) (i : ℕ) where
  accrue-IsTicked :
      (d : Db) → SameTime id db d → Leaves (λ _. IsTicked id c i db) (accrue_interest rates c i d)
  unfolding accrue_interest exists_for_period
  accrue-IsTicked d same = Leaves-now_utc _ d (
      Leaves-gets _ _ d (
        Leaves-raise_if _ _ _ d λ free.
          Leaves-bind (λ _. SameTime id db) _ _ d ((recompute-SameTime id db c.id).keeps d same)
            λ before e done same'. Leaves-modify _ _ e (
              Leaves-last _ _ (
                Leaves-modify _ _ _ (
                  Leaves-pure tt _ (
                    store-SameTime id db c.id _ _ same',
                    ap (any_of (is_of_period c.id i EventType.period_interest))
                          (store_balance-events c.id _ _)
                        ∙ booked rates c i d.clock e,
                  ))))))

  notify-IsTicked :
      (u : ℕ) (t : NotificationType) (j : ℕ) → Keeps (IsTicked id c i db) (notify u t j)
  unfolding notify exists_for_period
  notify-IsTicked u t j = search (keep_rules, Keeps-modify)

  tick_period-IsTicked : Leaves (λ _. IsTicked id c i db) (tick_period rates c i db)
  unfolding tick_period
  tick_period-IsTicked =
      Leaves-bind (λ _. SameTime id db) _ _ db
        ((is_late_for-SameTime id db _ c _).keeps db (refl, refl))
        λ is_late d _ same.
          Leaves-bind (λ _. SameTime id db) _ _ d
            ((Keeps-when is_late _ (penalise-SameTime id db c _)).keeps d same)
            λ _ e _ same'.
              Leaves-bind (λ _. IsTicked id c i db) _ _ e (accrue-IsTicked e same')
                λ _ f _ ticked.
                  Leaves-bind (λ _. IsTicked id c i db) _ _ f
                    ((notify-IsTicked _ _ _).keeps f ticked) λ _ g _ still. Leaves-pure true g still

or_of : (a b : Bool) → b ≡ true → (a || b) ≡ true
or_of a b h = ground arith

module _ (rates : Rates) (london : London) (id : ℕ) where
  -- A contract whose period has its interest is left as it is.
  idle :
      (d : Db) (c : DebtContract)
      → find_row id d.contracts ≡ some c
      → (current_period_index london c d.clock == 0
          || exists_for_period c.id
              (current_period_index london c d.clock)
              EventType.period_interest
              d)
        ≡ true
      → tick_contract rates london id d ≡ ok (false, d)
  unfolding tick_contract get_contract_or_404 tick_unless ◌>>=◌
  idle d c found done = rw found (rw done refl)

  is_done : Timing → ℕ → Db → Bool
  is_done t now d =
      exists_for_period t.id
        (periods_since t.frequency (signed_date london t.signed_at) (london_date london now))
        EventType.period_interest d

  ticked_again :
      (d : Db) (c : DebtContract)
      → is_done (of_contract c) d.clock d ≡ true
      → (o : Option DebtContract) → find_row id d.contracts ≡ o
      → timing o ≡ some (of_contract c)
      → tick_contract rates london id d ≡ ok (false, d)
  unfolding current_period_index is_done
  ticked_again d c done none h t = cc
  ticked_again d c done (some c') h t = idle d c' h (
      or_of (current_period_index london c' d.clock == 0) _
        (subst (λ x. is_done x d.clock d ≡ true) (some_inj (sym t)) done))

  -- Interest for a period is booked at most once: after a tick of a contract that succeeds, whatever it
  -- has done, another one at the same time does nothing and changes nothing, whatever the rates are.
  pub tick_contract-once :
      (db : Db)
      → Leaves
          (λ _ d. tick_contract rates london id d ≡ ok (false, d))
          (tick_contract rates london id db)
  unfolding tick_contract tick_unless current_period_index is_done
  tick_contract-once db = Leaves-contract id _ db λ c found. Leaves-now_utc _ db (
      Leaves-gets _ _ db
        (elim (Bool-cases (
          current_period_index london c db.clock == 0
          || exists_for_period c.id (current_period_index london c db.clock)
              EventType.period_interest db)) [
                | inl none_due ↦ rw none_due (Leaves-pure false db (idle db c found none_due))
                | inr due ↦ rw due (
                    Leaves-weaken _
                      (tick_period-IsTicked rates id db c (current_period_index london c db.clock))
                      λ b d h. ticked_again d c (at d c h.0.1 h.1) _ refl (h.0.0 ∙ ap timing found))
              ]))
    where
      at :
          (d : Db) (c : DebtContract)
          → d.clock ≡ db.clock
          → exists_for_period c.id
              (current_period_index london c db.clock)
              EventType.period_interest
              d
            ≡ true
          → is_done (of_contract c) d.clock d ≡ true
      at d c clock done = subst (λ now. is_done (of_contract c) now d ≡ true) (sym clock) done
