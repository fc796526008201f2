-- ===== src/Job/Whole.antt =====
-- The interest of server/controllers/cron_controller.py and the replay of server/utils/ledger.py.
use debt_collector.Common.{ℕ, ◌+◌, ◌*◌, ◌≡◌, ◌<◌, refl, some, [], ◌∷◌, ◌++◌, arith, ◌∙◌, sym, subst}
use debt_collector.Common.Int.{ℤ, pos_part, neg_part}
use debt_collector.Common.Table.{find_row}
use debt_collector.Common.Rounding.{
  quantize, round_half_even-multiples, round_half_up, round_half_up-exact, scale_by_parts,
}
use debt_collector.Model.{Db, DebtContract, DebtEvent, Terms, Action, Done, ◌>>=◌}
use debt_collector.Model.Leaves.{
  Leaves, Leaves-now_utc, Leaves-gets, Leaves-raise_if, Leaves-modify, Leaves-assoc, Leaves-found,
  Leaves-pure_bind,
}
use debt_collector.Ledger.{
  multiplicative, apply_op, events_of, replay_events, recompute_balance, store_balance,
}
use debt_collector.Ledger.Apply.{balance_after, balance_after-one, after_event}
use debt_collector.Job.Tick.{Rates, accrued, interest_event, accrue_interest}

-- Every rate that is used is a whole number of ten-thousandths.
pub record IsWhole (rates : Rates) : Type 0 where
  pub parted : 0 < rates.scale
  pub ten_thousandths : (terms : Terms) → (a : ℕ) × (rates.period_rate terms ≡ a * rates.scale)

regroup : (x parts a : ℕ) → x * (10000 * parts + a * parts) ≡ x * (10000 + a) * parts
regroup x parts a = grind arith

-- Interest at a whole number of ten-thousandths is stored as a replay of its event gives it.
accrued-whole :
    (parts a : ℕ) (b : ℤ)
    → 0 < parts
    → accrued parts (a * parts) b ≡ apply_op multiplicative b (round_half_up (a * parts) parts)
unfolding accrued apply_op quantize
accrued-whole parts a b positive =
    let (p, n) = scale_by_parts b (10000 * parts + a * parts) in
    let (p', n') = scale_by_parts b (10000 + a) in
    rw (round_half_up-exact a parts positive) (
      rw (p, n, p', n')
        (rw
          (
            regroup (pos_part b) parts a,
            regroup (neg_part b) parts a,
            round_half_even-multiples (pos_part b * (10000 + a)) 10000 parts (omega arith) positive,
            round_half_even-multiples (neg_part b * (10000 + a)) 10000 parts (omega arith) positive,
          )
          refl))

module _ (rates : Rates) (whole : IsWhole rates) where
  -- The balance that the tick stores is the one that a replay with its event gives.
  accrued-balance_after :
      (db : Db) (c k : DebtContract) (period_index now : ℕ)
      → accrued rates.scale
          (rates.period_rate k.terms)
          (replay_events c.principal (events_of k.id db.events))
        ≡ balance_after db c (interest_event rates k period_index now)
  accrued-balance_after db c k period_index now =
      let (a, is_whole) = whole.ten_thousandths k.terms in
      subst
        (λ (r : ℕ).
          accrued rates.scale r (replay_events c.principal (events_of k.id db.events))
          ≡ apply_op multiplicative (replay_events c.principal (events_of k.id db.events))
              (round_half_up r rates.scale))
        (sym is_whole)
        (accrued-whole rates.scale a (replay_events c.principal (events_of k.id db.events))
          whole.parted)
      ∙ sym (balance_after-one db c (interest_event rates k period_index now))

module _ {B : Type 0} {P : B → Db → Type 0} (rates : Rates) (whole : IsWhole rates) where
  -- Interest on a contract that is there is booked as any other event.
  pub Leaves-accrue :
      (k c : DebtContract) (period_index : ℕ) (next : Done → Action B) (db : Db)
      → find_row k.id db.contracts ≡ some c
      → Leaves P (next tt (after_event db c (interest_event rates k period_index db.clock)))
      → Leaves P ((accrue_interest rates k period_index >>= next) db)
  unfolding accrue_interest recompute_balance store_balance
  Leaves-accrue k c period_index next db found h = Leaves-assoc _ _ next db (
      Leaves-now_utc _ db (
        Leaves-assoc _ _ next db (
          Leaves-gets _ _ db (
            Leaves-assoc _ _ next db (
              Leaves-raise_if _ _ _ db λ free. Leaves-assoc _ _ next db (
                Leaves-assoc _ _ _ db (
                  Leaves-gets _ _ db (
                    Leaves-assoc _ _ _ db (
                      Leaves-found _ c _ _ db found (
                        Leaves-assoc _ _ _ db (
                          Leaves-gets _ _ db (
                            Leaves-pure_bind _ _ db (
                              Leaves-assoc _ _ next db
                                (Leaves-modify _ _ db (Leaves-modify _ next _ stored)))))))))))))))
    where
      before : ℤ
      before = replay_events c.principal (events_of k.id db.events)

      event : DebtEvent
      event = interest_event rates k period_index db.clock

      stored : Leaves P (
          next tt (
            store_balance k.id
              (accrued rates.scale (rates.period_rate k.terms) before)
              (record db { events = db.events ++ event ∷ [] })))
      stored = rw (found, accrued-balance_after rates whole db c k period_index db.clock) h
