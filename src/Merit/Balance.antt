-- ===== src/Merit/Balance.antt =====
-- The balances of server/daos/merit_event_dao.py under an insert and a redemption.
use debt_collector.Common.{
  ℕ, ◌+◌, ◌≡◌, refl, sym, ap, ◌∙◌, Bool, true, false, ◌&&◌, not-false, not, some, List, [], ◌∷◌,
  ◌++◌, arith, ◌==◌, ==_refl, Bool-cases, inl, inr, subst,
}
use debt_collector.Common.Int.{ℤ, pos, ◌+ℤ◌, ◌-ℤ◌, ◌≤ℤ◌, ltb_ℤ, int_laws}
use debt_collector.Common.Table.{find_row}
use debt_collector.Common.Lists.{select, select-append, any_of}
use debt_collector.Model.{Db, User, merit_source_enum, MeritEvent, RewardTier}
use debt_collector.Model.Leaves.{
  Leaves, Leaves-bind, Leaves-gets, Leaves-raise_if, Leaves-now_utc, Leaves-modify, Leaves-pure,
  Leaves-fresh_id, Leaves-found,
}
use debt_collector.Merit.{
  same_source, insert_if_free, insert_idempotent, counts_for, sum_deltas, balance_for_sub,
  redeem_reward_as_sub,
}

sum_deltas-append : (l m : List MeritEvent) → sum_deltas (l ++ m) ≡ sum_deltas l +ℤ sum_deltas m
sum_deltas-append [] m = omega int_laws
sum_deltas-append (e ∷ l) m = rw (sum_deltas-append l m) (omega int_laws)

-- What an inserted event adds to a balance.
abbrev pub share : Bool → ℤ → ℤ
share true delta = delta
share false delta = pos 0

select-one :
    (e : MeritEvent) (s g : ℕ)
    → sum_deltas (select (counts_for s g) (e ∷ [])) ≡ share (counts_for s g e) e.delta
select-one e s g = elim (Bool-cases (counts_for s g e)) [
  | inl mine ↦ rw mine (omega int_laws)
  | inr other ↦ rw other refl
]

pub balance-append :
    (db : Db) (e : MeritEvent) (s g : ℕ)
    → balance_for_sub s g (record db { merit_events = db.merit_events ++ e ∷ [] })
      ≡ balance_for_sub s g db +ℤ share (counts_for s g e) e.delta
unfolding balance_for_sub
balance-append db e s g =
    ap sum_deltas (select-append (counts_for s g) db.merit_events (e ∷ []))
    ∙ (sum_deltas-append _ _
        ∙ ap (λ x. sum_deltas (select (counts_for s g) db.merit_events) +ℤ x) (select-one e s g))

-- An event's source has an event already.
abbrev pub is_taken : MeritEvent → Db → Bool
is_taken e db = any_of (same_source e.source_kind e.source_id) db.merit_events

-- An event is inserted when its source is free, and changes a balance by its delta when it is inserted
-- and counts for it.
pub insert_idempotent-balance :
    (e : MeritEvent) (s g : ℕ) (db : Db)
    → Leaves
        (λ inserted d.
          (inserted ≡ not (is_taken e db))
          × (balance_for_sub s g d
              ≡ balance_for_sub s g db +ℤ share (inserted && counts_for s g e) e.delta))
        (insert_idempotent e db)
unfolding insert_idempotent
insert_idempotent-balance e s g db = Leaves-gets _ _ db (split (is_taken e db) refl)
  where
    split :
        (taken : Bool)
        → is_taken e db ≡ taken
        → Leaves
            (λ inserted d.
              (inserted ≡ not (is_taken e db))
              × (balance_for_sub s g d
                  ≡ balance_for_sub s g db +ℤ share (inserted && counts_for s g e) e.delta))
            (insert_if_free taken e db)
    split true h = Leaves-pure _ db (rw h refl, omega int_laws)
    split false h = Leaves-modify _ _ db (Leaves-pure _ _ (rw h refl, balance-append db e s g))

debit : (b : ℤ) (cost : ℕ) → b +ℤ (pos 0 -ℤ pos cost) ≡ b -ℤ pos cost
debit b cost = omega int_laws

covered : (b : ℤ) (cost : ℕ) → pos cost ≤ℤ b → pos 0 ≤ℤ (b -ℤ pos cost)
covered b cost h = omega (int_laws, h)

spent :
    (before after : ℤ) (inserted : Bool) (cost u g : ℕ)
    → after ≡ before +ℤ share (inserted && (u == u && g == g)) (pos 0 -ℤ pos cost)
    → inserted ≡ true
    → ltb_ℤ before (pos cost) ≡ false
    → (after ≡ after) × (after ≡ before -ℤ pos cost) × (pos 0 ≤ℤ after)
spent before after inserted cost u g changed done enough =
    let less = changed ∙ (rw (done, ==_refl u, ==_refl g) refl ∙ debit before cost) in
    (refl, less, subst (λ x. pos 0 ≤ℤ x) (sym less) (covered before cost (ground arith)))

-- For a sub with a goddess and a reward that is there: a redemption that succeeds returns the
-- balance that it leaves, which is the one before it less the cost of the reward, and is not
-- negative.
pub redeem_reward-balance :
    (u : User) (reward_id g : ℕ) (tier : RewardTier) (db : Db)
    → u.goddess_id ≡ some g
    → find_row reward_id db.reward_tiers ≡ some tier
    → Leaves
        (λ out d.
          (out.1 ≡ balance_for_sub u.id g d)
          × (out.1 ≡ balance_for_sub u.id g db -ℤ pos tier.cost)
          × (pos 0 ≤ℤ out.1))
        (redeem_reward_as_sub u reward_id db)
unfolding redeem_reward_as_sub balance_for_sub
redeem_reward-balance u reward_id g tier db hers found = Leaves-found _ g _ _ db hers (
    Leaves-gets _ _ db (
      Leaves-found _ tier _ _ db found (
        Leaves-raise_if _ _ _ db λ own. Leaves-raise_if _ _ _ db λ active. Leaves-gets _ _ db (
          Leaves-raise_if _ _ _ db λ enough. Leaves-now_utc _ db (
            Leaves-fresh_id _ db (
              Leaves-modify _ _ _ (
                Leaves-bind _ _ _ _
                  (insert_idempotent-balance _ u.id g
                    (record db { next_id = db.next_id + 1; redemptions = _ }))
                  λ inserted d done (_, changed). Leaves-raise_if _ _ _ d λ fresh.
                    Leaves-gets _ _ d (
                      Leaves-pure _ d (
                        spent (balance_for_sub u.id g db) (balance_for_sub u.id g d) inserted
                          tier.cost u.id g changed (not-false _ fresh) enough)))))))))
