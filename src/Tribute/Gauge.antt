-- ===== src/Tribute/Gauge.antt =====
-- server/controllers/tribute_minimum_controller.py: what the colour of the gauge says.
use debt_collector.Common.{
  ℕ, ◌+◌, ◌*◌, ◌≤◌, ◌<◌, ◌≡◌, refl, true, inl, inr, some, arith, ltb, Bool-cases,
}
use debt_collector.Common.Rounding.{round_half_even, round_half_even-near}
use debt_collector.Common.Table.{find_row}
use debt_collector.Calendar.{London}
use debt_collector.Model.{User, TributeMinimum, Db, Action, ◌>>=◌}
use debt_collector.Model.Leaves.{
  Leaves, Leaves-gets, Leaves-raise_if, Leaves-now_utc, Leaves-pure, Leaves-assoc, Leaves-pure_bind,
}
use debt_collector.Session.Leaves.{Leaves-goddess}
use debt_collector.Tribute.{GaugeColor, ratio_of, compute_color, verify_sub, gauge}
use native.Mathlib.Nat.{mul-le-mul_left}

-- What a colour says of an amount, a target and a grace in ten-thousandths of the target. The ratio is
-- rounded, which may hide half a ten-thousandth of the target.
abbrev pub Says : GaugeColor → ℕ → ℕ → ℕ → Type 0
Says GaugeColor.green actual target grace = 20000 * target ≤ 20000 * actual + target
Says GaugeColor.amber actual target grace =
    (20000 * actual + target ≤ 20000 * target) × (2 * (target * grace) ≤ 20000 * actual + target)
Says GaugeColor.red actual target grace = 20000 * actual + target ≤ 2 * (target * grace)

module _ (actual target grace r : ℕ) where
  color-Says :
      2 * (target * r) ≤ 2 * (actual * 10000) + target
      → 2 * (actual * 10000) ≤ 2 * (target * r) + target
      → Says (compute_color (some r) grace) actual target grace
  unfolding compute_color
  color-Says low high = elim (Bool-cases (ltb r grace)) [
    | inl below ↦ rw below (
        omega (arith, high, mul-le-mul_left {m = r + 1} {n = grace} target (ground (arith, below))))
    | inr enough ↦ elim (Bool-cases (ltb r 10000)) [
      | inl short ↦
          rw (enough, short)
            (
              omega (
                arith,
                high,
                mul-le-mul_left {m = r + 1} {n = 10000} target (ground (arith, short)),
              ),
              omega (
                arith,
                low,
                high,
                mul-le-mul_left {m = grace} {n = r} target (ground (arith, enough)),
              ),
            )
      | inr full ↦
          rw (enough, full)
            (omega
              (arith, low, high, mul-le-mul_left {m = 10000} {n = r} target (ground (arith, full))))
    ]
  ]

compute_color-Says :
    (actual target grace : ℕ)
    → 0 < target
    → Says (compute_color (ratio_of (some target) actual) grace) actual target grace
unfolding ratio_of
compute_color-Says actual target grace positive =
    let (low, high) = round_half_even-near (actual * 10000) target positive in
    rw (below) (color-Says actual target grace (round_half_even (actual * 10000) target) low high)
  where
    below : ltb 0 target ≡ true
    below = ground arith

module _ {B : Type 0} {P : B → Db → Type 0} where
  Leaves-verify :
      (u : User) (sub_id : ℕ) (k : ℕ → Action B) (db : Db)
      → ((g : ℕ) → Leaves P (k g db))
      → Leaves P ((verify_sub u sub_id >>= k) db)
  unfolding verify_sub
  Leaves-verify u sub_id k db h = Leaves-assoc _ _ k db (
      Leaves-goddess u.id _ db λ g at. Leaves-assoc _ _ k db (
        Leaves-gets _ _ db (
          Leaves-assoc _ _ k db
            (Leaves-raise_if _ _ _ db λ linked. Leaves-pure_bind g k db (h g)))))

-- For a sub with a positive target, up to half a ten-thousandth of the target: a green gauge means
-- that the target has been paid, an amber one that it has not been paid but the grace part of it has,
-- and a red one that not even this part has been paid; and looking at the gauge changes nothing.
pub gauge-Says :
    (london : London) (u : User) (sub_id : ℕ) (row : TributeMinimum) (db : Db)
    → find_row sub_id db.tribute_minimums ≡ some row
    → 0 < row.amount
    → Leaves
        (λ out d.
          Says out.color out.actual_this_period row.amount row.grace_below_percent × (d ≡ db))
        (gauge london u sub_id db)
unfolding gauge
gauge-Says london u sub_id row db found positive = Leaves-verify u sub_id _ db λ g.
    Leaves-gets _ _ db (
      Leaves-now_utc _ db (
        Leaves-gets _ _ db (
          Leaves-pure _ db
            (rw found (compute_color-Says _ row.amount row.grace_below_percent positive), refl))))
