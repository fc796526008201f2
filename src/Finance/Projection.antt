-- ===== src/Finance/Projection.antt =====
-- `simulate` and `severe_warning` of server/utils/finance.py: what a projection shows, and what
-- the severe warning says about it.
use debt_collector.Common.{
  ℕ, zero, suc, ◌+◌, ◌*◌, ◌≤◌, ◌<◌, ◌≡◌, refl, ap, true, false, List, [], ◌∷◌, arith, min, ◌==◌,
  if◌then◌else◌, subst, Bool-cases, inl, inr,
}
use debt_collector.Common.Lists.{length}
use debt_collector.Common.Rounding.{round_half_up, round_half_up_mono, round_half_up-exact}
use debt_collector.Model.{Terms}
use debt_collector.Finance.{
  max_iterations, Projected, after_interest, project, simulate_from, simulate, severe_warning,
}

-- From a balance on, the balances at the ends of the periods only fall, or only rise.
abbrev pub Falling : ℕ → List Projected → Type 0
Falling b [] = Unit
Falling b (e ∷ l) = (e.balance_end ≤ b) × Falling e.balance_end l

abbrev pub Rising : ℕ → List Projected → Type 0
Rising b [] = Unit
Rising b (e ∷ l) = (b ≤ e.balance_end) × Rising e.balance_end l

Falling-if :
    (end : ℕ) (l : List Projected) → Falling end l → Falling end (if end == 0 then [] else l)
Falling-if end l h = elim (Bool-cases (end == 0)) [ inl paid ↦ rw paid tt | inr owed ↦ rw owed h ]

owed_on :
    (end n : ℕ) (l : List Projected)
    → 0 < end
    → Rising end l × (length l ≡ n)
    → Rising end (if end == 0 then [] else l) × (length (if end == 0 then [] else l) ≡ n)
owed_on end n l owes h = rw not_paid h
  where
    not_paid : (end == 0) ≡ false
    not_paid = ground arith

positive_factor : (r p x : ℕ) → x < r * p → 0 < p
positive_factor r zero x h = absurd (grind arith)
positive_factor r (suc p) x h = omega arith

module _ (unit rate : ℕ) (positive : 0 < unit) where
  interest_below : (b m : ℕ) → rate * b ≤ m * unit → after_interest unit rate b ≤ b + m
  unfolding after_interest
  interest_below b m h =
      subst (λ y. round_half_up (b * (unit + rate)) unit ≤ y)
        (round_half_up-exact (b + m) unit positive)
        (round_half_up_mono _ _ unit positive (grind arith))

  interest_above : (b m : ℕ) → m * unit ≤ rate * b → b + m ≤ after_interest unit rate b
  unfolding after_interest
  interest_above b m h =
      subst (λ y. y ≤ round_half_up (b * (unit + rate)) unit)
        (round_half_up-exact (b + m) unit positive)
        (round_half_up_mono _ _ unit positive (grind arith))

  project_falls : (b m p : ℕ) → rate * b ≤ m * unit → (project unit rate m p b).balance_end ≤ b
  unfolding project
  project_falls b m p h = ground (arith, interest_below b m h)

  project_rises : (b m p : ℕ) → m * unit ≤ rate * b → b ≤ (project unit rate m p b).balance_end
  unfolding project
  project_rises b m p h = ground (arith, interest_above b m h)

  simulate_from-Falling :
      (m n p b : ℕ) → rate * b ≤ m * unit → Falling b (simulate_from unit rate m n p b)
  unfolding simulate_from
  simulate_from-Falling m zero p b h = tt
  simulate_from-Falling m (suc n) p b h =
      let end = (project unit rate m p b).balance_end in
      let falls = project_falls b m p h in
      (falls, Falling-if end _ (simulate_from-Falling m n (p + 1) end (grind arith)))

  simulate_from-Rising :
      (m n p b : ℕ)
      → 0 < b
      → m * unit ≤ rate * b
      → Rising b (simulate_from unit rate m n p b) × (length (simulate_from unit rate m n p b) ≡ n)
  unfolding simulate_from
  simulate_from-Rising m zero p b owes h = (tt, refl)
  simulate_from-Rising m (suc n) p b owes h =
      let end = (project unit rate m p b).balance_end in
      let rises = project_rises b m p h in
      let (on, full) =
        owed_on end n _ (omega arith)
          (simulate_from-Rising m n (p + 1) end (omega arith) (grind arith)) in
      ((rises, on), ap suc full)

  -- For any rate, in parts of a positive unit: without the severe warning, the projected balance of
  -- a contract never rises.
  pub affordable-Falling :
      (terms : Terms)
      → severe_warning unit rate terms ≡ false
      → Falling terms.principal (simulate unit rate terms)
  unfolding severe_warning simulate
  affordable-Falling terms h =
      simulate_from-Falling terms.minimum_payment _ 1 terms.principal (ground arith)

  -- For any rate, in parts of a positive unit: with the severe warning, the projected balance never
  -- falls, and the projection has an entry for each period of the contract, up to the limit of 520.
  pub severe-Rising :
      (terms : Terms)
      → severe_warning unit rate terms ≡ true
      → Rising terms.principal (simulate unit rate terms)
        × (length (simulate unit rate terms) ≡ min terms.duration_periods max_iterations)
  unfolding severe_warning simulate
  severe-Rising terms h =
      simulate_from-Rising terms.minimum_payment _ 1 terms.principal owes (ground arith)
    where
      owes : 0 < terms.principal
      owes = positive_factor rate terms.principal (terms.minimum_payment * unit) (ground arith)
