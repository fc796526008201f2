-- ===== src/Common/Rounding.antt =====
-- `Decimal.quantize`: a quotient rounded to a whole number of units, half to even (the default of
-- the decimal context) or half up.
use debt_collector.Common.{
  refl, ℕ, ◌+◌, ◌*◌, ◌/◌, ◌%◌, ◌≤◌, ◌⊎◌, inl, inr, ap, ◌<◌, ◌≡◌, arith, ltb, ◌==◌, if◌then◌else◌,
}
use native.Mathlib.Nat.{
  div-add-mod, div-mul-le_self, le-div_iff_mul-le, mod-lt, mul-div_cancel, mul-mod_left,
  mul-div-mul_right, mul-le-mul_right, mul-lt-mul_of_pos_right,
}
use debt_collector.Common.Int.{ℤ, pos, negsuc, ◌≤ℤ◌, pos_part, neg_part, sub_ℕ, scale}

-- n / d, half to even.
unfoldable pub round_half_even : ℕ → ℕ → ℕ
round_half_even n d =
    let q = n / d in
    let r = n % d in
    if ltb (2 * r) d then q else if ltb d (2 * r) then q + 1 else if q % 2 == 0 then q else q + 1

-- n / d, half up.
unfoldable pub round_half_up : ℕ → ℕ → ℕ
round_half_up n d = let q = n / d in if ltb (2 * (n % d)) d then q else q + 1

-- `Decimal.quantize` of a / d: the magnitude is rounded, and the sign is kept.
unfoldable pub quantize : ℤ → ℕ → ℤ
quantize a d = sub_ℕ (round_half_even (pos_part a) d) (round_half_even (neg_part a) d)

module _ (n m d : ℕ) (positive : 0 < d) (h : n ≤ m) where
  -- A larger number has a larger quotient, or the same one and a larger remainder.
  div-mod_mono : (n / d < m / d) ⊎ ((n / d ≡ m / d) × (n % d ≤ m % d))
  div-mod_mono = elim quotients [ inl below ↦ inl below | inr same ↦ inr (same, rest same) ]
    where
      q : n / d ≤ m / d
      q = (le-div_iff_mul-le positive).1 (omega (arith, div-mul-le_self n d))

      quotients : (n / d < m / d) ⊎ (n / d ≡ m / d)
      quotients = omega (arith, q)

      rest : n / d ≡ m / d → n % d ≤ m % d
      rest e = omega (arith, div-add-mod n d, div-add-mod m d, ap (λ (k : ℕ). d * k) e)

  pub round_half_even_mono : round_half_even n d ≤ round_half_even m d
  unfolding round_half_even
  round_half_even_mono = elim div-mod_mono [
    | inl below ↦ ground arith
    | inr (same, rest) ↦ rw same (ground arith)
  ]

module _ (n d : ℕ) (positive : 0 < d) where
  -- A whole number of units is kept.
  pub round_half_even-exact : round_half_even (n * d) d ≡ n
  unfolding round_half_even
  round_half_even-exact = ground (arith, mul-div_cancel n positive, mul-mod_left n d)

  -- The quotient, or the one above it, whichever is nearer.
  round_half_even-cases :
      ((round_half_even n d ≡ n / d) × (2 * (n % d) ≤ d))
      ⊎ ((round_half_even n d ≡ n / d + 1) × (d ≤ 2 * (n % d)))
  unfolding round_half_even
  round_half_even-cases = ground arith

  -- The error is at most half a unit.
  pub round_half_even-near :
      (2 * (d * round_half_even n d) ≤ 2 * n + d) × (2 * n ≤ 2 * (d * round_half_even n d) + d)
  round_half_even-near = elim round_half_even-cases [
    | inl (e, h) ↦ rw e (omega (arith, div-add-mod n d))
    | inr (e, h) ↦ rw e (omega (arith, div-add-mod n d, mod-lt n positive))
  ]

le_parts : (a b : ℤ) → a ≤ℤ b → (pos_part a ≤ pos_part b) × (neg_part b ≤ neg_part a)
le_parts a b h = ground arith

pub scale_by_parts :
    (a : ℤ) (k : ℕ)
    → (pos_part (scale a k) ≡ pos_part a * k) × (neg_part (scale a k) ≡ neg_part a * k)
unfolding scale
scale_by_parts (pos n) k = ground arith
scale_by_parts (negsuc n) k = ground arith

pub scale_mono : (a b : ℤ) (k : ℕ) → a ≤ℤ b → scale a k ≤ℤ scale b k
scale_mono a b k h =
    let (pa, na) = scale_by_parts a k in
    let (pb, nb) = scale_by_parts b k in
    let (p, n) = le_parts a b h in rw (pa, na, pb, nb) (grind arith)

-- A whole number of units, counted in the smaller unit, is quantized to itself.
pub quantize-scale : (a : ℤ) (k : ℕ) → 0 < k → quantize (scale a k) k ≡ a
unfolding quantize
quantize-scale a k h =
    let (p, n) = scale_by_parts a k in
    rw (p, n, round_half_even-exact (pos_part a) k h, round_half_even-exact (neg_part a) k h)
      (ground arith)

-- A larger amount is quantized to no smaller one.
pub quantize_mono : (a b : ℤ) (d : ℕ) → 0 < d → a ≤ℤ b → quantize a d ≤ℤ quantize b d
unfolding quantize
quantize_mono a b d h le =
    let (p, n) = le_parts a b le in
    ground (
      arith,
      round_half_even_mono (pos_part a) (pos_part b) d h p,
      round_half_even_mono (neg_part b) (neg_part a) d h n,
    )

module _ (n d k : ℕ) (positive : 0 < d) (more : 0 < k) where
  rest_of_multiples : n * k % (d * k) ≡ n % d * k
  rest_of_multiples =
      grind
        (arith, div-add-mod n d, div-add-mod (n * k) (d * k), mul-div-mul_right {m = k} n d more)

  ltb-multiples : (a b : ℕ) → ltb (a * k) (b * k) ≡ ltb a b
  ltb-multiples a b = elim (cases a b) [
    | inl below ↦ ground (arith, mul-lt-mul_of_pos_right below more, below)
    | inr above ↦ ground (arith, mul-le-mul_right k above, above)
  ]
    where
      cases : (a b : ℕ) → (a < b) ⊎ (b ≤ a)
      cases a b = omega arith

  -- A common factor does not change the quotient.
  pub round_half_even-multiples : round_half_even (n * k) (d * k) ≡ round_half_even n d
  unfolding round_half_even
  round_half_even-multiples = rw (mul-div-mul_right {m = k} n d more, rest_of_multiples) shut
    where
      twice : (r : ℕ) → 2 * (r * k) ≡ 2 * r * k
      twice r = grind arith

      shut :
          (if ltb (2 * (n % d * k)) (d * k)
            then n / d
            else if ltb (d * k) (2 * (n % d * k))
            then n / d + 1
            else if n / d % 2 == 0
            then n / d
            else n / d + 1)
          ≡ round_half_even n d
      shut =
          rw (twice (n % d))
            (rw (ltb-multiples (2 * (n % d)) d, ltb-multiples d (2 * (n % d))) refl)

pub round_half_up_mono : (n m d : ℕ) → 0 < d → n ≤ m → round_half_up n d ≤ round_half_up m d
unfolding round_half_up
round_half_up_mono n m d positive h = elim (div-mod_mono n m d positive h) [
  | inl below ↦ ground arith
  | inr (same, rest) ↦ rw same (ground arith)
]

-- A whole number of units is kept.
pub round_half_up-exact : (n d : ℕ) → 0 < d → round_half_up (n * d) d ≡ n
unfolding round_half_up
round_half_up-exact n d positive = ground (arith, mul-div_cancel n positive, mul-mod_left n d)
