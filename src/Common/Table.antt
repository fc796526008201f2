-- ===== src/Common/Table.antt =====
-- A database table: rows by primary key, in insertion order.
use debt_collector.Common.{
  ==_refl, ◌++◌, ap, sym, ◌∙◌, ==_iff, ℕ, Bool, ◌≡◌, refl, Option, none, some, List, [], ◌∷◌, arith,
  ◌==◌, ◌≢◌, ◌⊎◌, inl, inr, subst, Bool-cases, if◌then◌else◌,
}
use debt_collector.Common.Lists.{select}

abbrev pub Table {ℓ} : Type ℓ → Type ℓ
Table V = List (ℕ × V)

module _ {ℓ} {V : Type ℓ} where
  -- `session.get(Model, id)`
  abbrev pub find_row : ℕ → Table V → Option V
  find_row k [] = none
  find_row k ((j, v) ∷ t) = if j == k then some v else find_row k t

  -- `session.add(row)` and a flush: a new row at the end, or the changed row in its place.
  abbrev pub put_row : ℕ → V → Table V → Table V
  put_row k v [] = (k, v) ∷ []
  put_row k v ((j, w) ∷ t) = if j == k then (j, v) ∷ t else (j, w) ∷ put_row k v t

  -- `session.delete(row)` and a flush.
  abbrev pub remove_row : ℕ → Table V → Table V
  remove_row k [] = []
  remove_row k ((j, v) ∷ t) = if j == k then remove_row k t else (j, v) ∷ remove_row k t

  -- The rows of a query are deleted.
  abbrev pub remove_where : (V → Bool) → Table V → Table V
  remove_where test [] = []
  remove_where test ((j, v) ∷ t) =
      if test v then remove_where test t else (j, v) ∷ remove_where test t

  -- `UPDATE ... WHERE`
  abbrev pub update_where : (V → Bool) → (V → V) → Table V → Table V
  update_where test f [] = []
  update_where test f ((j, v) ∷ t) = (j, if test v then f v else v) ∷ update_where test f t

  abbrev pub rows : Table V → List V
  rows [] = []
  rows ((j, v) ∷ t) = v ∷ rows t

  pub find_row-put_row :
      (k j : ℕ) (v : V) (t : Table V)
      → find_row j (put_row k v t) ≡ (if k == j then some v else find_row j t)
  find_row-put_row k j v [] = refl
  find_row-put_row k j v ((i, w) ∷ t) = ground (arith, find_row-put_row k j v t)

  -- A row that is found after a write is the row written, or was there under another key.
  pub put_row-cases :
      (k j : ℕ) (v x : V) (t : Table V)
      → find_row j (put_row k v t) ≡ some x
      → ((k ≡ j) × (v ≡ x)) ⊎ ((k ≢ j) × (find_row j t ≡ some x))
  put_row-cases k j v x t e = written (subst (λ o. o ≡ some x) (find_row-put_row k j v t) e)
    where
      written :
          (if k == j then some v else find_row j t) ≡ some x
          → ((k ≡ j) × (v ≡ x)) ⊎ ((k ≢ j) × (find_row j t ≡ some x))
      written h = elim (Bool-cases (k == j)) [
        | inl same ↦ inl (ground arith, ground arith)
        | inr other ↦ inr (ground arith, ground arith)
      ]

  pub find_row-put_row_self : (k : ℕ) (v : V) (t : Table V) → find_row k (put_row k v t) ≡ some v
  find_row-put_row_self k v t = ground (arith, find_row-put_row k k v t)

  pub find_row-put_row_other :
      (k j : ℕ) (v : V) (t : Table V) → k ≢ j → find_row j (put_row k v t) ≡ find_row j t
  find_row-put_row_other k j v t other = find_row-put_row k j v t ∙ shut
    where
      shut : (if k == j then some v else find_row j t) ≡ find_row j t
      shut = elim (Bool-cases (k == j)) [
        | inl same ↦ absurd (other ((==_iff k j).0 same))
        | inr apart ↦ rw apart refl
      ]

  -- A primary key.
  abbrev pub Distinct : Table V → Type ℓ
  Distinct [] = Unit
  Distinct ((j, v) ∷ t) = (find_row j t ≡ none) × Distinct t

  pub Distinct-put_row : (k : ℕ) (v : V) (t : Table V) → Distinct t → Distinct (put_row k v t)
  Distinct-put_row k v [] h = (refl, tt)
  Distinct-put_row k v ((j, w) ∷ t) (new, rest) = elim (Bool-cases (j == k)) [
    | inl same ↦ rw same (new, rest)
    | inr other ↦ rw other (
      find_row-put_row_other k j v t (λ e. grind (arith, ==_iff j k, other, e)) ∙ new,
      Distinct-put_row k v t rest,
    )
  ]

  -- A row under a new key is the last one.
  pub put_row-new :
      (k : ℕ) (v : V) (t : Table V) → find_row k t ≡ none → put_row k v t ≡ t ++ (k, v) ∷ []
  put_row-new k v [] new = refl
  put_row-new k v ((j, w) ∷ t) new = elim (Bool-cases (j == k)) [
    | inl same ↦ grind (arith, new, same)
    | inr other ↦ rw other (ap (λ x. (j, w) ∷ x) (put_row-new k v t (sym (rw other refl) ∙ new)))
  ]

  abbrev first : List V → Option V
  first [] = none
  first (v ∷ l) = some v

  -- The row that a query by a unique column finds stands under a key.
  pub select-found :
      (test : V → Bool) (v : V) (t : Table V)
      → Distinct t
      → select test (rows t) ≡ v ∷ []
      → (k : ℕ) × (find_row k t ≡ some v)
  select-found test v [] d e = cc
  select-found test v ((j, w) ∷ t) (new, d) e = elim (Bool-cases (test w)) [
    | inl hit ↦ (
      j,
      rw (==_refl j) (
          ap first (
            subst (λ b. (if b then w ∷ select test (rows t) else select test (rows t)) ≡ v ∷ []) hit
              e)),
    )
    | inr miss ↦
        let (k, at) = select-found test v t d (
          subst (λ b. (if b then w ∷ select test (rows t) else select test (rows t)) ≡ v ∷ []) miss
            e) in
        (k, apart k at)
  ]
    where
      apart : (i : ℕ) → find_row i t ≡ some v → find_row i ((j, w) ∷ t) ≡ some v
      apart i at = elim (Bool-cases (j == i)) [
        | inl same ↦ grind (arith, ==_iff j i, new, at, same)
        | inr other ↦ rw other at
      ]

  pub rows-append : (t u : Table V) → rows (t ++ u) ≡ rows t ++ rows u
  rows-append [] u = refl
  rows-append ((j, v) ∷ t) u = ap (λ x. v ∷ x) (rows-append t u)
