-- ===== src/Model/Leaves.antt =====
-- Rules for what a handler leaves behind when it succeeds, one for each way to build an action. The
-- rest of the block may use what the action before it has tested or found.
use debt_collector.Common.{
  ap, ℕ, ◌+◌, ◌≡◌, refl, Bool, true, false, Option, none, some, List, [], ◌∷◌, subst, sym, ◌∙◌,
  some_inj,
}
use debt_collector.Model.Store.{
  Db, Result, ok, err, AppError, Action, Done, pure, raise, gets, or_raise, one_or_none, raise_if,
  modify, when, fresh_id, now_utc, ◌>>=◌, continue,
}

-- If `r` is a success, its result and its database satisfy `P`.
pub record Leaves {A : Type 0} (P : A → Db → Type 0) (r : Result (A × Db)) : Type 0 where
  pub at : (a : A) (db : Db) → r ≡ ok (a, db) → P a db

abbrev Holds : {A : Type 0} → (A → Db → Type 0) → Result (A × Db) → Type 0
Holds P (ok r) = P r.0 r.1
Holds P (err _) = Unit

module _ {A : Type 0} {P : A → Db → Type 0} where
  pub Leaves-ok : (a : A) (db : Db) → P a db → Leaves P (ok (a, db))
  Leaves-ok a db h = record { at = λ b d e. subst (Holds P) e h }

  pub Leaves-err : (e : AppError) → Leaves P (err e)
  Leaves-err e = record { at = λ b d h. cc }

  pub Leaves-pure : (a : A) (db : Db) → P a db → Leaves P (pure a db)
  unfolding pure
  Leaves-pure a db h = Leaves-ok a db h

  pub Leaves-raise : (e : AppError) (db : Db) → Leaves P (raise e db)
  unfolding raise
  Leaves-raise e db = Leaves-err e

pub Leaves-weaken :
    {A : Type 0} {P Q : A → Db → Type 0} (r : Result (A × Db))
    → Leaves P r
    → ((a : A) (d : Db) → P a d → Q a d)
    → Leaves Q r
Leaves-weaken r l h = record { at = λ a d e. h a d (l.at a d e) }

module _ {A B : Type 0} {P : B → Db → Type 0} where
  continue-Leaves :
      (Q : A → Db → Type 0) (r : Result (A × Db)) (k : A → Action B)
      → Leaves Q r
      → ((a : A) (d : Db) → r ≡ ok (a, d) → Q a d → Leaves P (k a d))
      → Leaves P (continue r k)
  continue-Leaves Q (ok (a, d)) k l next = next a d refl (l.at a d refl)
  continue-Leaves Q (err e) k l next = Leaves-err e

  -- What the first action leaves is known to the rest.
  pub Leaves-bind :
      (Q : A → Db → Type 0) (m : Action A) (k : A → Action B) (db : Db)
      → Leaves Q (m db)
      → ((a : A) (d : Db) → m db ≡ ok (a, d) → Q a d → Leaves P (k a d))
      → Leaves P ((m >>= k) db)
  unfolding ◌>>=◌
  Leaves-bind Q m k db l next = continue-Leaves Q (m db) k l next

  pub Leaves-pure_bind :
      (a : A) (k : A → Action B) (db : Db) → Leaves P (k a db) → Leaves P ((pure a >>= k) db)
  unfolding ◌>>=◌
  Leaves-pure_bind a k db h = h

  pub Leaves-raise_bind :
      (e : AppError) (k : A → Action B) (db : Db) → Leaves P ((raise e >>= k) db)
  unfolding ◌>>=◌
  Leaves-raise_bind e k db = Leaves-err e

  pub Leaves-gets :
      (f : Db → A) (k : A → Action B) (db : Db)
      → Leaves P (k (f db) db)
      → Leaves P ((gets f >>= k) db)
  unfolding ◌>>=◌
  Leaves-gets f k db h = h

  pub Leaves-or_raise :
      (o : Option A) (e : AppError) (k : A → Action B) (db : Db)
      → ((a : A) → o ≡ some a → Leaves P (k a db))
      → Leaves P ((or_raise o e >>= k) db)
  unfolding ◌>>=◌
  Leaves-or_raise none e k db h = Leaves-err e
  Leaves-or_raise (some a) e k db h = h a refl

  pub Leaves-found :
      (o : Option A) (a : A) (e : AppError) (k : A → Action B) (db : Db)
      → o ≡ some a
      → Leaves P (k a db)
      → Leaves P ((or_raise o e >>= k) db)
  Leaves-found o a e k db at h =
      Leaves-or_raise o e k db λ b is_b. subst (λ x. Leaves P (k x db)) (some_inj (sym at ∙ is_b)) h

  pub Leaves-one_or_none :
      (l : List A) (k : Option A → Action B) (db : Db)
      → ((o : Option A) → Leaves P (k o db))
      → Leaves P ((one_or_none l >>= k) db)
  unfolding ◌>>=◌
  Leaves-one_or_none [] k db h = h none
  Leaves-one_or_none (a ∷ []) k db h = h (some a)
  Leaves-one_or_none (a ∷ b ∷ r) k db h = Leaves-err AppError.multiple_results

module _ {A B C : Type 0} {P : B → Db → Type 0} where
  continue_assoc :
      (r : Result (C × Db)) (f : C → Action A) (k : A → Action B)
      → Leaves P (continue r (λ c. f c >>= k))
      → Leaves P (continue (continue r f) k)
  unfolding ◌>>=◌
  continue_assoc (ok s) f k h = h
  continue_assoc (err e) f k h = h

  pub Leaves-assoc :
      (m : Action C) (f : C → Action A) (k : A → Action B) (db : Db)
      → Leaves P ((m >>= λ c. f c >>= k) db)
      → Leaves P ((m >>= f >>= k) db)
  unfolding ◌>>=◌
  Leaves-assoc m f k db h = continue_assoc (m db) f k h

module _ {B : Type 0} {P : B → Db → Type 0} where
  pub Leaves-raise_if :
      (b : Bool) (e : AppError) (k : Done → Action B) (db : Db)
      → (b ≡ false → Leaves P (k tt db))
      → Leaves P ((raise_if b e >>= k) db)
  unfolding ◌>>=◌
  Leaves-raise_if true e k db h = Leaves-err e
  Leaves-raise_if false e k db h = h refl

  pub Leaves-modify :
      (f : Db → Db) (k : Done → Action B) (db : Db)
      → Leaves P (k tt (f db))
      → Leaves P ((modify f >>= k) db)
  unfolding ◌>>=◌
  Leaves-modify f k db h = h

  pub Leaves-when :
      (b : Bool) (m : Action Done) (k : Done → Action B) (db : Db)
      → (b ≡ true → Leaves P ((m >>= k) db))
      → (b ≡ false → Leaves P (k tt db))
      → Leaves P ((when b m >>= k) db)
  unfolding ◌>>=◌
  Leaves-when true m k db h g = h refl
  Leaves-when false m k db h g = g refl

  pub Leaves-fresh_id :
      (k : ℕ → Action B) (db : Db)
      → Leaves P (k db.next_id (record db { next_id = db.next_id + 1 }))
      → Leaves P ((fresh_id >>= k) db)
  unfolding ◌>>=◌
  Leaves-fresh_id k db h = h

  pub Leaves-now_utc :
      (k : ℕ → Action B) (db : Db) → Leaves P (k db.clock db) → Leaves P ((now_utc >>= k) db)
  unfolding ◌>>=◌
  Leaves-now_utc k db h = h

-- The last action of a block, as one with nothing after it.
continue-last :
    {A : Type 0} {P : A → Db → Type 0} (r : Result (A × Db))
    → Leaves P (continue r pure)
    → Leaves P r
unfolding ◌>>=◌
continue-last (ok s) h = h
continue-last (err e) h = Leaves-err e

pub Leaves-last :
    {A : Type 0} {P : A → Db → Type 0} (m : Action A) (db : Db)
    → Leaves P ((m >>= pure) db)
    → Leaves P (m db)
unfolding ◌>>=◌
Leaves-last m db h = continue-last (m db) h

-- What a lookup of a unique row finds.
module _ {B C : Type 0} {P : C → Db → Type 0} where
  pub Leaves-unique :
      (l : List B) (k : Option B → Action C) (db : Db)
      → ((o : Option B) → ((b : B) → o ≡ some b → l ≡ b ∷ []) → Leaves P (k o db))
      → Leaves P ((one_or_none l >>= k) db)
  unfolding ◌>>=◌
  Leaves-unique [] k db h = h none λ b e. cc
  Leaves-unique (b ∷ []) k db h = h (some b) λ x e. ap (λ y. y ∷ []) (some_inj e)
  Leaves-unique (b ∷ c ∷ l) k db h = Leaves-err AppError.multiple_results
