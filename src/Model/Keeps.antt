-- ===== src/Model/Keeps.antt =====
-- Actions that keep an invariant of the database whatever they are run on, and how they are put
-- together. The rules are for `search`.
use debt_collector.Common.{◌+◌, Bool, true, false, Option, none, some, List, [], ◌∷◌}
use debt_collector.Model.Store.{
  Db, Action, Done, AppError, pure, raise, gets, or_raise, one_or_none, raise_if, modify, when,
  fresh_id, now_utc, ◌>>=◌,
}
use debt_collector.Model.Leaves.{Leaves, Leaves-bind, Leaves-ok, Leaves-err}

pub record Keeps {A : Type 0} (I : Db → Type 0) (m : Action A) : Type 0 where
  pub keeps : (db : Db) → I db → Leaves (λ _. I) (m db)

module _ {I : Db → Type 0} {A : Type 0} where
  pub Keeps-bind :
      {B : Type 0} (m : Action A) (k : A → Action B)
      → Keeps I m
      → ((a : A) → Keeps I (k a))
      → Keeps I (m >>= k)
  Keeps-bind m k hm hk = record {
    keeps =
        λ db inv. Leaves-bind (λ _. I) m k db (hm.keeps db inv) λ a d e inv'. (hk a).keeps d inv';
  }

  pub Keeps-pure : (a : A) → Keeps I (pure a)
  unfolding ◌>>=◌
  Keeps-pure a = record { keeps = λ db inv. Leaves-ok a db inv }

  pub Keeps-raise : (e : AppError) → Keeps I (raise {A = A} e)
  unfolding ◌>>=◌
  Keeps-raise e = record { keeps = λ db inv. Leaves-err e }

  pub Keeps-gets : (f : Db → A) → Keeps I (gets f)
  unfolding ◌>>=◌
  Keeps-gets f = record { keeps = λ db inv. Leaves-ok (f db) db inv }

  pub Keeps-or_raise : (o : Option A) (e : AppError) → Keeps I (or_raise o e)
  unfolding ◌>>=◌
  Keeps-or_raise none e = record { keeps = λ db inv. Leaves-err e }
  Keeps-or_raise (some a) e = record { keeps = λ db inv. Leaves-ok a db inv }

  pub Keeps-one_or_none : (l : List A) → Keeps I (one_or_none l)
  unfolding ◌>>=◌
  Keeps-one_or_none [] = record { keeps = λ db inv. Leaves-ok none db inv }
  Keeps-one_or_none (a ∷ []) = record { keeps = λ db inv. Leaves-ok (some a) db inv }
  Keeps-one_or_none (a ∷ b ∷ r) = record { keeps = λ db inv. Leaves-err AppError.multiple_results }

module _ {I : Db → Type 0} where
  pub Keeps-raise_if : (b : Bool) (e : AppError) → Keeps I (raise_if b e)
  unfolding ◌>>=◌
  Keeps-raise_if true e = record { keeps = λ db inv. Leaves-err e }
  Keeps-raise_if false e = record { keeps = λ db inv. Leaves-ok tt db inv }

  pub Keeps-when : (b : Bool) (m : Action Done) → Keeps I m → Keeps I (when b m)
  unfolding ◌>>=◌
  Keeps-when true m h = record { keeps = λ db inv. h.keeps db inv }
  Keeps-when false m h = record { keeps = λ db inv. Leaves-ok tt db inv }

  pub Keeps-now_utc : Keeps I now_utc
  unfolding ◌>>=◌
  Keeps-now_utc = record { keeps = λ db inv. Leaves-ok _ db inv }

  pub Keeps-fresh_id :
      ((db : Db) → I db → I (record db { next_id = db.next_id + 1 })) → Keeps I fresh_id
  unfolding ◌>>=◌
  Keeps-fresh_id h = record { keeps = λ db inv. Leaves-ok _ _ (h db inv) }

  pub Keeps-modify : (f : Db → Db) → ((db : Db) → I db → I (f db)) → Keeps I (modify f)
  unfolding ◌>>=◌
  Keeps-modify f h = record { keeps = λ db inv. Leaves-ok tt _ (h db inv) }

pub ruleset keep_rules = (
  Keeps-bind, Keeps-pure, Keeps-raise, Keeps-gets, Keeps-or_raise, Keeps-one_or_none,
  Keeps-raise_if, Keeps-when, Keeps-now_utc,
)

-- With the writes, which the goal's hypotheses have to allow.
pub ruleset write_rules = (keep_rules, Keeps-fresh_id, Keeps-modify)
