-- ===== src/Debt/Resave.antt =====
-- When a change of clauses voids the signature: `_normalize_clauses` and the comparison of signatures
-- in server/controllers/debt/controller.py.
use debt_collector.Common.{
  ℕ, ◌+◌, ◌≡◌, refl, ap, ◌∙◌, Bool, true, false, ◌&&◌, not, List, [], ◌∷◌, arith, ==_refl,
}
use text.Mathlib.Text.{◌==◌ as str_eq}
use debt_collector.Debt.Clauses.{
  ContractClauseIn, clause_id, next_after, normalize_from, sort_clauses, insert_clause,
  same_clauses, clauses_differ,
}
use debt_collector.Model.{ContractClause}

-- The requests have the same labels and bodies in the same order.
abbrev pub same_texts : List ContractClauseIn → List ContractClauseIn → Bool
same_texts [] [] = true
same_texts (c ∷ cs) (d ∷ ds) = str_eq c.label d.label && str_eq c.body d.body && same_texts cs ds
same_texts _ _ = false

insert-first :
    (c : ContractClause) (n : ℕ) (cs : List ContractClauseIn)
    → insert_clause c (normalize_from (c.sort_order + 1) n cs)
      ≡ c ∷ normalize_from (c.sort_order + 1) n cs
unfolding normalize_from
insert-first c n [] = refl
insert-first c n (d ∷ ds) = ground arith

-- Clauses are numbered in the order of the request, so that sorting them changes nothing.
sort-normalize_from :
    (i n : ℕ) (cs : List ContractClauseIn)
    → sort_clauses (normalize_from i n cs) ≡ normalize_from i n cs
unfolding normalize_from sort_clauses
sort-normalize_from i n [] = refl
sort-normalize_from i n (c ∷ cs) =
    ap
      (insert_clause
        (record { id = clause_id c.id n; label = c.label; body = c.body; sort_order = i }))
      (sort-normalize_from (i + 1) (next_after c.id n) cs)
    ∙ insert-first _ (next_after c.id n) cs

same_clauses-normalize_from :
    (i m n : ℕ) (cs ds : List ContractClauseIn)
    → same_clauses (normalize_from i m cs) (normalize_from i n ds) ≡ same_texts cs ds
unfolding normalize_from same_clauses
same_clauses-normalize_from i m n [] [] = refl
same_clauses-normalize_from i m n [] (d ∷ ds) = refl
same_clauses-normalize_from i m n (c ∷ cs) [] = refl
same_clauses-normalize_from i m n (c ∷ cs) (d ∷ ds) = ground (
  arith,
  ==_refl i,
  same_clauses-normalize_from (i + 1) (next_after c.id m) (next_after d.id n) cs ds,
)

-- Clauses that are saved over others, each normalised from its request, count as changed exactly when
-- a label, a body, the order or the number of the clauses differs, whatever ids they have.
pub clauses_differ-same_texts :
    (m n : ℕ) (cs ds : List ContractClauseIn)
    → clauses_differ (normalize_from 0 m cs) (normalize_from 0 n ds) ≡ not (same_texts cs ds)
unfolding clauses_differ
clauses_differ-same_texts m n cs ds =
    rw (sort-normalize_from 0 m cs, sort-normalize_from 0 n ds)
      (ap not (same_clauses-normalize_from 0 m n cs ds))
