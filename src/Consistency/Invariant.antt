-- ===== src/Consistency/Invariant.antt =====
-- What the tables of contracts, events and adjustments have to agree on.
use debt_collector.Common.{
  ℕ, ◌≤◌, ◌<◌, ◌≡◌, ◌≢◌, ◌∙◌, Bool, true, false, ◌||◌, some, List, [], ◌∷◌, ◌++◌, ◌==◌, ==_iff,
  ◌is◌, Bool-cases, inl, inr, append-nil,
}
use debt_collector.Common.Table.{Table, find_row, Distinct}
use debt_collector.Common.Lists.{select-append}
use debt_collector.Model.{
  Db, DebtContract, DebtContractStatus, contract_status_enum, DebtEvent, ContractAdjustment,
}
use debt_collector.Ledger.{events_of, replay_events}

-- The statuses before a first version of the terms is settled: no money has moved yet.
abbrev pub is_negotiating : DebtContractStatus → Bool
is_negotiating s =
    (s is DebtContractStatus.pending_sub)
    || (s is DebtContractStatus.pending_dom)
    || (s is DebtContractStatus.pending_dom_counter)

-- A contract under its id: its balance is its principal with its events replayed over it, and it
-- has no event while it is negotiated.
pub record RowOk (es : List DebtEvent) (k : ℕ) (c : DebtContract) : Type 0 where
  pub keyed : c.id ≡ k
  pub balanced : c.balance ≡ replay_events c.principal (events_of k es)
  pub quiet : is_negotiating c.status ≡ true → events_of k es ≡ []

pub record LedgerOk (cs : Table DebtContract) (es : List DebtEvent)
    (adjs : Table ContractAdjustment) (n : ℕ) : Type 0 where
  pub distinct : Distinct cs
  pub row_ok : (k : ℕ) (c : DebtContract) → find_row k cs ≡ some c → RowOk es k c
  pub known : (k : ℕ) (c : DebtContract) → find_row k cs ≡ some c → k < n
  pub no_events : (k : ℕ) → n ≤ k → events_of k es ≡ []
  pub adjusted_known :
      (i : ℕ) (a : ContractAdjustment) → find_row i adjs ≡ some a → a.contract_id < n
  pub adjusted_signed :
      (i : ℕ) (a : ContractAdjustment) (c : DebtContract)
      → find_row i adjs ≡ some a
      → find_row a.contract_id cs ≡ some c
      → is_negotiating c.status ≡ false

-- Every contract's balance is the replay of its events; ids are unique and come from the supply; what is
-- still negotiated has neither events nor adjustments.
abbrev pub IsConsistent : Db → Type 0
IsConsistent db = LedgerOk db.contracts db.events db.adjustments db.next_id

pub events_of-append_other :
    (j : ℕ) (es : List DebtEvent) (e : DebtEvent)
    → e.contract_id ≢ j
    → events_of j (es ++ e ∷ []) ≡ events_of j es
events_of-append_other j es e h = select-append (λ x. x.contract_id == j) es (e ∷ []) ∙ last
  where
    last : events_of j es ++ events_of j (e ∷ []) ≡ events_of j es
    last = elim (Bool-cases (e.contract_id == j)) [
      | inl same ↦ absurd (h ((==_iff _ _).0 same))
      | inr other ↦ rw other (append-nil _)
    ]
