-- ===== src/Debt/Clauses.antt =====
-- server/controllers/debt/controller.py: `update_clauses` and its helpers. A stored entry of
-- `clauses_json` has all its fields at their types, as every writer in the server leaves them.
use text.Mathlib.Text.{◌==◌ as str_eq}
use debt_collector.Common.{
  ℕ, ◌+◌, Bool, true, false, ◌&&◌, ◌||◌, not, Option, none, some, List, [], ◌∷◌, ◌==◌, ◌is◌, String,
  leb, if◌then◌else◌,
}
use debt_collector.Model.{
  User, NotificationType, DebtContract, ContractClause, DebtContractEventType, DebtContractStatus,
  contract_status_enum, Action, AppError, raise_if, when, gets, modify, pure, now_utc, ◌>>=◌, ◌>>◌,
}
use debt_collector.Session.{
  resolve_goddess_id, notify, save_contract, append_audit, current_version, get_contract_or_404,
}
use debt_collector.Debt.Propose.{ContractOut, contract_out, audit_row}

-- `_CLAUSES_TERMINAL_STATUSES`
abbrev pub is_terminal : DebtContractStatus → Bool
is_terminal s =
    (s is DebtContractStatus.closed)
    || (s is DebtContractStatus.breached)
    || (s is DebtContractStatus.completed)
    || (s is DebtContractStatus.cancelled_by_dom)

pub record ContractClauseIn : Type 0 where
  pub id : Option ℕ
  pub label : String
  pub body : String

-- `clause.id if clause.id is not None else uuid4()`, with the next id of the supply.
abbrev pub clause_id : Option ℕ → ℕ → ℕ
clause_id none next = next
clause_id (some id) next = id

abbrev pub next_after : Option ℕ → ℕ → ℕ
next_after none next = next + 1
next_after (some id) next = next

-- `_normalize_clauses`, from an index on.
unfoldable pub normalize_from : ℕ → ℕ → List ContractClauseIn → List ContractClause
normalize_from index next [] = []
normalize_from index next (c ∷ cs) =
    record { id = clause_id c.id next; label = c.label; body = c.body; sort_order = index }
    ∷ normalize_from (index + 1) (next_after c.id next) cs

unfoldable pub ids_used : ℕ → List ContractClauseIn → ℕ
ids_used next [] = next
ids_used next (c ∷ cs) = ids_used (next_after c.id next) cs

unfoldable pub normalize_clauses : List ContractClauseIn → Action (List ContractClause)
normalize_clauses clauses = do
  next ← gets (λ db. db.next_id)
  modify (λ db. record db { next_id = ids_used db.next_id clauses })
  pure (normalize_from 0 next clauses)

-- `sorted(..., key=lambda t: t[2])`: a stable sort by `sort_order`.
abbrev pub insert_clause : ContractClause → List ContractClause → List ContractClause
insert_clause c [] = c ∷ []
insert_clause c (d ∷ ds) =
    if leb c.sort_order d.sort_order then c ∷ d ∷ ds else d ∷ insert_clause c ds

unfoldable pub sort_clauses : List ContractClause → List ContractClause
sort_clauses [] = []
sort_clauses (c ∷ cs) = insert_clause c (sort_clauses cs)

-- Two clauses have the same label, body and position; ids are ignored.
abbrev pub same_content : ContractClause → ContractClause → Bool
same_content c d = str_eq c.label d.label && str_eq c.body d.body && c.sort_order == d.sort_order

unfoldable pub same_clauses : List ContractClause → List ContractClause → Bool
same_clauses [] [] = true
same_clauses (c ∷ cs) (d ∷ ds) = same_content c d && same_clauses cs ds
same_clauses _ _ = false

-- `existing != incoming`, of `_stored_clauses_signature` and `_normalized_clauses_signature`.
unfoldable pub clauses_differ : List ContractClause → List ContractClause → Bool
clauses_differ stored normalized =
    not (same_clauses (sort_clauses stored) (sort_clauses normalized))

-- The writes to the contract: the clauses, and where a signature is void its withdrawal.
abbrev pub with_clauses : DebtContract → List ContractClause → Bool → ℕ → DebtContract
with_clauses contract normalized true now = record contract {
  clauses_json = normalized;
  updated_at = now;
  status = DebtContractStatus.pending_sub_signature;
  signed_at = none;
  signature_b64 = none;
}
with_clauses contract normalized false now = record contract {
  clauses_json = normalized;
  updated_at = now;
}

unfoldable pub update_clauses : User → ℕ → List ContractClauseIn → Action ContractOut
update_clauses goddess_user contract_id clauses = do
  contract ← get_contract_or_404 contract_id
  goddess_id ← resolve_goddess_id goddess_user.id
  raise_if (not (contract.goddess_id == goddess_id)) AppError.forbidden
  raise_if (is_terminal contract.status) AppError.conflict
  normalized ← normalize_clauses clauses
  let clauses_changed = clauses_differ contract.clauses_json normalized
  let trigger_resign = clauses_changed && (contract.status is DebtContractStatus.active)
  now ← now_utc
  let saved = with_clauses contract normalized trigger_resign now
  save_contract saved
  when clauses_changed (
      append_audit (
        audit_row contract.id DebtContractEventType.clauses_changed goddess_user.id
          (some contract.status) saved.status))
  when trigger_resign
      (notify contract.sub_id NotificationType.contract_needs_resignature contract.id)
  version ← gets (current_version saved)
  contract_out saved version
