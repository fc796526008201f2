-- ===== src/Job/LatePenalty.antt =====
-- server/controllers/late_penalty_controller.py: `bulk_apply`, with `period_start` of
-- server/controllers/dashboard/helpers.py. Days are counted in UTC here.
use debt_collector.Common.{
  ℕ, ◌+◌, ◌*◌, ◌/◌, Bool, true, false, not, ◌&&◌, Option, none, some, List, [], ◌∷◌, ◌++◌, ◌==◌,
  ◌is◌, leb, is_none, if◌then◌else◌,
}
use debt_collector.Common.Table.{find_row}
use debt_collector.Common.Lists.{any_of}
use debt_collector.Model.{
  User, DebtContract, DebtContractStatus, contract_status_enum, PaymentFrequency, EventType, Db,
  Action, gets, pure, now_utc, ◌>>=◌, ◌>>◌,
}
use debt_collector.Session.{resolve_goddess_id}
use debt_collector.Calendar.{London}
use debt_collector.Periods.{current_period_index}
use debt_collector.Job.Tick.{exists_for_period, penalise}

abbrev pub period_length_days : PaymentFrequency → ℕ
period_length_days PaymentFrequency.weekly = 7
period_length_days PaymentFrequency.biweekly = 14
period_length_days PaymentFrequency.monthly = 30

-- What has been done about one contract.
pub data Verdict : Type 0 where
  applied already_penalised not_late not_found : Verdict

pub record BulkApplyLatePenaltySummary : Type 0 where
  pub applied : ℕ
  pub already_penalised : ℕ
  pub not_late : ℕ
  pub not_found : ℕ
  pub applied_contract_ids : List ℕ

abbrev pub tally : ℕ → Verdict → BulkApplyLatePenaltySummary → BulkApplyLatePenaltySummary
tally id Verdict.applied s = record s {
  applied = s.applied + 1;
  applied_contract_ids = s.applied_contract_ids ++ id ∷ [];
}
tally id Verdict.already_penalised s = record s { already_penalised = s.already_penalised + 1 }
tally id Verdict.not_late s = record s { not_late = s.not_late + 1 }
tally id Verdict.not_found s = record s { not_found = s.not_found + 1 }

-- Her own contract, where it is active and signed.
abbrev pub candidate : ℕ → Option DebtContract → Option DebtContract
candidate goddess_id none = none
candidate goddess_id (some c) =
    if c.goddess_id == goddess_id
      && (c.status is DebtContractStatus.active)
      && not (is_none c.signed_at)
    then some c
    else none

module _ (london : London) where
  -- `period_start`, for a contract that is signed at a time.
  abbrev pub period_start : DebtContract → ℕ → ℕ → ℕ
  period_start contract signed_at now =
      signed_at
      + current_period_index london contract now
        * period_length_days contract.payment_frequency
        * 86400

  abbrev pub is_period_begun : DebtContract → Option ℕ → ℕ → Bool
  is_period_begun contract none now = false
  is_period_begun contract (some signed_at) now =
      not (leb (now / 86400) (period_start contract signed_at now / 86400))

  -- The tests on a candidate, in turn: the period is younger than a day, it is paid, it is penalised.
  abbrev pub verdict : DebtContract → ℕ → Db → Verdict
  verdict contract now db =
      let period_index = current_period_index london contract now in
      if not (is_period_begun contract contract.signed_at now)
      then Verdict.not_late
      else if exists_for_period contract.id period_index EventType.payment_applied db
      then Verdict.not_late
      else if exists_for_period contract.id period_index EventType.late_penalty db
      then Verdict.already_penalised
      else Verdict.applied

  unfoldable pub carry_out : Verdict → DebtContract → ℕ → Action Verdict
  carry_out Verdict.applied contract period_index =
      penalise contract period_index >> pure Verdict.applied
  carry_out Verdict.already_penalised contract period_index = pure Verdict.already_penalised
  carry_out Verdict.not_late contract period_index = pure Verdict.not_late
  carry_out Verdict.not_found contract period_index = pure Verdict.not_found

  unfoldable pub consider : Option DebtContract → ℕ → Action Verdict
  consider none now = pure Verdict.not_found
  consider (some contract) now = do
    v ← gets (verdict contract now)
    carry_out v contract (current_period_index london contract now)

  unfoldable pub consider_id : ℕ → ℕ → Action Verdict
  consider_id goddess_id contract_id = do
    now ← now_utc
    found ← gets (λ db. candidate goddess_id (find_row contract_id db.contracts))
    consider found now

  -- The loop, without the ids that it has seen.
  unfoldable pub consider_all :
      ℕ → List ℕ → List ℕ → BulkApplyLatePenaltySummary → Action BulkApplyLatePenaltySummary
  consider_all goddess_id seen [] summary = pure summary
  consider_all goddess_id seen (id ∷ ids) summary = elim (any_of (λ s. s == id) seen) [
    | true ↦ consider_all goddess_id seen ids summary
    | false ↦ do
      v ← consider_id goddess_id id
      consider_all goddess_id (id ∷ seen) ids (tally id v summary)
  ]

  unfoldable pub bulk_apply : User → List ℕ → Action BulkApplyLatePenaltySummary
  bulk_apply goddess_user contract_ids = do
    goddess_id ← resolve_goddess_id goddess_user.id
    consider_all goddess_id [] contract_ids (record {
      applied = 0;
      already_penalised = 0;
      not_late = 0;
      not_found = 0;
      applied_contract_ids = [];
    })
