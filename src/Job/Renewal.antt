-- ===== src/Job/Renewal.antt =====
-- server/services/cron/contracts.py: reminders of a review, and the renewal of contracts that extend
-- themselves. `relativedelta`, which moves a time by months, is a parameter.
use debt_collector.Common.{
  ℕ, ◌+◌, ◌*◌, Bool, true, false, ◌&&◌, Option, none, some, List, [], ◌∷◌, ◌==◌, ◌==?◌, ◌is◌, leb,
  ltb, map,
}
use debt_collector.Common.Int.{pos}
use debt_collector.Common.Table.{rows}
use debt_collector.Common.Lists.{any_of, select}
use debt_collector.Model.{
  Notification, NotificationType, notification_enum, DebtContract, DebtContractStatus,
  contract_status_enum, DebtContractAudit, DebtContractEventType, contract_event_enum,
  RenewalPolicy, renewal_enum, PaymentFrequency, Db, Action, gets, pure, now_utc, fresh_id, ◌>>=◌,
  ◌>>◌,
}
use debt_collector.Session.{
  resolve_goddess_user_id, notify, get_contract_or_404, save_contract, create_version, append_audit,
}
use debt_collector.Debt.Propose.{version_row}
use debt_collector.Calendar.{London, Date, add_days}

-- `_review_window_utc`
abbrev pub midnight : London → Date → ℕ
midnight london date = london.to_utc (record { date = date; time = 0 })

abbrev pub reviews_in : ℕ → ℕ → Option ℕ → Bool
reviews_in start_utc end_utc none = false
reviews_in start_utc end_utc (some at) = leb start_utc at && ltb at end_utc

abbrev pub is_reminder_of : ℕ → Notification → Bool
is_reminder_of contract_id n =
    (n.type is NotificationType.review_reminder) && n.subject_id == contract_id

-- `_reminder_already_sent`
unfoldable pub reminder_already_sent : ℕ → Db → Bool
reminder_already_sent contract_id db = any_of (is_reminder_of contract_id) db.notifications

unfoldable pub send_reminder : Option ℕ → ℕ → Action ℕ
send_reminder none contract_id = pure 0
send_reminder (some user_id) contract_id = do
  notify user_id NotificationType.review_reminder contract_id
  pure 1

unfoldable pub remind_unless : Bool → ℕ → Action ℕ
remind_unless true contract_id = pure 0
remind_unless false contract_id = do
  contract ← get_contract_or_404 contract_id
  goddess_user_id ← resolve_goddess_user_id contract.goddess_id
  send_reminder goddess_user_id contract_id

unfoldable pub remind_of : ℕ → Action ℕ
remind_of contract_id = do
  sent ← gets (reminder_already_sent contract_id)
  remind_unless sent contract_id

unfoldable pub remind_all : List ℕ → Action ℕ
remind_all [] = pure 0
remind_all (id ∷ ids) = do n ← remind_of id; m ← remind_all ids; pure (n + m)

abbrev pub due_for_review : ℕ → ℕ → DebtContract → Bool
due_for_review start_utc end_utc c =
    (c.status is DebtContractStatus.active) && reviews_in start_utc end_utc c.review_at

unfoldable pub run_review_reminders : London → Action ℕ
run_review_reminders london = do
  now ← now_utc
  let target = add_days 14 (london.local now).date
  let start_utc = midnight london target
  let end_utc = midnight london (add_days 1 target)
  contracts ←
      gets (λ db. map (λ c. c.id) (select (due_for_review start_utc end_utc) (rows db.contracts)))
  remind_all contracts

-- `_advance_review_at`; `months_later n at` is `at + relativedelta(months=n)`.
abbrev pub advance_review_at : (ℕ → ℕ → ℕ) → PaymentFrequency → ℕ → ℕ → ℕ
advance_review_at months_later PaymentFrequency.weekly periods at = at + 7 * periods * 86400
advance_review_at months_later PaymentFrequency.biweekly periods at = at + 14 * periods * 86400
advance_review_at months_later PaymentFrequency.monthly periods at = months_later periods at

abbrev pub is_renewal_of : ℕ → DebtContractAudit → Bool
is_renewal_of source_id a =
    (a.event_type is DebtContractEventType.contract_renewed) && a.source_contract_id ==? source_id

-- `_already_cloned`
unfoldable pub already_cloned : ℕ → Db → Bool
already_cloned source_id db = any_of (is_renewal_of source_id) db.audits

abbrev pub clone_of : DebtContract → ℕ → ℕ → ℕ → DebtContract
clone_of source id review_at now = record source {
  id = id;
  sub_initiated = false;
  status = DebtContractStatus.pending_sub_signature;
  current_version_id = none;
  balance = pos source.principal;
  signature_b64 = none;
  signed_at = none;
  review_at = some review_at;
  created_at = now;
  updated_at = now;
}

abbrev pub renewal_row : ℕ → ℕ → ℕ → DebtContractAudit
renewal_row contract_id actor_id source_id = record {
  contract_id = contract_id;
  event_type = DebtContractEventType.contract_renewed;
  actor_id = actor_id;
  from_status = none;
  to_status = DebtContractStatus.pending_sub_signature;
  source_contract_id = some source_id;
}

-- The time of the review that a clone is advanced from; the query takes only contracts that have one.
abbrev pub review_of : Option ℕ → ℕ
review_of none = 0
review_of (some at) = at

module _ (months_later : ℕ → ℕ → ℕ) where
  -- `_clone_contract`
  unfoldable pub clone_contract : DebtContract → ℕ → Action DebtContract
  clone_contract source goddess_user_id = do
    now ← now_utc
    clone_id ← fresh_id
    let review_at =
        advance_review_at months_later source.payment_frequency source.duration_periods
          (review_of source.review_at)
    let clone = clone_of source clone_id review_at now
    save_contract clone
    version_id ← fresh_id
    create_version (version_row version_id clone_id 0 goddess_user_id source.terms)
    let saved = record clone { current_version_id = some version_id; updated_at = now }
    save_contract saved
    append_audit (renewal_row clone_id goddess_user_id source.id)
    pure saved

  unfoldable pub renew_for : Option ℕ → DebtContract → Action ℕ
  renew_for none contract = pure 0
  renew_for (some goddess_user_id) contract = do
    clone ← clone_contract contract goddess_user_id
    notify contract.sub_id NotificationType.contract_renewed clone.id
    pure 1

  unfoldable pub renew_unless : Bool → ℕ → Action ℕ
  renew_unless true contract_id = pure 0
  renew_unless false contract_id = do
    contract ← get_contract_or_404 contract_id
    goddess_user_id ← resolve_goddess_user_id contract.goddess_id
    renew_for goddess_user_id contract

  unfoldable pub renew : ℕ → Action ℕ
  renew contract_id = do cloned ← gets (already_cloned contract_id); renew_unless cloned contract_id

  unfoldable pub renew_all : List ℕ → Action ℕ
  renew_all [] = pure 0
  renew_all (id ∷ ids) = do n ← renew id; m ← renew_all ids; pure (n + m)

  abbrev pub is_renewable : ℕ → DebtContract → Bool
  is_renewable now c =
      (c.status is DebtContractStatus.active)
      && (c.renewal_policy is RenewalPolicy.auto_extend)
      && reviews_in 0 (now + 1) c.review_at

  unfoldable pub run_auto_extend_renewals : Action ℕ
  run_auto_extend_renewals = do
    now ← now_utc
    contracts ← gets (λ db. map (λ c. c.id) (select (is_renewable now) (rows db.contracts)))
    renew_all contracts
