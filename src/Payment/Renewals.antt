-- ===== src/Payment/Renewals.antt =====
-- The reminders of reviews and the renewals (server/services/cron/contracts.py) leave the payment tables
-- alone.
use debt_collector.Common.{ℕ, Bool, true, false, Option, none, some, List, [], ◌∷◌}
use debt_collector.Model.{Db, DebtContract}
use debt_collector.Model.Keeps.{Keeps, keep_rules, Keeps-pure, Keeps-bind}
use debt_collector.Calendar.{London}
use debt_collector.Job.Renewal.{
  send_reminder, remind_unless, remind_of, remind_all, run_review_reminders, clone_contract,
  renew_for, renew_unless, renew, renew_all, run_auto_extend_renewals,
}
use debt_collector.Payment.Frame.{Settled, handler_rules, notify-Keeps}

module _ (db0 : Db) where
  send_reminder-Keeps : (o : Option ℕ) (i : ℕ) → Keeps (Settled db0) (send_reminder o i)
  unfolding send_reminder
  send_reminder-Keeps none i = Keeps-pure 0
  send_reminder-Keeps (some u) i = search (keep_rules, notify-Keeps)

  remind_unless-Keeps : (sent : Bool) (i : ℕ) → Keeps (Settled db0) (remind_unless sent i)
  unfolding remind_unless
  remind_unless-Keeps true i = Keeps-pure 0
  remind_unless-Keeps false i = search (handler_rules, send_reminder-Keeps)

  remind_of-Keeps : (i : ℕ) → Keeps (Settled db0) (remind_of i)
  unfolding remind_of
  remind_of-Keeps i = search (keep_rules, remind_unless-Keeps)

  remind_all-Keeps : (ids : List ℕ) → Keeps (Settled db0) (remind_all ids)
  unfolding remind_all
  remind_all-Keeps [] = Keeps-pure 0
  remind_all-Keeps (id ∷ ids) =
      Keeps-bind _ _ (remind_of-Keeps id)
        λ n. Keeps-bind _ _ (remind_all-Keeps ids) λ m. Keeps-pure _

  pub run_review_reminders-Keeps :
      (london : London) → Keeps (Settled db0) (run_review_reminders london)
  unfolding run_review_reminders
  run_review_reminders-Keeps london = search (keep_rules, remind_all-Keeps)

module _ (months_later : ℕ → ℕ → ℕ) (db0 : Db) where
  clone-Keeps : (c : DebtContract) (u : ℕ) → Keeps (Settled db0) (clone_contract months_later c u)
  unfolding clone_contract
  clone-Keeps c u = search (handler_rules) depth 25

  renew_for-Keeps :
      (o : Option ℕ) (c : DebtContract) → Keeps (Settled db0) (renew_for months_later o c)
  unfolding renew_for
  renew_for-Keeps none c = Keeps-pure 0
  renew_for-Keeps (some u) c = search (keep_rules, clone-Keeps, notify-Keeps)

  renew_unless-Keeps :
      (done : Bool) (i : ℕ) → Keeps (Settled db0) (renew_unless months_later done i)
  unfolding renew_unless
  renew_unless-Keeps true i = Keeps-pure 0
  renew_unless-Keeps false i = search (handler_rules, renew_for-Keeps)

  renew-Keeps : (i : ℕ) → Keeps (Settled db0) (renew months_later i)
  unfolding renew
  renew-Keeps i = search (keep_rules, renew_unless-Keeps)

  renew_all-Keeps : (ids : List ℕ) → Keeps (Settled db0) (renew_all months_later ids)
  unfolding renew_all
  renew_all-Keeps [] = Keeps-pure 0
  renew_all-Keeps (id ∷ ids) =
      Keeps-bind _ _ (renew-Keeps id) λ n. Keeps-bind _ _ (renew_all-Keeps ids) λ m. Keeps-pure _

  pub run_auto_extend_renewals-Keeps : Keeps (Settled db0) (run_auto_extend_renewals months_later)
  unfolding run_auto_extend_renewals
  run_auto_extend_renewals-Keeps = search (keep_rules, renew_all-Keeps)
