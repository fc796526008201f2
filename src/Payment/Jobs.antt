-- ===== src/Payment/Jobs.antt =====
-- The daily job and the penalties in bulk leave the payment tables alone.
use debt_collector.Common.{
  ℕ, Bool, true, false, Option, none, some, List, [], ◌∷◌, Bool-cases, inl, inr, ◌==◌,
}
use debt_collector.Common.Lists.{any_of}
use debt_collector.Model.{Db, User, DebtContract, RollingTribute, Summary, CronRun, Action}
use debt_collector.Model.Keeps.{
  Keeps, keep_rules, Keeps-pure, Keeps-bind, Keeps-modify, Keeps-now_utc, Keeps-gets, Keeps-when,
}
use debt_collector.Merit.Engine.{Offence, apply_penalty}
use debt_collector.Merit.Keeps.{apply_penalty-Keeps}
use debt_collector.Ledger.{store_balance}
use debt_collector.Calendar.{London}
use debt_collector.Job.Tick.{
  Rates, had_min_payment_for_period, is_late_for, penalise, accrue_interest, tick_period,
  tick_unless, tick_contract,
}
use debt_collector.Job.Daily.{
  remind, process_tribute, process_rolling, tick_then, save_run, tick_all, process_contracts,
  process_subs, run_daily,
}
use debt_collector.Job.Keeps.{Keeps-caught, Keeps-reading}
use debt_collector.Job.LatePenalty.{
  Verdict, BulkApplyLatePenaltySummary, carry_out, consider, consider_id, consider_all, bulk_apply,
}
use debt_collector.Payment.Frame.{
  Settled, handler_rules, recompute-Keeps, fresh_id-Keeps, notify-Keeps,
}

module _ (db0 : Db) where
  penalty-Keeps : (o : Offence) → Keeps (Settled db0) (apply_penalty o)
  penalty-Keeps = apply_penalty-Keeps (Settled db0) (λ d es h. h) (λ d es h. h)

  had_min-Keeps : (c : DebtContract) (i : ℕ) → Keeps (Settled db0) (had_min_payment_for_period c i)
  unfolding had_min_payment_for_period
  had_min-Keeps c i = search (keep_rules)

  is_late_for-Keeps :
      (first : Bool) (c : DebtContract) (i : ℕ) → Keeps (Settled db0) (is_late_for first c i)
  unfolding is_late_for
  is_late_for-Keeps true c i = Keeps-pure false
  is_late_for-Keeps false c i = search (keep_rules, had_min-Keeps)

  penalise-Keeps : (c : DebtContract) (i : ℕ) → Keeps (Settled db0) (penalise c i)
  unfolding penalise
  penalise-Keeps c i = search (handler_rules, penalty-Keeps) depth 20

  save_run-Keeps : (run : CronRun) → Keeps (Settled db0) (save_run run)
  unfolding save_run
  save_run-Keeps run = search (keep_rules, Keeps-modify)

module _ (london : London) (rates : Rates) (db0 : Db) where
  accrue-Keeps : (c : DebtContract) (i : ℕ) → Keeps (Settled db0) (accrue_interest rates c i)
  unfolding accrue_interest store_balance
  accrue-Keeps c i = search (keep_rules, Keeps-modify, recompute-Keeps) depth 20

  period-Keeps : (c : DebtContract) (i : ℕ) → Keeps (Settled db0) (tick_period rates c i)
  unfolding tick_period
  period-Keeps c i =
      search (handler_rules, is_late_for-Keeps, penalise-Keeps, accrue-Keeps) depth 20

  unless-Keeps :
      (done : Bool) (c : DebtContract) (i : ℕ) → Keeps (Settled db0) (tick_unless rates done c i)
  unfolding tick_unless
  unless-Keeps true c i = Keeps-pure false
  unless-Keeps false c i = period-Keeps c i

  tick-Keeps : (id : ℕ) → Keeps (Settled db0) (tick_contract rates london id)
  unfolding tick_contract
  tick-Keeps id = search (handler_rules, unless-Keeps) depth 20

  then-Keeps :
      (o : Option Bool) (rest : Action (Option ℕ))
      → Keeps (Settled db0) rest
      → Keeps (Settled db0) (tick_then o rest)
  unfolding tick_then
  then-Keeps none rest h = Keeps-pure none
  then-Keeps (some b) rest h = Keeps-bind _ _ h λ n. Keeps-pure _

  tick_all-Keeps : (ids : List ℕ) → Keeps (Settled db0) (tick_all london rates ids)
  unfolding tick_all
  tick_all-Keeps [] = Keeps-pure _
  tick_all-Keeps (id ∷ ids) =
      Keeps-bind _ _ (Keeps-caught _ (tick-Keeps id)) λ o. then-Keeps o _ (tick_all-Keeps ids)

  contracts-Keeps : (sub_id : ℕ) → Keeps (Settled db0) (process_contracts london rates sub_id)
  unfolding process_contracts
  contracts-Keeps sub_id = search (keep_rules, tick_all-Keeps)

  remind-Keeps :
      (late : Bool) (r : RollingTribute) (sub_id : ℕ) → Keeps (Settled db0) (remind late r sub_id)
  unfolding remind
  remind-Keeps false r sub_id = Keeps-pure tt
  remind-Keeps true r sub_id = search (keep_rules, notify-Keeps, penalty-Keeps)

  tribute-Keeps :
      (o : Option RollingTribute) (sub_id : ℕ)
      → Keeps (Settled db0) (process_tribute london o sub_id)
  unfolding process_tribute
  tribute-Keeps none sub_id = Keeps-pure 0
  tribute-Keeps (some r) sub_id = search (keep_rules, remind-Keeps)

  rolling-Keeps : (sub_id : ℕ) → Keeps (Settled db0) (process_rolling london sub_id)
  unfolding process_rolling
  rolling-Keeps sub_id = search (keep_rules, tribute-Keeps)

  subs-Keeps : (ids : List ℕ) (s : Summary) → Keeps (Settled db0) (process_subs london rates ids s)
  unfolding process_subs
  subs-Keeps [] s = Keeps-pure s
  subs-Keeps (id ∷ ids) s =
      Keeps-bind _ _ (Keeps-caught _ (rolling-Keeps id))
        λ rolling. Keeps-bind _ _ (contracts-Keeps id) λ contracts. subs-Keeps ids _

  pub run_daily-Keeps :
      (dry_run : Bool) (user_id : Option ℕ)
      → Keeps (Settled db0) (run_daily london rates dry_run user_id)
  unfolding run_daily
  run_daily-Keeps dry_run user_id = Keeps-bind _ _ Keeps-now_utc λ now.
      Keeps-bind _ _ (fresh_id-Keeps db0) λ run_id. Keeps-bind _ _ (save_run-Keeps db0 _) λ done.
        Keeps-bind _ _ (Keeps-gets _) λ subs. Keeps-reading _ λ saved ok_then.
          Keeps-bind _ _ (subs-Keeps _ _) λ summary.
            Keeps-bind _ _ (Keeps-when _ _ (Keeps-modify _ λ d ev. ok_then))
              λ undone. search (keep_rules, save_run-Keeps)

module _ (london : London) (db0 : Db) where
  carry_out-Keeps :
      (v : Verdict) (c : DebtContract) (i : ℕ) → Keeps (Settled db0) (carry_out london v c i)
  unfolding carry_out
  carry_out-Keeps Verdict.applied c i = search (keep_rules, penalise-Keeps)
  carry_out-Keeps Verdict.already_penalised c i = Keeps-pure _
  carry_out-Keeps Verdict.not_late c i = Keeps-pure _
  carry_out-Keeps Verdict.not_found c i = Keeps-pure _

  consider-Keeps : (o : Option DebtContract) (now : ℕ) → Keeps (Settled db0) (consider london o now)
  unfolding consider
  consider-Keeps none now = Keeps-pure _
  consider-Keeps (some c) now = search (keep_rules, carry_out-Keeps)

  consider_id-Keeps : (g id : ℕ) → Keeps (Settled db0) (consider_id london g id)
  unfolding consider_id
  consider_id-Keeps g id = search (keep_rules, consider-Keeps)

  consider_all-Keeps :
      (g : ℕ) (seen ids : List ℕ) (s : BulkApplyLatePenaltySummary)
      → Keeps (Settled db0) (consider_all london g seen ids s)
  unfolding consider_all
  consider_all-Keeps g seen [] s = Keeps-pure s
  consider_all-Keeps g seen (id ∷ ids) s = elim (Bool-cases (any_of (λ x. x == id) seen)) [
    | inl again ↦ rw (again, consider_all) (consider_all-Keeps g seen ids s)
    | inr new ↦
        rw (new, consider_all)
          (Keeps-bind _ _ (consider_id-Keeps g id) λ v. consider_all-Keeps g (id ∷ seen) ids _)
  ]

  pub bulk_apply-Keeps : (u : User) (ids : List ℕ) → Keeps (Settled db0) (bulk_apply london u ids)
  unfolding bulk_apply
  bulk_apply-Keeps u ids = search (handler_rules, consider_all-Keeps)
