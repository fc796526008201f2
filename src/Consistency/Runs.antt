-- ===== src/Consistency/Runs.antt =====
-- Lemmas on the daily job and the penalties in bulk, for the ledger invariant.
use debt_collector.Common.{
  ℕ, ◌≡◌, refl, true, false, Option, none, some, List, [], ◌∷◌, arith, ◌==◌, ==_refl, ==_iff, ◌is◌,
  map, Bool, subst, sym, Bool-cases, inl, inr,
}
use debt_collector.Common.Table.{Table, find_row, Distinct, rows}
use debt_collector.Common.Lists.{Each, Each-weaken, select}
use debt_collector.Model.{
  Db, DebtContract, NotificationType, DebtContractStatus, contract_status_enum, CronRun,
  RollingTribute, Summary, Action, fresh_id,
}
use debt_collector.Model.Leaves.{Leaves-weaken, Leaves-gets}
use debt_collector.Model.Keeps.{
  Keeps, keep_rules, Keeps-pure, Keeps-bind, Keeps-modify, Keeps-fresh_id, Keeps-now_utc,
  Keeps-gets, Keeps-when,
}
use debt_collector.Job.Daily.{
  remind, process_tribute, process_rolling, tick_then, is_active_of, active_contracts, save_run,
  tick_all, process_contracts, process_subs, run_daily,
}
use debt_collector.Session.{
  notify, resolve_goddess_id, resolve_goddess_user_id, get_contract_or_404,
}
use debt_collector.Calendar.{London}
use debt_collector.Job.Tick.{Rates, tick_contract}
use debt_collector.Job.Keeps.{Keeps-caught, Keeps-reading}
use debt_collector.Job.Whole.{IsWhole}
use debt_collector.Consistency.Invariant.{IsConsistent}
use debt_collector.Consistency.Writes.{LedgerOk-fresh}
use debt_collector.Consistency.Lifecycle.{Evolves, Forward-refl, Forward-trans}
use debt_collector.Consistency.Ticks.{
  IsSigned, IsSigned-Forward, apply_penalty-Evolves, tick_contract-Evolves,
}

-- A contract that is found with a status.
abbrev pub IsActive : Table DebtContract → ℕ → Type 0
IsActive cs id =
    (c : DebtContract) × ((find_row id cs ≡ some c)
      × ((c.status is DebtContractStatus.active) ≡ true))

-- What a query on the status finds is found under its id, with that status.
queried :
    (cs ts : Table DebtContract) (sub_id : ℕ)
    → ((j : ℕ) (c : DebtContract) → find_row j ts ≡ some c → find_row j cs ≡ some c)
    → ((j : ℕ) (c : DebtContract) → find_row j cs ≡ some c → c.id ≡ j)
    → Distinct ts
    → Each (IsActive cs) (map (λ c. c.id) (select (is_active_of sub_id) (rows ts)))
queried cs [] sub_id inside keyed d = tt
queried cs ((k, c) ∷ ts) sub_id inside keyed (new, d) =
    let others = queried cs ts sub_id (λ j x at. inside j x (apart j x at)) keyed d in
    elim (Bool-cases (is_active_of sub_id c)) [
      | inl hit ↦ rw hit (
        (c, (subst (λ (j : ℕ). find_row j cs ≡ some c) (sym (keyed k c here)) here, ground arith)),
        others,
      )
      | inr miss ↦ rw miss others
    ]
  where
    here : find_row k cs ≡ some c
    here = inside k c (rw (==_refl k) refl)

    apart : (j : ℕ) (x : DebtContract) → find_row j ts ≡ some x → find_row j ((k, c) ∷ ts) ≡ some x
    apart j x at = elim (Bool-cases (k == j)) [
      | inl same ↦ grind (arith, ==_iff k j, new, at, same)
      | inr other ↦ rw other at
    ]

pub active_contracts-IsActive :
    (db : Db) (sub_id : ℕ)
    → IsConsistent db
    → Each (IsActive db.contracts) (active_contracts sub_id db)
active_contracts-IsActive db sub_id inv =
    queried db.contracts db.contracts sub_id (λ j c at. at) (λ j c at. (inv.row_ok j c at).keyed)
      inv.distinct

IsActive-IsSigned : (cs : Table DebtContract) (id : ℕ) → IsActive cs id → IsSigned cs id
IsActive-IsSigned cs id (c, (found, active)) = (c, (found, ground arith))

module _ (london : London) (rates : Rates) (whole : IsWhole rates) (db0 : Db) where
  tick-Keeps :
      (id : ℕ) → IsSigned db0.contracts id → Keeps (Evolves db0) (tick_contract rates london id)
  tick-Keeps id signed = record {
    keeps = λ db ev.
        Leaves-weaken _
          (tick_contract-Evolves rates whole london id db ev.0
            (IsSigned-Forward _ _ id ev.1 signed))
          λ a d e. (e.0, Forward-trans db0.contracts db.contracts d.contracts ev.1 e.1);
  }

  tick_then-Keeps :
      (o : Option Bool) (rest : Action (Option ℕ))
      → Keeps (Evolves db0) rest
      → Keeps (Evolves db0) (tick_then o rest)
  unfolding tick_then
  tick_then-Keeps none rest h = Keeps-pure none
  tick_then-Keeps (some b) rest h = Keeps-bind _ _ h λ n. Keeps-pure _

  tick_all-Keeps :
      (ids : List ℕ)
      → Each (IsSigned db0.contracts) ids
      → Keeps (Evolves db0) (tick_all london rates ids)
  unfolding tick_all
  tick_all-Keeps [] signed = Keeps-pure _
  tick_all-Keeps (id ∷ ids) (at, signed) =
      Keeps-bind _ _ (Keeps-caught _ (tick-Keeps id at))
        λ o. tick_then-Keeps o _ (tick_all-Keeps ids signed)

module _ (db0 : Db) where
  pub goddess-Evolves : (u : ℕ) → Keeps (Evolves db0) (resolve_goddess_id u)
  unfolding resolve_goddess_id
  goddess-Evolves u = search (keep_rules)

  pub goddess_user-Evolves : (g : ℕ) → Keeps (Evolves db0) (resolve_goddess_user_id g)
  unfolding resolve_goddess_user_id
  goddess_user-Evolves g = search (keep_rules)

  pub get_contract-Evolves : (i : ℕ) → Keeps (Evolves db0) (get_contract_or_404 i)
  unfolding get_contract_or_404
  get_contract-Evolves i = search (keep_rules)

  pub notify-Evolves : (u : ℕ) (t : NotificationType) (i : ℕ) → Keeps (Evolves db0) (notify u t i)
  unfolding notify
  notify-Evolves u t i = search (keep_rules, Keeps-modify)

  pub fresh_id-Evolves : Keeps (Evolves db0) fresh_id
  fresh_id-Evolves = Keeps-fresh_id λ db e. (LedgerOk-fresh e.0 _ (omega arith), e.1)

  remind-Evolves :
      (late : Bool) (rolling : RollingTribute) (sub_id : ℕ)
      → Keeps (Evolves db0) (remind late rolling sub_id)
  unfolding remind
  remind-Evolves false rolling sub_id = Keeps-pure tt
  remind-Evolves true rolling sub_id = search (keep_rules, notify-Evolves, apply_penalty-Evolves)

  process_tribute-Evolves :
      (london : London) (o : Option RollingTribute) (sub_id : ℕ)
      → Keeps (Evolves db0) (process_tribute london o sub_id)
  unfolding process_tribute
  process_tribute-Evolves london none sub_id = Keeps-pure 0
  process_tribute-Evolves london (some r) sub_id = search (keep_rules, remind-Evolves)

  process_rolling-Evolves :
      (london : London) (sub_id : ℕ) → Keeps (Evolves db0) (process_rolling london sub_id)
  unfolding process_rolling
  process_rolling-Evolves london sub_id = search (keep_rules, process_tribute-Evolves)

  save_run-Evolves : (run : CronRun) → Keeps (Evolves db0) (save_run run)
  unfolding save_run
  save_run-Evolves run = search (keep_rules, Keeps-modify)

module _ (london : London) (rates : Rates) (whole : IsWhole rates) where
  process_contracts-Keeps :
      (db0 : Db) (sub_id : ℕ) → Keeps (Evolves db0) (process_contracts london rates sub_id)
  unfolding process_contracts
  process_contracts-Keeps db0 sub_id = record {
    keeps = λ db ev. Leaves-gets _ _ db (
        Leaves-weaken _
          ((tick_all-Keeps london rates whole db _ (
              Each-weaken _ _ _ (IsActive-IsSigned db.contracts)
                (active_contracts-IsActive db sub_id ev.0))).keeps
            db (ev.0, Forward-refl db.contracts))
          λ a d e. (e.0, Forward-trans db0.contracts db.contracts d.contracts ev.1 e.1));
  }

  process_subs-Keeps :
      (db0 : Db) (ids : List ℕ) (summary : Summary)
      → Keeps (Evolves db0) (process_subs london rates ids summary)
  unfolding process_subs
  process_subs-Keeps db0 [] summary = Keeps-pure summary
  process_subs-Keeps db0 (id ∷ ids) summary =
      Keeps-bind _ _ (Keeps-caught _ (process_rolling-Evolves db0 london id)) λ rolling.
        Keeps-bind _ _ (process_contracts-Keeps db0 id) λ contracts. process_subs-Keeps db0 ids _

  -- The daily job keeps the invariant.
  pub run_daily-Keeps :
      (db0 : Db) (dry_run : Bool) (triggered_by_user_id : Option ℕ)
      → Keeps (Evolves db0) (run_daily london rates dry_run triggered_by_user_id)
  unfolding run_daily
  run_daily-Keeps db0 dry_run user_id = Keeps-bind _ _ Keeps-now_utc λ now.
      Keeps-bind _ _ (fresh_id-Evolves db0) λ run_id.
        Keeps-bind _ _ (save_run-Evolves db0 _) λ done. Keeps-bind _ _ (Keeps-gets _) λ subs.
          Keeps-reading _ λ saved ok_then. Keeps-bind _ _ (process_subs-Keeps db0 _ _) λ summary.
            Keeps-bind _ _ (Keeps-when _ _ (Keeps-modify _ λ d ev. ok_then))
              λ undone. search (keep_rules, save_run-Evolves)
