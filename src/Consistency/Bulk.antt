-- ===== src/Consistency/Bulk.antt =====
-- Lemmas on the penalties in bulk, the reminders and the renewals, for the ledger invariant.
use debt_collector.Common.{
  ℕ, ◌≡◌, refl, true, false, Option, none, some, List, [], ◌∷◌, arith, ◌==◌, Bool, subst, sym,
  Bool-cases, inl, inr,
}
use debt_collector.Common.Table.{find_row}
use debt_collector.Common.Lists.{any_of}
use debt_collector.Model.{Db, User, DebtContract, contract_status_enum}
use debt_collector.Model.Leaves.{
  Leaves, Leaves-weaken, Leaves-pure, Leaves-gets, Leaves-now_utc, Leaves-fresh_id,
}
use debt_collector.Model.Keeps.{Keeps, keep_rules, Keeps-pure, Keeps-bind}
use debt_collector.Session.Leaves.{Leaves-save_contract, Leaves-create_version, Leaves-append_audit}
use debt_collector.Calendar.{London}
use debt_collector.Job.LatePenalty.{
  Verdict, BulkApplyLatePenaltySummary, candidate, carry_out, consider, consider_id, consider_all,
  bulk_apply,
}
use debt_collector.Job.Renewal.{
  send_reminder, remind_unless, remind_of, remind_all, run_review_reminders, clone_contract,
  renew_for, renew_unless, renew, renew_all, run_auto_extend_renewals,
}
use debt_collector.Consistency.Invariant.{IsConsistent, is_negotiating}
use debt_collector.Consistency.Lifecycle.{Evolves, Forward-refl, Forward-trans}
use debt_collector.Consistency.Ticks.{IsSigned, penalise-Evolves, Evolves-bind}
use debt_collector.Consistency.Runs.{
  notify-Evolves, goddess-Evolves, get_contract-Evolves, goddess_user-Evolves,
}
use debt_collector.Consistency.Proposals.{added_twice}

candidate-active :
    (g : ℕ) (o : Option DebtContract) (c : DebtContract)
    → candidate g o ≡ some c
    → (o ≡ some c) × (is_negotiating c.status ≡ false)
candidate-active g none c h = ground arith
candidate-active g (some d) c h = ground arith

module _ (london : London) where
  carry_out-Evolves :
      (v : Verdict) (c : DebtContract) (i : ℕ) (db : Db)
      → IsConsistent db
      → IsSigned db.contracts c.id
      → Leaves (λ _. Evolves db) (carry_out london v c i db)
  unfolding carry_out
  carry_out-Evolves Verdict.applied c i db inv signed =
      Evolves-bind _ _ db db (inv, Forward-refl db.contracts) (penalise-Evolves c i db inv signed)
        λ a e ev. Leaves-pure _ e ev
  carry_out-Evolves Verdict.already_penalised c i db inv signed =
      Leaves-pure _ db (inv, Forward-refl db.contracts)
  carry_out-Evolves Verdict.not_late c i db inv signed =
      Leaves-pure _ db (inv, Forward-refl db.contracts)
  carry_out-Evolves Verdict.not_found c i db inv signed =
      Leaves-pure _ db (inv, Forward-refl db.contracts)

  consider-Evolves :
      (g id : ℕ) (o : Option DebtContract) (now : ℕ) (db : Db)
      → IsConsistent db
      → candidate g (find_row id db.contracts) ≡ o
      → Leaves (λ _. Evolves db) (consider london o now db)
  unfolding consider
  consider-Evolves g id none now db inv h = Leaves-pure _ db (inv, Forward-refl db.contracts)
  consider-Evolves g id (some c) now db inv h =
      let (found, signed) = candidate-active g (find_row id db.contracts) c h in
      let keyed = (inv.row_ok id c found).keyed in
      Leaves-gets _ _ db (
        carry_out-Evolves _ c _ db inv
          (subst (IsSigned db.contracts) (sym keyed) (c, (found, signed))))

  consider_id-Keeps : (db0 : Db) (g id : ℕ) → Keeps (Evolves db0) (consider_id london g id)
  unfolding consider_id
  consider_id-Keeps db0 g id = record {
    keeps = λ db ev. Leaves-now_utc _ db (
        Leaves-gets _ _ db (
          Leaves-weaken _ (consider-Evolves g id _ _ db ev.0 refl)
            λ a d e. (e.0, Forward-trans db0.contracts db.contracts d.contracts ev.1 e.1)));
  }

  consider_all-Keeps :
      (db0 : Db) (g : ℕ) (seen ids : List ℕ) (s : BulkApplyLatePenaltySummary)
      → Keeps (Evolves db0) (consider_all london g seen ids s)
  unfolding consider_all
  consider_all-Keeps db0 g seen [] s = Keeps-pure s
  consider_all-Keeps db0 g seen (id ∷ ids) s = elim (Bool-cases (any_of (λ x. x == id) seen)) [
    | inl again ↦ rw (again, consider_all) (consider_all-Keeps db0 g seen ids s)
    | inr new ↦
        rw (new, consider_all)
          (Keeps-bind _ _ (consider_id-Keeps db0 g id)
            λ v. consider_all-Keeps db0 g (id ∷ seen) ids _)
  ]

  -- The penalties in bulk keep the invariant.
  pub bulk_apply-Keeps :
      (db0 : Db) (u : User) (ids : List ℕ) → Keeps (Evolves db0) (bulk_apply london u ids)
  unfolding bulk_apply
  bulk_apply-Keeps db0 u ids =
      Keeps-bind _ _ (goddess-Evolves db0 u.id) λ g. consider_all-Keeps db0 g [] ids _

module _ (db0 : Db) where
  send_reminder-Keeps : (o : Option ℕ) (i : ℕ) → Keeps (Evolves db0) (send_reminder o i)
  unfolding send_reminder
  send_reminder-Keeps none i = Keeps-pure 0
  send_reminder-Keeps (some u) i = search (keep_rules, notify-Evolves)

  remind_unless-Keeps : (sent : Bool) (i : ℕ) → Keeps (Evolves db0) (remind_unless sent i)
  unfolding remind_unless
  remind_unless-Keeps true i = Keeps-pure 0
  remind_unless-Keeps false i =
      search (keep_rules, get_contract-Evolves, goddess_user-Evolves, send_reminder-Keeps)

  remind_of-Keeps : (i : ℕ) → Keeps (Evolves db0) (remind_of i)
  unfolding remind_of
  remind_of-Keeps i = search (keep_rules, remind_unless-Keeps)

  remind_all-Keeps : (ids : List ℕ) → Keeps (Evolves db0) (remind_all ids)
  unfolding remind_all
  remind_all-Keeps [] = Keeps-pure 0
  remind_all-Keeps (id ∷ ids) =
      Keeps-bind _ _ (remind_of-Keeps id)
        λ n. Keeps-bind _ _ (remind_all-Keeps ids) λ m. Keeps-pure _

  -- The reminders keep the invariant.
  pub run_review_reminders-Keeps :
      (london : London) → Keeps (Evolves db0) (run_review_reminders london)
  unfolding run_review_reminders
  run_review_reminders-Keeps london = search (keep_rules, remind_all-Keeps)

module _ (months_later : ℕ → ℕ → ℕ) (db0 : Db) where
  clone-Keeps :
      (source : DebtContract) (user_id : ℕ)
      → Keeps (Evolves db0) (clone_contract months_later source user_id)
  unfolding clone_contract
  clone-Keeps source user_id = record {
    keeps = λ db ev. Leaves-now_utc _ db (
        Leaves-fresh_id _ db (
          Leaves-save_contract _ _ _ (
            Leaves-fresh_id _ _ (
              Leaves-create_version _ _ _ (
                Leaves-save_contract _ _ _ (
                  Leaves-append_audit _ _ _ (
                    Leaves-pure _ _ (
                      let (inv, f) = added_twice db _ _ ev.0 refl refl refl refl (λ h. cc) in
                      (inv, Forward-trans db0.contracts db.contracts _ ev.1 f)))))))));
  }

  renew_for-Keeps :
      (o : Option ℕ) (c : DebtContract) → Keeps (Evolves db0) (renew_for months_later o c)
  unfolding renew_for
  renew_for-Keeps none c = Keeps-pure 0
  renew_for-Keeps (some u) c = search (keep_rules, clone-Keeps, notify-Evolves)

  renew_unless-Keeps :
      (done : Bool) (i : ℕ) → Keeps (Evolves db0) (renew_unless months_later done i)
  unfolding renew_unless
  renew_unless-Keeps true i = Keeps-pure 0
  renew_unless-Keeps false i =
      search (keep_rules, get_contract-Evolves, goddess_user-Evolves, renew_for-Keeps)

  renew-Keeps : (i : ℕ) → Keeps (Evolves db0) (renew months_later i)
  unfolding renew
  renew-Keeps i = search (keep_rules, renew_unless-Keeps)

  renew_all-Keeps : (ids : List ℕ) → Keeps (Evolves db0) (renew_all months_later ids)
  unfolding renew_all
  renew_all-Keeps [] = Keeps-pure 0
  renew_all-Keeps (id ∷ ids) =
      Keeps-bind _ _ (renew-Keeps id) λ n. Keeps-bind _ _ (renew_all-Keeps ids) λ m. Keeps-pure _

  -- The renewals keep the invariant.
  pub run_auto_extend_renewals-Keeps : Keeps (Evolves db0) (run_auto_extend_renewals months_later)
  unfolding run_auto_extend_renewals
  run_auto_extend_renewals-Keeps = search (keep_rules, renew_all-Keeps)
