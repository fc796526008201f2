-- ===== src/Consistency/Writes.antt =====
-- Lemmas on each kind of write to the tables of contracts, events and adjustments.
use debt_collector.Common.{
  ℕ, ◌+◌, ◌≤◌, ◌<◌, ◌≡◌, ◌≢◌, refl, sym, ◌∙◌, true, false, some, List, [], ◌∷◌, ◌++◌, arith, inl,
  inr, subst, some_inj,
}
use mathlib.Core.Path.{subst₂}
use debt_collector.Common.Int.{pos}
use debt_collector.Common.Table.{Table, Distinct-put_row, find_row, put_row, put_row-cases}
use debt_collector.Model.{DebtContract, contract_status_enum, DebtEvent, ContractAdjustment}
use debt_collector.Ledger.{events_of, replay_events, replay_from}
use debt_collector.Consistency.Invariant.{LedgerOk, RowOk, is_negotiating, events_of-append_other}

-- Where nothing has happened yet, the principal is the balance.
pub no_events-balanced :
    (es : List DebtEvent) (c : DebtContract) (k : ℕ)
    → events_of k es ≡ []
    → c.balance ≡ pos c.principal
    → c.balance ≡ replay_events c.principal (events_of k es)
unfolding replay_events replay_from
no_events-balanced es c k none_yet balance = rw (none_yet, balance) refl

module _ {cs : Table DebtContract} {es : List DebtEvent} {adjs : Table ContractAdjustment} {n : ℕ}
    (inv : LedgerOk cs es adjs n) where
  pub LedgerOk-fresh : (m : ℕ) → n ≤ m → LedgerOk cs es adjs m
  LedgerOk-fresh m h = record {
    distinct = inv.distinct;
    row_ok = inv.row_ok;
    known = λ k c e. omega (arith, inv.known k c e);
    no_events = λ k le. inv.no_events k (omega arith);
    adjusted_known = λ i a e. omega (arith, inv.adjusted_known i a e);
    adjusted_signed = inv.adjusted_signed;
  }

  -- A contract is changed in place, and is not taken back into negotiation.
  pub LedgerOk-update :
      (k : ℕ) (c d : DebtContract)
      → find_row k cs ≡ some c
      → RowOk es k d
      → (is_negotiating d.status ≡ true → is_negotiating c.status ≡ true)
      → LedgerOk (put_row k d cs) es adjs n
  LedgerOk-update k c d found ok back = record {
    distinct = Distinct-put_row k d cs inv.distinct;
    row_ok = λ j x e. elim (put_row-cases k j d x cs e) [
      | inl (same, is_d) ↦ subst₂ (RowOk es) same is_d ok
      | inr (other, old) ↦ inv.row_ok j x old
    ];
    known = λ j x e. elim (put_row-cases k j d x cs e) [
      | inl (same, is_d) ↦ omega (arith, inv.known k c found)
      | inr (other, old) ↦ inv.known j x old
    ];
    no_events = inv.no_events;
    adjusted_known = inv.adjusted_known;
    adjusted_signed = λ i a x adj e. elim (put_row-cases k a.contract_id d x cs e) [
      | inl (same, is_d) ↦
          signed a x same is_d
            (inv.adjusted_signed i a c adj (subst (λ j. find_row j cs ≡ some c) same found))
      | inr (other, old) ↦ inv.adjusted_signed i a x adj old
    ];
  }
    where
      signed :
          (a : ContractAdjustment) (x : DebtContract)
          → k ≡ a.contract_id
          → d ≡ x
          → is_negotiating c.status ≡ false
          → is_negotiating x.status ≡ false
      signed a x same is_d old = subst (λ y. is_negotiating y.status ≡ false) is_d (ground arith)

  -- A contract is saved with another status, say, and no money has moved.
  pub LedgerOk-save :
      (k : ℕ) (c d : DebtContract)
      → find_row k cs ≡ some c
      → d.id ≡ c.id
      → d.balance ≡ c.balance
      → d.principal ≡ c.principal
      → (is_negotiating d.status ≡ true → is_negotiating c.status ≡ true)
      → LedgerOk (put_row d.id d cs) es adjs n
  LedgerOk-save k c d found id balance principal back =
      subst (λ (j : ℕ). LedgerOk (put_row j d cs) es adjs n) (sym same)
        (LedgerOk-update k c d found
          (record {
            keyed = same;
            balanced = rw (balance, principal) row.balanced;
            quiet = λ h. row.quiet (back h);
          })
          back)
    where
      row : RowOk es k c
      row = inv.row_ok k c found

      same : d.id ≡ k
      same = id ∙ row.keyed

  -- A contract is added under a new id.
  pub LedgerOk-add :
      (d : DebtContract)
      → d.id ≡ n
      → d.balance ≡ pos d.principal
      → LedgerOk (put_row n d cs) es adjs (n + 1)
  LedgerOk-add d same balance = record {
    distinct = Distinct-put_row n d cs inv.distinct;
    row_ok = λ j x e. elim (put_row-cases n j d x cs e) [
      | inl (is_n, is_d) ↦ subst₂ (RowOk es) is_n is_d new_row
      | inr (other, old) ↦ inv.row_ok j x old
    ];
    known = λ j x e. elim (put_row-cases n j d x cs e) [
      | inl (is_n, is_d) ↦ omega arith
      | inr (other, old) ↦ omega (arith, inv.known j x old)
    ];
    no_events = λ k le. inv.no_events k (omega arith);
    adjusted_known = λ i a e. omega (arith, inv.adjusted_known i a e);
    adjusted_signed = λ i a x adj e. elim (put_row-cases n a.contract_id d x cs e) [
      | inl (is_n, is_d) ↦ absurd (omega (arith, inv.adjusted_known i a adj))
      | inr (other, old) ↦ inv.adjusted_signed i a x adj old
    ];
  }
    where
      new_row : RowOk es n d
      new_row = record {
        keyed = same;
        balanced = no_events-balanced es d n (inv.no_events n (omega arith)) balance;
        quiet = λ _. inv.no_events n (omega arith);
      }

  -- An adjustment is written for a contract that is signed.
  pub LedgerOk-adjust :
      (i : ℕ) (a : ContractAdjustment) (c : DebtContract)
      → find_row a.contract_id cs ≡ some c
      → is_negotiating c.status ≡ false
      → LedgerOk cs es (put_row i a adjs) n
  LedgerOk-adjust i a c found signed = record {
    distinct = inv.distinct;
    row_ok = inv.row_ok;
    known = inv.known;
    no_events = inv.no_events;
    adjusted_known = λ j b e. elim (put_row-cases i j a b adjs e) [
      | inl (same, is_a) ↦
          subst (λ (y : ContractAdjustment). y.contract_id < n) is_a (inv.known _ c found)
      | inr (other, old) ↦ inv.adjusted_known j b old
    ];
    adjusted_signed = λ j b x e at. elim (put_row-cases i j a b adjs e) [
      | inl (same, is_a) ↦ this b x is_a at
      | inr (other, old) ↦ inv.adjusted_signed j b x old at
    ];
  }
    where
      this :
          (b : ContractAdjustment) (x : DebtContract)
          → a ≡ b
          → find_row b.contract_id cs ≡ some x
          → is_negotiating x.status ≡ false
      this b x is_a at =
          let same : c ≡ x = some_inj (
            sym found
            ∙ subst (λ (y : ContractAdjustment). find_row y.contract_id cs ≡ some x) (sym is_a)
                at) in
          subst (λ (y : DebtContract). is_negotiating y.status ≡ false) same signed

  -- An event is booked on a signed contract, whose new row has the balance replayed with it.
  pub LedgerOk-event :
      (e : DebtEvent) (c d : DebtContract)
      → find_row e.contract_id cs ≡ some c
      → is_negotiating c.status ≡ false
      → d.id ≡ c.id
      → is_negotiating d.status ≡ false
      → d.balance ≡ replay_events d.principal (events_of e.contract_id (es ++ e ∷ []))
      → LedgerOk (put_row e.contract_id d cs) (es ++ e ∷ []) adjs n
  LedgerOk-event e c d found signed id still balance = record {
    distinct = Distinct-put_row e.contract_id d cs inv.distinct;
    row_ok = λ j x at. elim (put_row-cases e.contract_id j d x cs at) [
      | inl (same, is_d) ↦ subst₂ (RowOk (es ++ e ∷ [])) same is_d written
      | inr (other, old) ↦ untouched j x other (inv.row_ok j x old)
    ];
    known = λ j x at. elim (put_row-cases e.contract_id j d x cs at) [
      | inl (same, is_d) ↦ omega (arith, inv.known e.contract_id c found)
      | inr (other, old) ↦ inv.known j x old
    ];
    no_events = λ j le.
        events_of-append_other j es e (λ same. omega (arith, inv.known e.contract_id c found))
        ∙ inv.no_events j le;
    adjusted_known = inv.adjusted_known;
    adjusted_signed = λ i a x adj at. elim (put_row-cases e.contract_id a.contract_id d x cs at) [
      | inl (same, is_d) ↦ subst (λ (y : DebtContract). is_negotiating y.status ≡ false) is_d still
      | inr (other, old) ↦ inv.adjusted_signed i a x adj old
    ];
  }
    where
      written : RowOk (es ++ e ∷ []) e.contract_id d
      written = record {
        keyed = id ∙ (inv.row_ok e.contract_id c found).keyed;
        balanced = balance;
        quiet = λ h. cc;
      }

      untouched :
          (j : ℕ) (x : DebtContract) → e.contract_id ≢ j → RowOk es j x → RowOk (es ++ e ∷ []) j x
      untouched j x other old =
          let same = events_of-append_other j es e other in
          record {
            keyed = old.keyed;
            balanced = rw same old.balanced;
            quiet = λ h. same ∙ old.quiet h;
          }
