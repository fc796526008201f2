-- ===== src/Consistency/Lifecycle.antt =====
-- What a contract may become, over any number of requests: the order of its statuses, its parties,
-- and its terms once they are settled.
use debt_collector.Common.{
  ℕ, ◌≡◌, refl, sym, ap, ◌∙◌, Bool, true, false, not, ◌&&◌, ◌||◌, some, subst, arith, ◌is◌,
  some_inj, inl, inr, Bool-cases, ◌==◌, ==_iff, if◌then◌else◌,
}
use debt_collector.Common.Int.{ℤ}
use debt_collector.Common.Table.{Table, find_row, put_row, find_row-put_row}
use debt_collector.Model.{Db, DebtContract, DebtContractStatus, contract_status_enum}
use debt_collector.Debt.Clauses.{is_terminal}
use debt_collector.Consistency.Invariant.{IsConsistent, is_negotiating}

-- A terminal status is final. Otherwise a contract may be countered once, when the goddess has
-- proposed it; it may come to wait for a signature (again, when its clauses change), be active, or end.
abbrev pub can_become : DebtContractStatus → DebtContractStatus → Bool
can_become s t =
    (s is t)
    || (not (is_terminal s)
        && ((s is DebtContractStatus.pending_sub) && (t is DebtContractStatus.pending_dom_counter)
            || (t is DebtContractStatus.pending_sub_signature)
            || (t is DebtContractStatus.active)
            || (t is DebtContractStatus.closed)
            || (t is DebtContractStatus.breached)
            || (t is DebtContractStatus.cancelled_by_dom)))

pub can_become_refl : (s : DebtContractStatus) → can_become s s ≡ true
can_become_refl s = ground arith

pub can_become_trans :
    (s t u : DebtContractStatus)
    → can_become s t ≡ true
    → can_become t u ≡ true
    → can_become s u ≡ true
can_become_trans s t u h k = ground arith

-- A contract at an earlier and at a later time.
pub record Follows (c d : DebtContract) : Type 0 where
  pub same_id : d.id ≡ c.id
  pub same_sub : d.sub_id ≡ c.sub_id
  pub same_goddess : d.goddess_id ≡ c.goddess_id
  pub moved : can_become c.status d.status ≡ true
  pub settled : is_negotiating c.status ≡ false → d.terms ≡ c.terms

pub Follows-refl : (c : DebtContract) → Follows c c
Follows-refl c = record {
  same_id = refl;
  same_sub = refl;
  same_goddess = refl;
  moved = can_become_refl c.status;
  settled = λ h. refl;
}

pub stays_settled :
    (s t : DebtContractStatus)
    → can_become s t ≡ true
    → is_negotiating s ≡ false
    → is_negotiating t ≡ false
stays_settled s t h k = ground arith

pub Follows-trans : (c d e : DebtContract) → Follows c d → Follows d e → Follows c e
Follows-trans c d e f g = record {
  same_id = g.same_id ∙ f.same_id;
  same_sub = g.same_sub ∙ f.same_sub;
  same_goddess = g.same_goddess ∙ f.same_goddess;
  moved = can_become_trans c.status d.status e.status f.moved g.moved;
  settled = λ h. g.settled (stays_settled c.status d.status f.moved h) ∙ f.settled h;
}

-- A contract on which only the status, and what is not of the terms, has changed.
pub Follows-status :
    (c d : DebtContract)
    → d.id ≡ c.id
    → d.sub_id ≡ c.sub_id
    → d.goddess_id ≡ c.goddess_id
    → d.terms ≡ c.terms
    → can_become c.status d.status ≡ true
    → Follows c d
Follows-status c d i s g t moved = record {
  same_id = i;
  same_sub = s;
  same_goddess = g;
  moved = moved;
  settled = λ h. t;
}

-- No contract is lost, and each follows what it was.
abbrev pub Forward : Table DebtContract → Table DebtContract → Type 0
Forward cs ds =
    (k : ℕ) (c : DebtContract)
    → find_row k cs ≡ some c
    → (d : DebtContract) × ((find_row k ds ≡ some d) × Follows c d)

pub Forward-refl : (cs : Table DebtContract) → Forward cs cs
Forward-refl cs k c found = (c, (found, Follows-refl c))

pub Forward-trans : (xs ys zs : Table DebtContract) → Forward xs ys → Forward ys zs → Forward xs zs
Forward-trans xs ys zs f g k a found =
    let (b, (at, follows)) = f k a found in
    let (c, (here, after)) = g k b at in (c, (here, Follows-trans a b c follows after))

-- A write of a row that follows the one that was there at first.
pub Forward-put :
    (cs ds : Table DebtContract) (k : ℕ) (d : DebtContract)
    → Forward cs ds
    → ((c : DebtContract) → find_row k cs ≡ some c → Follows c d)
    → Forward cs (put_row k d ds)
Forward-put cs ds k d f written j c found = elim (Bool-cases (k == j)) [
  | inl same ↦ (
    d,
    (
      find_row-put_row k j d ds ∙ ap (λ b. if b then some d else find_row j ds) same,
      written c (subst (λ (i : ℕ). find_row i cs ≡ some c) (sym ((==_iff k j).0 same)) found),
    ),
  )
  | inr other ↦
      let (e, (at, follows)) = f j c found in
      (
        e,
        (
          find_row-put_row k j d ds ∙ (ap (λ b. if b then some d else find_row j ds) other ∙ at),
          follows,
        ),
      )
]

-- The database after a handler is consistent, and each contract follows what it was before.
abbrev pub Evolves : Db → Db → Type 0
Evolves db d = IsConsistent d × Forward db.contracts d.contracts

-- A contract that is found is saved under its own id, with a row that follows it.
pub Forward-save :
    (db : Db) (ds : Table DebtContract) (k : ℕ) (c d : DebtContract)
    → IsConsistent db
    → find_row k db.contracts ≡ some c
    → Forward db.contracts ds
    → Follows c d
    → Forward db.contracts (put_row d.id d ds)
Forward-save db ds k c d inv found f follows = Forward-put db.contracts ds d.id d f λ x at.
    subst (λ y. Follows y d)
      (some_inj (
        sym found
        ∙ subst (λ (i : ℕ). find_row i db.contracts ≡ some x)
            (follows.same_id ∙ (inv.row_ok k c found).keyed) at))
      follows

-- A row under a new id.
pub Forward-new :
    (db : Db) (ds : Table DebtContract) (d : DebtContract)
    → IsConsistent db
    → Forward db.contracts ds
    → Forward db.contracts (put_row db.next_id d ds)
Forward-new db ds d inv f =
    Forward-put db.contracts ds db.next_id d f λ c at. absurd (omega (arith, inv.known _ c at))

-- A row that is found, and is written back as one that follows it.
pub Forward-at :
    (cs ds : Table DebtContract) (k : ℕ) (c d : DebtContract)
    → find_row k cs ≡ some c
    → Forward cs ds
    → Follows c d
    → Forward cs (put_row k d ds)
Forward-at cs ds k c d found f follows =
    Forward-put cs ds k d f λ x at. subst (λ y. Follows y d) (some_inj (sym found ∙ at)) follows

pub Follows-balance : (c : DebtContract) (b : ℤ) → Follows c (record c { balance = b })
Follows-balance c b = Follows-status c _ refl refl refl refl (can_become_refl c.status)

-- A new balance is stored.
pub Forward-balance :
    (cs : Table DebtContract) (k : ℕ) (c : DebtContract) (b : ℤ)
    → find_row k cs ≡ some c
    → Forward cs (put_row k (record c { balance = b }) cs)
Forward-balance cs k c b found =
    Forward-at cs cs k c _ found (Forward-refl cs) (Follows-balance c b)
