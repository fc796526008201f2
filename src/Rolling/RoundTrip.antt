-- ===== src/Rolling/RoundTrip.antt =====
-- server/controllers/rolling_controller.py: what a goddess sets is what is read and what the daily job and
-- the payments go by.
use debt_collector.Common.{
  ℕ, ◌+◌, ◌≡◌, refl, true, not-false, Option, none, some, Bool-cases, inl, inr,
}
use debt_collector.Common.Table.{find_row, put_row, find_row-put_row_self}
use debt_collector.Periods.{amount_due}
use debt_collector.Calendar.{London}
use debt_collector.Model.{
  User, RollingTribute, PaymentCategory, category_enum, Db, Action, AppError, ok, err, ◌>>=◌,
}
use debt_collector.Model.Leaves.{
  Leaves, Leaves-gets, Leaves-or_raise, Leaves-raise_if, Leaves-now_utc, Leaves-modify, Leaves-pure,
  Leaves-assoc, Leaves-fresh_id, Leaves-pure_bind,
}
use debt_collector.Session.{goddess_of, resolve_goddess_id}
use debt_collector.Session.Leaves.{Leaves-goddess}
use debt_collector.Debt.Propose.{is_linked, assert_sub_belongs_to_goddess}
use debt_collector.Payment.Rules.{check_rolling_active}
use debt_collector.Job.Daily.{process_rolling, process_tribute}
use debt_collector.Rolling.{
  RollingTributeIn, RollingTributeOut, with_terms, new_tribute, save_tribute, upsert_row, upsert,
  clear_payload, require_linked, clear_for_sub, tribute_out, get_for_sub_by_goddess, upsert_for_sub,
}

-- A row has the terms of a payload.
abbrev pub HasTerms : RollingTributeIn → RollingTribute → Type 0
HasTerms payload r =
    (r.amount ≡ payload.amount)
    × (r.paused ≡ payload.paused)
    × (r.deadline_day ≡ payload.deadline_day)
    × (r.deadline_time ≡ payload.deadline_time)
    × (r.late_multiplier_per_day ≡ payload.late_multiplier_per_day)
    × (r.notes ≡ payload.notes)

-- A row goes on from the one before it: it is the same tribute, paid at the same time, or it is a new
-- one of the sub that has not been paid.
abbrev pub GoesOn : ℕ → Option RollingTribute → RollingTribute → Type 0
GoesOn sub_id none r = (r.sub_id ≡ sub_id) × (r.last_paid_at ≡ none)
GoesOn sub_id (some old) r =
    (r.id ≡ old.id)
    × (r.sub_id ≡ old.sub_id)
    × (r.last_paid_at ≡ old.last_paid_at)
    × (r.created_at ≡ old.created_at)

module _ {B : Type 0} {P : B → Db → Type 0} where
  Leaves-linked :
      (u : User) (sub_id : ℕ) (k : ℕ → Action B) (db : Db)
      → ((g : ℕ) → goddess_of u.id db ≡ some g → is_linked g sub_id db ≡ true → Leaves P (k g db))
      → Leaves P ((require_linked u sub_id >>= k) db)
  unfolding require_linked assert_sub_belongs_to_goddess
  Leaves-linked u sub_id k db h = Leaves-assoc _ _ k db (
      Leaves-goddess u.id _ db λ g at. Leaves-assoc _ _ k db (
        Leaves-assoc _ _ _ db (
          Leaves-gets _ _ db (
            Leaves-raise_if _ _ _ db
              λ linked. Leaves-pure_bind g k db (h g at (not-false _ linked))))))

  upsert_row-Leaves :
      (o : Option RollingTribute) (g sub_id : ℕ) (payload : RollingTributeIn)
      (k : RollingTribute → Action B) (db : Db)
      → ((r : RollingTribute) (n : ℕ)
          → HasTerms payload r
          → GoesOn sub_id o r
          → Leaves P (k r (record db { rollings = put_row sub_id r db.rollings; next_id = n })))
      → Leaves P ((upsert_row o sub_id g payload db.clock >>= k) db)
  unfolding save_tribute
  upsert_row-Leaves (some r) g sub_id payload k db h = Leaves-assoc _ _ k db (
      Leaves-modify _ _ db (
        Leaves-pure_bind _ k _ (
          h (with_terms payload db.clock r) db.next_id (refl, refl, refl, refl, refl, refl)
            (refl, refl, refl, refl))))
  upsert_row-Leaves none g sub_id payload k db h = Leaves-assoc _ _ k db (
      Leaves-fresh_id _ db (
        Leaves-assoc _ _ k _ (
          Leaves-modify _ _ _ (
            Leaves-pure_bind _ k _ (
              h (new_tribute db.next_id sub_id g payload db.clock) (db.next_id + 1)
                (refl, refl, refl, refl, refl, refl) (refl, refl))))))

  -- What is saved has the terms of the payload, and is found by the sub.
  Leaves-upsert :
      (g sub_id : ℕ) (payload : RollingTributeIn) (k : RollingTribute → Action B) (db : Db)
      → ((r : RollingTribute) (n : ℕ)
          → HasTerms payload r
          → GoesOn sub_id (find_row sub_id db.rollings) r
          → Leaves P (k r (record db { rollings = put_row sub_id r db.rollings; next_id = n })))
      → Leaves P ((upsert sub_id g payload >>= k) db)
  unfolding upsert
  Leaves-upsert g sub_id payload k db h = Leaves-assoc _ _ k db (
      Leaves-gets _ _ db (
        Leaves-assoc _ _ k db (
          Leaves-now_utc _ db
            (upsert_row-Leaves (find_row sub_id db.rollings) g sub_id payload k db h))))

module _ (london : London) (u : User) (sub_id : ℕ) where
  -- Who may set a tribute reads the row that stands under the sub.
  reads :
      (d : Db) (g : ℕ) (r : RollingTribute)
      → goddess_of u.id d ≡ some g
      → is_linked g sub_id d ≡ true
      → find_row sub_id d.rollings ≡ some r
      → get_for_sub_by_goddess london u sub_id d ≡ ok (some (tribute_out london r d.clock), d)
  unfolding get_for_sub_by_goddess require_linked resolve_goddess_id assert_sub_belongs_to_goddess
      ◌>>=◌
  reads d g r at linked found = rw at (rw linked (rw found refl))

  -- When a goddess sets the tribute of a sub, what is returned has the amount, the deadline, the late
  -- multiplier, the pause and the notes of the payload; it goes on from the tribute that stood there, with
  -- its id and the time of its last payment, or is a new one of the sub that has not been paid; and what
  -- the goddess reads afterwards is exactly what was returned.
  pub upsert-roundtrip :
      (payload : RollingTributeIn) (db : Db)
      → Leaves
          (λ out d.
            (get_for_sub_by_goddess london u sub_id d ≡ ok (some out, d))
            × HasTerms payload out.rolling
            × GoesOn sub_id (find_row sub_id db.rollings) out.rolling)
          (upsert_for_sub london u sub_id payload db)
  unfolding upsert_for_sub
  upsert-roundtrip payload db = Leaves-linked u sub_id _ db λ g at linked.
      Leaves-upsert g sub_id payload _ db λ r n terms before. Leaves-now_utc _ _ (
        Leaves-pure _ _
          (reads _ g r at linked (find_row-put_row_self sub_id r db.rollings), terms, before))

  nothing_due : (now : ℕ) (r : RollingTribute) → r.amount ≡ 0 → amount_due london r now ≡ 0
  unfolding amount_due
  nothing_due now r a = elim (Bool-cases r.paused) [ inl y ↦ rw y refl | inr n ↦ rw (n, a) refl ]

  idle :
      (d : Db) (r : RollingTribute)
      → find_row sub_id d.rollings ≡ some r
      → r.paused ≡ true
      → process_rolling london sub_id d ≡ ok (0, d)
  unfolding process_rolling process_tribute ◌>>=◌
  idle d r found p = rw found (rw p refl)

  refused :
      (d : Db) (r : RollingTribute)
      → find_row sub_id d.rollings ≡ some r
      → r.amount ≡ 0
      → check_rolling_active PaymentCategory.rolling sub_id d ≡ err AppError.bad_request
  unfolding check_rolling_active ◌>>=◌
  refused d r found a = rw found (rw a refl)

  -- Once a tribute has been cleared, the goddess reads that nothing is due, the daily job counts no
  -- tribute for the sub and does nothing, and a payment of the category rolling is refused.
  pub clear-stops :
      (db : Db)
      → Leaves
          (λ _ d.
            ((out : RollingTributeOut) × (get_for_sub_by_goddess london u sub_id d
                ≡ ok (some out, d))
              × (out.amount_due ≡ 0))
            × (process_rolling london sub_id d ≡ ok (0, d))
            × (check_rolling_active PaymentCategory.rolling sub_id d ≡ err AppError.bad_request))
          (clear_for_sub u sub_id db)
  unfolding clear_for_sub
  clear-stops db = Leaves-linked u sub_id _ db λ g at linked. Leaves-gets _ _ db (
      Leaves-or_raise _ _ _ db λ old found.
        Leaves-upsert g sub_id (clear_payload old) _ db λ r n (a, p, _, _, _, _) before.
          Leaves-pure _ _ (
            (
              (
                tribute_out london r db.clock,
                reads _ g r at linked (find_row-put_row_self sub_id r db.rollings),
                nothing_due db.clock r a,
              ),
              idle _ r (find_row-put_row_self sub_id r db.rollings) p,
              refused _ r (find_row-put_row_self sub_id r db.rollings) a,
            )))
