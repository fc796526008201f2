-- ===== src/Merit/Source.antt =====
-- server/daos/merit_event_dao.py: `insert_idempotent` and the partial unique index on the source.
use debt_collector.Common.{
  ℕ, ◌+◌, ◌≤◌, ◌≡◌, refl, ap, ◌∙◌, Bool, true, false, not, ◌&&◌, Option, none, some, List, [], ◌∷◌,
  ◌++◌, arith, ◌==◌, ==_iff, Bool-cases, inl, inr, subst, if◌then◌else◌,
}
use debt_collector.Common.Int.{◌+ℤ◌, int_laws}
use debt_collector.Common.Lists.{select, select-append, any_of, length, length-append}
use debt_collector.Model.{Db, MeritSourceKind, merit_source_enum, MeritEvent}
use debt_collector.Model.Leaves.{Leaves, Leaves-gets, Leaves-modify, Leaves-pure}
use debt_collector.Merit.{
  same_id, same_source, insert_if_free, insert_idempotent, counts_for, balance_for_sub,
}
use debt_collector.Merit.Balance.{share, is_taken, balance-append}

-- How many events have a source.
abbrev pub events_of_source : MeritSourceKind → ℕ → List MeritEvent → ℕ
events_of_source kind id es = length (select (same_source kind (some id)) es)

same_id-some : (o : Option ℕ) (id : ℕ) → same_id o (some id) ≡ true → o ≡ some id
same_id-some none id h = cc
same_id-some (some a) id h = ap (λ (n : ℕ). some n) ((==_iff a id).0 h)

none_selected :
    (kind k : MeritSourceKind) (o : Option ℕ) (id : ℕ) (es : List MeritEvent)
    → merit_source_enum.index k ≡ merit_source_enum.index kind
    → o ≡ some id
    → any_of (same_source k o) es ≡ false
    → events_of_source kind id es ≡ 0
none_selected kind k o id [] same is_id h = refl
none_selected kind k o id (x ∷ es) same is_id h = elim (Bool-cases (same_source k o x)) [
  | inl hit ↦ ground (arith, h, hit)
  | inr miss ↦ rw (as_k miss) (none_selected kind k o id es same is_id (ground (arith, h, miss)))
]
  where
    as_k : same_source k o x ≡ false → same_source kind (some id) x ≡ false
    as_k miss =
        subst (λ (j : Option ℕ). same_source kind j x ≡ false) is_id
          (subst
            (λ (n : ℕ).
              ((merit_source_enum.index x.source_kind == n) && same_id x.source_id o) ≡ false)
            same miss)

left_true : (a b : Bool) → (a && b) ≡ true → a ≡ true
left_true a b h = ground arith

right_true : (a b : Bool) → (a && b) ≡ true → b ≡ true
right_true a b h = ground arith

one_selected :
    (p : MeritEvent → Bool) (e : MeritEvent) → length (select p (e ∷ [])) ≡ (if p e then 1 else 0)
one_selected p e = elim (Bool-cases (p e)) [ inl y ↦ rw y refl | inr n ↦ rw n refl ]

count-append :
    (p : MeritEvent → Bool) (es : List MeritEvent) (e : MeritEvent)
    → length (select p (es ++ e ∷ [])) ≡ length (select p es) + (if p e then 1 else 0)
count-append p es e =
    ap (λ (l : List MeritEvent). length l) (select-append p es (e ∷ []))
    ∙ (length-append (select p es) (select p (e ∷ []))
        ∙ ap (λ (n : ℕ). length (select p es) + n) (one_selected p e))

-- An event whose source is free makes no second event of a source.
still_once :
    (e : MeritEvent) (kind : MeritSourceKind) (id : ℕ) (es : List MeritEvent)
    → any_of (same_source e.source_kind e.source_id) es ≡ false
    → events_of_source kind id es ≤ 1
    → events_of_source kind id (es ++ e ∷ []) ≤ 1
still_once e kind id es free once = elim (Bool-cases (same_source kind (some id) e)) [
  | inl mine ↦
      let before : events_of_source kind id es ≡ 0 =
        none_selected kind e.source_kind e.source_id id es ((==_iff _ _).0 (left_true _ _ mine))
          (same_id-some e.source_id id (right_true _ _ mine)) free in
      omega (arith, added, before, ap {B = ℕ} (λ (b : Bool). if b then 1 else 0) mine)
  | inr other ↦ omega (arith, added, once, ap {B = ℕ} (λ (b : Bool). if b then 1 else 0) other)
]
  where
    added :
        events_of_source kind id (es ++ e ∷ [])
        ≡ events_of_source kind id es + (if same_source kind (some id) e then 1 else 0)
    added = count-append (same_source kind (some id)) es e

-- `insert_idempotent` inserts an event, and says so, exactly when no event has its source yet. A
-- source that has at most one event then still has at most one, and a balance changes by the delta
-- of the event where it was inserted and counts for it, and not otherwise.
pub insert_idempotent-once :
    (e : MeritEvent) (kind : MeritSourceKind) (id s g : ℕ) (db : Db)
    → events_of_source kind id db.merit_events ≤ 1
    → Leaves
        (λ inserted d.
          (inserted ≡ not (is_taken e db))
          × (events_of_source kind id d.merit_events ≤ 1)
          × (balance_for_sub s g d
              ≡ balance_for_sub s g db +ℤ share (inserted && counts_for s g e) e.delta))
        (insert_idempotent e db)
unfolding insert_idempotent
insert_idempotent-once e kind id s g db once = Leaves-gets _ _ db (split (is_taken e db) refl)
  where
    split :
        (taken : Bool)
        → is_taken e db ≡ taken
        → Leaves
            (λ inserted d.
              (inserted ≡ not (is_taken e db))
              × (events_of_source kind id d.merit_events ≤ 1)
              × (balance_for_sub s g d
                  ≡ balance_for_sub s g db +ℤ share (inserted && counts_for s g e) e.delta))
            (insert_if_free taken e db)
    split true h = Leaves-pure _ db (rw h refl, once, omega int_laws)
    split false h = Leaves-modify _ _ db (
        Leaves-pure _ _
          (rw h refl, still_once e kind id db.merit_events h once, balance-append db e s g))
