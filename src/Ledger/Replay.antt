-- ===== src/Ledger/Replay.antt =====
-- Lemmas on `replay_events` of server/utils/ledger.py: one event after another, whole pence, and
-- the principal.
use debt_collector.Common.{ℕ, ◌+◌, ◌*◌, ◌≤◌, ◌≡◌, refl, ◌∙◌, List, [], ◌∷◌, ◌++◌, arith, ap, subst}
use debt_collector.Common.Int.{ℤ, pos, ◌-ℤ◌, ◌+ℤ◌, ◌≤ℤ◌, scale, int_laws, scale-pos}
use debt_collector.Common.Rounding.{
  quantize, scale_by_parts, scale_mono, quantize-scale, quantize_mono,
}
use debt_collector.Model.{DebtEvent, EventType}
use debt_collector.Ledger.{
  Op, multiplicative, subtract, add, close, op_of, apply_op, replay_from, replay_events,
}

-- Replaying one list of events after another is replaying the joined list.
pub replay_from-append :
    (es : List DebtEvent) (b : ℤ) (fs : List DebtEvent)
    → replay_from b (es ++ fs) ≡ replay_from (replay_from b es) fs
unfolding replay_from
replay_from-append [] b fs = refl
replay_from-append (e ∷ es) b fs =
    replay_from-append es (apply_op (op_of e.event_type) b e.amount) fs

-- Adding one event to a ledger changes its balance by that event alone.
pub replay_events-append_one :
    (principal : ℕ) (es : List DebtEvent) (e : DebtEvent)
    → replay_events principal (es ++ e ∷ [])
      ≡ apply_op (op_of e.event_type) (replay_events principal es) e.amount
unfolding replay_events replay_from
replay_events-append_one principal es e = replay_from-append es (pos principal) (e ∷ [])

-- A debt payment of p pence lowers the balance by exactly p.
pub apply_op-subtract : (b : ℤ) (p : ℕ) → apply_op subtract b (100 * p) ≡ b -ℤ pos p
unfolding apply_op
apply_op-subtract b p = rw whole (quantize-scale (b -ℤ pos p) 100 (omega arith))
  where
    whole : scale b 100 -ℤ pos (100 * p) ≡ scale (b -ℤ pos p) 100
    whole =
        let (x, y) = scale_by_parts b 100 in
        let (u, v) = scale_by_parts (b -ℤ pos p) 100 in omega int_laws

-- A charge of p pence raises the balance by exactly p.
pub apply_op-add : (b : ℤ) (p : ℕ) → apply_op add b (100 * p) ≡ b +ℤ pos p
unfolding apply_op
apply_op-add b p = rw whole (quantize-scale (b +ℤ pos p) 100 (omega arith))
  where
    whole : scale b 100 +ℤ pos (100 * p) ≡ scale (b +ℤ pos p) 100
    whole =
        let (x, y) = scale_by_parts b 100 in
        let (u, v) = scale_by_parts (b +ℤ pos p) 100 in omega int_laws

pub apply_op_mono :
    (o : Op) (a b : ℤ) (amount : ℕ) → a ≤ℤ b → apply_op o a amount ≤ℤ apply_op o b amount
unfolding apply_op
apply_op_mono multiplicative a b amount h =
    quantize_mono _ _ 10000 (omega arith) (scale_mono a b (10000 + amount) h)
apply_op_mono subtract a b amount h =
    quantize_mono _ _ 100 (omega arith) (omega (int_laws, scale_mono a b 100 h))
apply_op_mono add a b amount h =
    quantize_mono _ _ 100 (omega arith) (omega (int_laws, scale_mono a b 100 h))
apply_op_mono close a b amount h = omega arith

pub replay_from_mono :
    (es : List DebtEvent) (a b : ℤ) → a ≤ℤ b → replay_from a es ≤ℤ replay_from b es
unfolding replay_from
replay_from_mono [] a b h = h
replay_from_mono (e ∷ es) a b h =
    replay_from_mono es (apply_op (op_of e.event_type) a e.amount)
      (apply_op (op_of e.event_type) b e.amount) (apply_op_mono (op_of e.event_type) a b e.amount h)

-- Under the same events, a contract with the larger principal never has the smaller balance,
-- whatever is rounded on the way.
pub replay_events_mono :
    (p q : ℕ) (es : List DebtEvent) → p ≤ q → replay_events p es ≤ℤ replay_events q es
unfolding replay_events
replay_events_mono p q es h = replay_from_mono es (pos p) (pos q) (omega arith)

replay_from-buyout :
    (b : ℤ) (e : DebtEvent) (fs : List DebtEvent)
    → e.event_type ≡ EventType.buyout_paid
    → replay_from b (e ∷ fs) ≡ replay_from (pos 0) fs
unfolding replay_from apply_op
replay_from-buyout b e fs h = ap (λ o. replay_from (apply_op o b e.amount) fs) (ap {B = Op} op_of h)

-- A buyout closes the ledger: the balance after it is the replay of the later events over zero,
-- whatever the principal and the earlier events.
pub replay_events-buyout :
    (principal : ℕ) (es fs : List DebtEvent) (e : DebtEvent)
    → e.event_type ≡ EventType.buyout_paid
    → replay_events principal (es ++ e ∷ fs) ≡ replay_from (pos 0) fs
unfolding replay_events
replay_events-buyout principal es fs e h =
    replay_from-append es (pos principal) (e ∷ fs) ∙ replay_from-buyout _ e fs h

-- Interest and late penalties never lower a balance that is owed.
pub apply_op-multiplicative-grows : (n amount : ℕ) → pos n ≤ℤ apply_op multiplicative (pos n) amount
unfolding apply_op
apply_op-multiplicative-grows n amount =
    subst (λ x. x ≤ℤ quantize (scale (pos n) (10000 + amount)) 10000)
      (quantize-scale (pos n) 10000 (omega arith))
      (quantize_mono _ _ 10000 (omega arith) (rw (scale-pos, scale-pos) (grind arith)))
