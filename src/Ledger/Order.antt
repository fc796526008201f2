-- ===== src/Ledger/Order.antt =====
-- `replay_events` of server/utils/ledger.py on payments and charges of whole pence, as an
-- arithmetic sum. (Interest, penalties and buyouts do not commute with them.)
use mathlib.Core.Logic.{∥∥₁_elim}
use mathlib.Core.List.{Perm, Permᴰ}
use debt_collector.Common.{ℕ, ◌/◌, ◌%◌, ◌≡◌, refl, ◌∙◌, List, [], ◌∷◌, arith, ◌⊎◌, ap, subst}
use debt_collector.Common.Int.{ℤ, ℤ-set, pos, ◌-ℤ◌, ◌+ℤ◌, int_laws}
use debt_collector.Common.Lists.{sum_by}
use debt_collector.Model.{DebtEvent}
use debt_collector.Ledger.{
  Op, multiplicative, subtract, add, close, op_of, apply_op, replay_from, replay_events,
}
use debt_collector.Ledger.Replay.{apply_op-subtract, apply_op-add}

-- An event of `_OP` "add" or "subtract" over a whole number of pence.
abbrev pub IsFlat : DebtEvent → Type 0
IsFlat e = ((op_of e.event_type ≡ add) ⊎ (op_of e.event_type ≡ subtract)) × (e.amount % 100 ≡ 0)

abbrev pub AllFlat : List DebtEvent → Type 0
AllFlat [] = Unit
AllFlat (e ∷ es) = IsFlat e × AllFlat es

abbrev pub charge : Op → ℕ → ℕ
charge add amount = amount / 100
charge _ amount = 0

abbrev pub payment : Op → ℕ → ℕ
payment subtract amount = amount / 100
payment _ amount = 0

abbrev pub charge_of : DebtEvent → ℕ
charge_of e = charge (op_of e.event_type) e.amount

abbrev pub payment_of : DebtEvent → ℕ
payment_of e = payment (op_of e.event_type) e.amount

-- A flat event changes the balance by its charge or its payment.
pub apply_op-flat :
    (o : Op) (b : ℤ) (amount : ℕ)
    → (o ≡ add) ⊎ (o ≡ subtract)
    → amount % 100 ≡ 0
    → apply_op o b amount ≡ b +ℤ pos (charge o amount) -ℤ pos (payment o amount)
apply_op-flat multiplicative b amount h whole = ground arith
apply_op-flat close b amount h whole = ground arith
apply_op-flat add b amount h whole =
    ap (apply_op add b) (omega arith) ∙ apply_op-add b (amount / 100) ∙ omega int_laws
apply_op-flat subtract b amount h whole =
    ap (apply_op subtract b) (omega arith) ∙ apply_op-subtract b (amount / 100) ∙ omega int_laws

replay_from-AllFlat :
    (es : List DebtEvent) (b : ℤ)
    → AllFlat es
    → replay_from b es ≡ b +ℤ pos (sum_by charge_of es) -ℤ pos (sum_by payment_of es)
unfolding replay_from
replay_from-AllFlat [] b h = omega int_laws
replay_from-AllFlat (e ∷ es) b (flat, h) =
    rw (apply_op-flat (op_of e.event_type) b e.amount flat.0 flat.1, replay_from-AllFlat es _ h)
      (omega int_laws)

-- The balance is the principal, plus the charges, less the payments.
pub replay_events-AllFlat :
    (principal : ℕ) (es : List DebtEvent)
    → AllFlat es
    → replay_events principal es
      ≡ pos principal +ℤ pos (sum_by charge_of es) -ℤ pos (sum_by payment_of es)
unfolding replay_events
replay_events-AllFlat principal es h = replay_from-AllFlat es (pos principal) h

AllFlat-permᴰ : {es fs : List DebtEvent} → Permᴰ es fs → AllFlat es → AllFlat fs
AllFlat-permᴰ Permᴰ.nil h = h
AllFlat-permᴰ (Permᴰ.cons e p) h = (subst IsFlat e h.0, AllFlat-permᴰ p h.1)
AllFlat-permᴰ (Permᴰ.swap e f) h = (subst IsFlat f h.1.0, (subst IsFlat e h.0, h.1.1))
AllFlat-permᴰ (Permᴰ.trans p q) h = AllFlat-permᴰ q (AllFlat-permᴰ p h)

sum_by-permᴰ :
    (f : DebtEvent → ℕ) {es fs : List DebtEvent} → Permᴰ es fs → sum_by f es ≡ sum_by f fs
sum_by-permᴰ f Permᴰ.nil = refl
sum_by-permᴰ f (Permᴰ.cons e p) = omega (arith, ap f e, sum_by-permᴰ f p)
sum_by-permᴰ f (Permᴰ.swap e g) = omega (arith, ap f e, ap f g)
sum_by-permᴰ f (Permᴰ.trans p q) = sum_by-permᴰ f p ∙ sum_by-permᴰ f q

-- Reordering payments and charges of whole pence does not change the balance.
pub replay_events-perm :
    (principal : ℕ) (es fs : List DebtEvent)
    → AllFlat es
    → Perm es fs
    → replay_events principal es ≡ replay_events principal fs
replay_events-perm principal es fs h p = ∥∥₁_elim p (ℤ-set _ _) λ d. rw (
  replay_events-AllFlat principal es h,
  replay_events-AllFlat principal fs (AllFlat-permᴰ d h),
  sum_by-permᴰ charge_of d,
  sum_by-permᴰ payment_of d,
)
