-- ===== src/Tests/Ledger.antt =====
-- Small ledgers, and the theorems on replays at them.
use mathlib.Core.List.{Permᴰ}
use debt_collector.Common.{ℕ, ◌≡◌, refl, none, [], ◌∷◌, ◌++◌, arith, inl, inr}
use debt_collector.Common.Int.{pos, scale, ◌-ℤ◌, ◌≤ℤ◌}
use debt_collector.Common.Rounding.{quantize, round_half_even}
use debt_collector.Model.{DebtEvent, EventType}
use debt_collector.Ledger.{replay_events, replay_from, apply_op}
use debt_collector.Ledger.Replay.{replay_events_mono, replay_events-buyout}
use debt_collector.Ledger.Order.{replay_events-perm}

abbrev event : EventType → ℕ → DebtEvent
event event_type amount = record {
  contract_id = 10;
  event_type = event_type;
  amount = amount;
  period_index = none;
  created_at = 0;
}

-- 1.5%.
abbrev interest : DebtEvent
interest = event EventType.period_interest 150

abbrev charge_of_20 : DebtEvent
charge_of_20 = event EventType.adjustment 200000

abbrev payment_of_50 : DebtEvent
payment_of_50 = event EventType.payment_applied 500000

abbrev buyout : DebtEvent
buyout = event EventType.buyout_paid 4000000

-- The balance after interest is rounded half to even: 10.10 at 1.5% is 10.2515, and 1.50 at 1.5% is
-- 1.5225.
interest_on_1010 : replay_events 1010 (interest ∷ []) ≡ pos 1025
unfolding replay_events replay_from apply_op quantize round_half_even scale
interest_on_1010 = refl

-- The order of interest and a payment matters.
interest_first : replay_events 100000 (interest ∷ payment_of_50 ∷ []) ≡ pos 96500
unfolding replay_events replay_from apply_op quantize round_half_even scale ◌-ℤ◌
interest_first = refl

payment_first : replay_events 100000 (payment_of_50 ∷ interest ∷ []) ≡ pos 96425
unfolding replay_events replay_from apply_op quantize round_half_even scale ◌-ℤ◌
payment_first = refl

replay_events-perm_example :
    replay_events 100000 (charge_of_20 ∷ payment_of_50 ∷ [])
    ≡ replay_events 100000 (payment_of_50 ∷ charge_of_20 ∷ [])
replay_events-perm_example =
    replay_events-perm 100000 (charge_of_20 ∷ payment_of_50 ∷ [])
      (payment_of_50 ∷ charge_of_20 ∷ []) ((inl refl, refl), ((inr refl, refl), tt)) ∣ swapped ∣₁
  where
    swapped : Permᴰ (charge_of_20 ∷ payment_of_50 ∷ []) (payment_of_50 ∷ charge_of_20 ∷ [])
    swapped = Permᴰ.swap refl refl

replay_events-mono_example :
    replay_events 1000 (interest ∷ []) ≤ℤ replay_events 1010 (interest ∷ [])
replay_events-mono_example = replay_events_mono 1000 1010 (interest ∷ []) (omega arith)

replay_events-buyout_example :
    replay_events 100000 ((interest ∷ []) ++ buyout ∷ charge_of_20 ∷ [])
    ≡ replay_from (pos 0) (charge_of_20 ∷ [])
replay_events-buyout_example =
    replay_events-buyout 100000 (interest ∷ []) (charge_of_20 ∷ []) buyout refl
