-- ===== src/Tests/Merit.antt =====
-- A sub with 30 points, a reward of 20, and a rule that takes 5 points for a missed task once a day.
use debt_collector.Common.{◌≡◌, ◌≤◌, refl, true, not, some, none, [], ◌∷◌, ◌&&◌, ◌||◌, ◌==◌, arith}
use debt_collector.Common.Int.{pos, negsuc, ◌+ℤ◌, ◌-ℤ◌, ◌≤ℤ◌}
use debt_collector.Model.{
  Db, ok, MeritEvent, MeritSourceKind, RewardTier, PenaltyRule, PenaltyTrigger, PenaltyAction,
  PenaltySource,
}
use debt_collector.Model.Leaves.{Leaves}
use debt_collector.Merit.{insert_idempotent, balance_for_sub, counts_for, redeem_reward_as_sub}
use debt_collector.Merit.Engine.{
  Offence, apply_penalty, fired_within_cooldown, find_matching_rule, find_best,
}
use debt_collector.Merit.Balance.{share, is_taken, redeem_reward-balance}
use debt_collector.Merit.Penalty.{points_unless, has_event, apply_penalty-balance}
use debt_collector.Merit.Source.{events_of_source, insert_idempotent-once}
use debt_collector.Merit.Cooldown.{apply_penalty-once}
use debt_collector.Model.{PunishmentTier, TaskStatus}
use debt_collector.Common.Table.{find_row}
use debt_collector.Merit.Tiers.{invoke_punishment}
use debt_collector.Merit.Tiers.Invoke.{invoke_punishment-balance}
use debt_collector.Tests.{goddess_user, sub_user, start_db}

abbrev credit : MeritEvent
credit = record {
  sub_id = 2;
  goddess_id = 3;
  source_kind = MeritSourceKind.task_complete;
  source_id = some 20;
  delta = pos 30;
  created_at = 0;
}

abbrev treat : RewardTier
treat = record {
  id = 30;
  goddess_id = 3;
  name = "treat";
  description = none;
  cost = 20;
  active = true;
  created_at = 0;
  updated_at = 0;
}

abbrev missed_rule : PenaltyRule
missed_rule = record {
  id = 31;
  goddess_id = 3;
  sub_id = none;
  trigger = PenaltyTrigger.task_missed;
  action = PenaltyAction.apply_points;
  points_delta = negsuc 4;
  fee_amount = none;
  name = none;
  fee_percent = none;
  min_days_late = none;
  cooldown_hours = 24;
  active = true;
  created_at = 0;
  updated_at = 0;
}

abbrev missed_task : Offence
missed_task = record {
  goddess_id = 3;
  sub_id = 2;
  trigger = PenaltyTrigger.task_missed;
  source_kind = PenaltySource.task_miss;
  source_id = some 22;
  default_delta = negsuc 0;
  days_late = none;
}

abbrev merit_db : Db
merit_db = record start_db {
  merit_events = credit ∷ [];
  reward_tiers = (30, treat) ∷ [];
  penalty_rules = (31, missed_rule) ∷ [];
}

missed_found : find_matching_rule missed_task merit_db ≡ some missed_rule
unfolding find_matching_rule find_best
missed_found = refl

insert_idempotent-once_example :
    Leaves
      (λ inserted d.
        (inserted ≡ not (is_taken credit merit_db))
        × (events_of_source MeritSourceKind.task_complete 20 d.merit_events ≤ 1)
        × (balance_for_sub 2 3 d
            ≡ balance_for_sub 2 3 merit_db +ℤ share (inserted && counts_for 2 3 credit) (pos 30)))
      (insert_idempotent credit merit_db)
insert_idempotent-once_example =
    insert_idempotent-once credit MeritSourceKind.task_complete 20 2 3 merit_db (omega arith)

redeem_reward-balance_example :
    Leaves
      (λ out d.
        (out.1 ≡ balance_for_sub 2 3 d)
        × (out.1 ≡ balance_for_sub 2 3 merit_db -ℤ pos 20)
        × (pos 0 ≤ℤ out.1))
      (redeem_reward_as_sub sub_user 30 merit_db)
redeem_reward-balance_example = redeem_reward-balance sub_user 30 3 treat merit_db refl refl

apply_penalty-balance_example :
    Leaves
      (λ delta d.
        (delta
          ≡ points_unless
              (fired_within_cooldown missed_rule missed_task 0 merit_db
                || has_event missed_task merit_db)
              PenaltyAction.apply_points
              (negsuc 4))
        × (balance_for_sub 2 3 d ≡ balance_for_sub 2 3 merit_db +ℤ delta))
      (apply_penalty missed_task merit_db)
apply_penalty-balance_example = apply_penalty-balance missed_rule missed_task merit_db missed_found

apply_penalty-once_example :
    Leaves
      (λ delta d. apply_penalty missed_task d ≡ ok (pos 0, d))
      (apply_penalty missed_task merit_db)
apply_penalty-once_example = apply_penalty-once missed_rule missed_task merit_db missed_found

abbrev lines_to_write : PunishmentTier
lines_to_write = record {
  id = 32;
  goddess_id = 3;
  name = "lines";
  description = none;
  default_points_penalty = negsuc 9;
  active = true;
  created_at = 0;
  updated_at = 0;
}

abbrev punishing_db : Db
punishing_db = record merit_db { punishment_tiers = (32, lines_to_write) ∷ [] }

invoke_punishment-balance_example :
    Leaves
      (λ task d.
        (balance_for_sub 2 3 d
          ≡ balance_for_sub 2 3 punishing_db +ℤ share (2 == 2 && 3 == 3) (negsuc 9))
        × (find_row task.id d.tasks ≡ some task)
        × (task.status ≡ TaskStatus.open_task)
        × (task.sub_id ≡ 2)
        × (task.title ≡ "lines")
        × (task.points_on_miss ≡ negsuc 9))
      (invoke_punishment goddess_user 32 2 punishing_db)
invoke_punishment-balance_example =
    invoke_punishment-balance goddess_user 32 2 2 3 lines_to_write punishing_db refl refl
