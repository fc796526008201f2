-- ===== src/Tests/Task.antt =====
-- The calls on an open task of the sub.
use debt_collector.Common.{none, [], ◌∷◌, arith}
use debt_collector.Common.Table.{find_row}
use debt_collector.Model.{Db, TaskStatus}
use debt_collector.Model.Leaves.{Leaves}
use debt_collector.Task.{cancel_task, submit_task, approve_task, reject_task}
use debt_collector.Task.Lifecycle.{Moved, AllKeyed, task-lifecycle}
use debt_collector.Tests.{goddess_user, start_db}
use debt_collector.Tests.Profile.{open_task}

abbrev task_db : Db
task_db = record start_db { tasks = (20, open_task) ∷ [] }

task_db-AllKeyed : AllKeyed task_db.tasks
unfolding find_row
task_db-AllKeyed k t h = ground arith

task-lifecycle_example :
    Leaves
      (λ _. Moved 20 TaskStatus.open_task TaskStatus.cancelled task_db)
      (cancel_task goddess_user 20 task_db)
    × Leaves
        (λ _. Moved 20 TaskStatus.open_task TaskStatus.submitted task_db)
        (submit_task goddess_user 20 none none task_db)
    × Leaves
        (λ _. Moved 20 TaskStatus.submitted TaskStatus.approved task_db)
        (approve_task goddess_user 20 task_db)
    × Leaves
        (λ _. Moved 20 TaskStatus.submitted TaskStatus.rejected task_db)
        (reject_task goddess_user 20 "late" task_db)
task-lifecycle_example = task-lifecycle goddess_user 20 "late" none none task_db task_db-AllKeyed
