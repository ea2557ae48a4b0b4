-- ===== src/Worker/Scheduler.antt =====
-- rpa_platform/worker/scheduler.py, for any runner.
pub mod Rounds
use rpa_group.Prelude.{String, Option, none, some}
use rpa_group.Store.Rows.{Task}
use rpa_group.Store.Exec.{Exec, pure, ◌>>=◌}
use rpa_group.Store.Robots.{claim_next_runnable_task}

-- ClaimedTaskRunner.run_claimed_task
abbrev pub Runner : Type 0 → Type 0
Runner R = String → String → Option String → Exec R

unfoldable pub claim_next_task : String → String → Option String → Exec (Option Task)
claim_next_task clock robot_id now = claim_next_runnable_task clock robot_id now

-- The dict that `run_once` returns.
pub data Round (R : Type 0) : Type 0 where
  not_claimed : String → Round R
  was_claimed : String → String → R → Round R

module _ {R : Type 0} (runner : Runner R) where
  unfoldable pub run_claimed : String → Option String → Option Task → Exec (Round R)
  run_claimed robot_id now none = pure (not_claimed robot_id)
  run_claimed robot_id now (some task) = do
    result ← runner task.id robot_id now
    pure (was_claimed robot_id task.id result)

  unfoldable pub run_once : String → String → Option String → Exec (Round R)
  run_once clock robot_id now = do
    task ← claim_next_task clock robot_id now
    run_claimed robot_id now task
