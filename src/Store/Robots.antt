-- ===== src/Store/Robots.antt =====
-- Robots, and the claim of the next task by one. A method takes the uuid and the time that it reads
-- as its first arguments.
pub mod Order
pub mod Claim
pub mod Transitions
use rpa_group.Prelude.{
  ℕ, suc, ◌+◌, String, Bool, true, false, not, ◌&&◌, ◌||◌, Option, none, some, List, [], ◌∷◌, ◌++◌,
  ◌==◌, if◌then◌else◌, is_empty, find, select, update_where, order_by, head?, any, text_le, ltb,
  eqb, Error, key_error, Result, ok, err,
}
use rpa_group.Prelude.Value.{Fields}
use rpa_group.Domain.StateMachine.{
  TaskStatus, pending, checking_login, waiting_wecom_review, waiting_wecom_online_delay,
  ready_to_online, jdy_callback_failed,
}
use rpa_group.Store.Rows.{Task, Robot, Db, task_is, robot_is}
use rpa_group.Store.Exec.{Exec, pure, raise, gets, or_raise, transact, modify, require, ◌>>=◌, ◌>>◌}

unfoldable pub register_robot : String → String → String → String → String → Fields → Exec String
register_robot uuid now name host browser_profile_path capabilities = transact do
  taken ← gets (λ s. any (robot_is uuid) s.robots)
  require (not taken) "UNIQUE constraint failed: robots.id"
  modify (λ s. record s {
    robots =
        s.robots
        ++ record {
          id = uuid;
          name = name;
          status = "idle";
          host = host;
          browser_profile_path = browser_profile_path;
          last_heartbeat_at = now;
          capabilities = capabilities;
          created_at = now;
          updated_at = now;
        }
          ∷ [];
  })
  pure uuid

unfoldable pub get_robot : String → Exec Robot
get_robot id = do row ← gets (λ s. find (robot_is id) s.robots); or_raise row (key_error id)

unfoldable pub get_robot_capabilities : String → Exec Fields
unfolding get_robot
get_robot_capabilities id = do robot ← get_robot id; pure robot.capabilities

abbrev pub with_status : String → String → Robot → Robot
with_status status now r = record r { status = status; last_heartbeat_at = now; updated_at = now }

unfoldable pub update_robot_status : String → String → String → Exec (Unit {0})
update_robot_status now id status = transact (
    modify
      (λ s. record s { robots = update_where (robot_is id) (with_status status now) s.robots }))

-- `next_check_at IS NOT NULL AND next_check_at != '' AND next_check_at <= now`
unfoldable pub is_due : String → Option String → Bool
is_due now none = false
is_due now (some at) = not (is_empty at) && text_le at now

-- The WHERE clause, by the status.
unfoldable pub runnable_in : String → TaskStatus → Option String → Bool
unfolding is_due
runnable_in now pending at = true
runnable_in now ready_to_online at = true
runnable_in now jdy_callback_failed at = true
runnable_in now waiting_wecom_review at = is_due now at
runnable_in now waiting_wecom_online_delay at = is_due now at
runnable_in now _ at = false

abbrev pub is_runnable : String → Task → Bool
is_runnable now t = runnable_in now t.status t.next_check_at

-- The CASE of the ORDER BY clause.
unfoldable pub claim_rank : TaskStatus → ℕ
claim_rank pending = 1
claim_rank ready_to_online = 2
claim_rank waiting_wecom_review = 3
claim_rank jdy_callback_failed = 4
claim_rank waiting_wecom_online_delay = 5
claim_rank _ = 9

abbrev pub claimed_before : Task → Task → Bool
claimed_before t u =
    ltb (claim_rank t.status) (claim_rank u.status)
    || (eqb (claim_rank t.status) (claim_rank u.status) && text_le t.created_at u.created_at)

unfoldable pub next_task : String → List Task → Option Task
next_task now tasks = head? (order_by claimed_before (select (is_runnable now) tasks))

-- `check_attempts` counts the claims of a task that waited for its time.
abbrev pub counted_attempts : TaskStatus → ℕ
counted_attempts waiting_wecom_review = 1
counted_attempts waiting_wecom_online_delay = 1
counted_attempts _ = 0

unfoldable pub claimed_by : String → String → Task → Task
claimed_by robot_id now t = record t {
  status = checking_login;
  assigned_robot_id = some robot_id;
  check_attempts = t.check_attempts + counted_attempts t.status;
  updated_at = now;
}

-- The two UPDATEs.
unfoldable pub claim_rows : String → String → String → Db → Db
unfolding claimed_by
claim_rows robot_id now task_id s = record s {
  tasks = update_where (task_is task_id) (claimed_by robot_id now) s.tasks;
  robots = update_where (robot_is robot_id) (with_status "busy" now) s.robots;
}

claim_found : String → String → Option Task → Exec (Option Task)
unfolding claim_rows
claim_found robot_id now none = pure none
claim_found robot_id now (some task) = do
  modify (claim_rows robot_id now task.id)
  gets (λ s. find (task_is task.id) s.tasks)

claim_next : String → String → Exec (Option Task)
unfolding claim_found
claim_next robot_id now = do task ← gets (λ s. next_task now s.tasks); claim_found robot_id now task

-- `_format_datetime(now) or _now()`: the argument's text, or the clock's where it is absent or empty.
unfoldable pub claim_time : Option String → String → String
claim_time none clock = clock
claim_time (some t) clock = if is_empty t then clock else t

unfoldable pub claim_next_runnable_task : String → String → Option String → Exec (Option Task)
unfolding claim_next
claim_next_runnable_task clock robot_id time = transact do
  let now = claim_time time clock
  row ← gets (λ s. find (robot_is robot_id) s.robots)
  robot ← or_raise row (key_error robot_id)
  if robot.status == "idle" then claim_next robot_id now else pure none
