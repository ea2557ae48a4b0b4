-- ===== src/Worker/Scheduler/Rounds.antt =====
-- A round of the scheduler with the runner that stands in for a browser.
use rpa_group.Prelude.{String, false, ◌≡◌, refl, Option, none, some, [], find, any, ok}
use rpa_group.Prelude.Tables.Lookups.{any-find, any-update_where, find-update_self}
use rpa_group.Domain.StateMachine.{running}
use rpa_group.Store.Rows.{Task, Robot, Db, task_is, robot_is, step_is}
use rpa_group.Store.Tasks.{set_task_status}
use rpa_group.Store.Tasks.Records.{append_task_step}
use rpa_group.Store.Robots.{
  next_task, claimed_by, claim_rows, claim_time, with_status, update_robot_status,
}
use rpa_group.Store.Robots.Claim.{claim_succeeds, claimed_row, claim_rows-busy}
use rpa_group.Worker.Runner.{RunnerResult, RunnerClock, run_stub, run_claimed_task}
use rpa_group.Worker.Scheduler.{was_claimed, claim_next_task, run_claimed, run_once}

abbrev pub stubbed : String → String → RunnerResult
stubbed task_id robot_id = record {
  task_id = task_id;
  robot_id = robot_id;
  status = "runner_stubbed";
  missing_targets = [];
}

abbrev pub running_on : String → String → Task → Task
running_on robot_id now t = record t {
  status = running;
  next_check_at = none;
  assigned_robot_id = some robot_id;
  updated_at = now;
}

run_stub_lem :
    (c : RunnerClock) (task_id robot_id : String) (s : Db) (t : Task) (r : Robot)
    → find (task_is task_id) s.tasks ≡ some t
    → find (robot_is robot_id) s.robots ≡ some r
    → any (step_is c.step_uuid) s.task_steps ≡ false
    → let (result, s') = run_stub c task_id robot_id s in
      (result ≡ ok (stubbed task_id robot_id))
      × (find (task_is task_id) s'.tasks ≡ some (running_on robot_id c.status_time t))
      × (find (robot_is robot_id) s'.robots ≡ some (with_status "idle" c.robot_time r))
unfolding run_stub append_task_step set_task_status update_robot_status
run_stub_lem c task_id robot_id s t r known has_robot fresh =
    rw
      (
        fresh,
        any-update_where (task_is task_id) (task_is task_id) (running_on robot_id c.status_time)
            s.tasks (λ y. refl),
        any-find (task_is task_id) s.tasks,
        known,
      )
      (
        refl,
        find-update_self (task_is task_id) (running_on robot_id c.status_time) s.tasks t (λ y. refl)
            known,
        find-update_self (robot_is robot_id) (with_status "idle" c.robot_time) s.robots r
            (λ y. refl) has_robot,
      )

-- An idle robot and a task that is next in the order of claims, whose id is its own: the round hands
-- the task to the runner, which leaves it running on the robot, and the robot is idle again.
run_once-stubbed :
    (clock robot_id : String) (now : Option String) (c : RunnerClock) (s : Db) (r : Robot)
    (t : Task)
    → find (robot_is robot_id) s.robots ≡ some r
    → r.status ≡ "idle"
    → next_task (claim_time now clock) s.tasks ≡ some t
    → find (task_is t.id) s.tasks ≡ some t
    → any (step_is c.step_uuid) s.task_steps ≡ false
    → let (result, s') = run_once (run_claimed_task none c) clock robot_id now s in
      let claimed = claimed_by robot_id (claim_time now clock) t in
      let busy = with_status "busy" (claim_time now clock) r in
      (result ≡ ok (was_claimed robot_id t.id (stubbed t.id robot_id)))
      × (find (task_is t.id) s'.tasks ≡ some (running_on robot_id c.status_time claimed))
      × (find (robot_is robot_id) s'.robots ≡ some (with_status "idle" c.robot_time busy))
unfolding run_once claim_next_task run_claimed run_claimed_task run_stub claimed_by
run_once-stubbed clock robot_id now c s r t has_robot idle next known fresh =
    let at = claim_time now clock in
    let s1 = claim_rows robot_id at t.id s in
    let (done, row, free) =
      run_stub_lem c t.id robot_id s1 (claimed_by robot_id at t) (with_status "busy" at r)
        (claimed_row robot_id at t s known) (claim_rows-busy robot_id at t.id s r has_robot)
        (unfold claim_rows in fresh) in
    rw (claim_succeeds clock robot_id now s r t has_robot idle next known, done) (refl, row, free)
