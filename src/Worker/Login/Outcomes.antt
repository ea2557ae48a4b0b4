-- ===== src/Worker/Login/Outcomes.antt =====
-- What a check of the logins leaves behind.
use rpa_group.Prelude.{
  String, false, ◌≡◌, refl, none, some, List, [], ◌∷◌, find, any, ok, select, not, Bool-cases, inl,
  inr,
}
use rpa_group.Prelude.Tables.Lookups.{any-find, find-update_self}
use rpa_group.Prelude.Value.{str, obj, Fields, end, get_or}
use rpa_group.Domain.StateMachine.{TaskStatus, running, waiting_login}
use rpa_group.Store.Rows.{Task, Robot, Db, task_is, robot_is, step_is}
use rpa_group.Store.Tasks.{get_task, set_task_status}
use rpa_group.Store.Tasks.Records.{append_task_step}
use rpa_group.Store.Robots.{get_robot, get_robot_capabilities, update_robot_status, with_status}
use rpa_group.Worker.Login.{Probe, LoginClock, conclude, entry_url, missing_of, check_task_login}

-- The status of the task, its robot and the robot's row after a check that missed some targets.
abbrev pub status_after : List String → TaskStatus
status_after [] = running
status_after (m ∷ ms) = waiting_login

abbrev pub task_after : String → String → List String → Task → Task
task_after now robot_id ms t = record t {
  status = status_after ms;
  next_check_at = none;
  assigned_robot_id = (elim ms [ [] ↦ some robot_id | _ ∷ _ ↦ none ]);
  updated_at = now;
}

abbrev pub robot_after : String → List String → Robot → Robot
robot_after now [] r = r
robot_after now (m ∷ ms) r = record r { status = "idle"; last_heartbeat_at = now; updated_at = now }

module _ (c : LoginClock) (task_id robot_id : String) (s : Db) (t : Task) (r : Robot) where
  conclude_lem :
      (results : Fields) (ms : List String)
      → find (task_is task_id) s.tasks ≡ some t
      → find (robot_is robot_id) s.robots ≡ some r
      → any (step_is c.step_uuid) s.task_steps ≡ false
      → let (result, s') = conclude c task_id robot_id results ms s in
        (result ≡ ok (record { status = status_after ms; missing_targets = ms }))
        × (find (task_is task_id) s'.tasks ≡ some (task_after c.status_time robot_id ms t))
        × (find (robot_is robot_id) s'.robots ≡ some (robot_after c.robot_time ms r))
  unfolding conclude append_task_step set_task_status update_robot_status
  conclude_lem results [] known has_robot fresh =
      rw (fresh, any-find (task_is task_id) s.tasks, known)
        (refl, find-update_self (task_is task_id) _ s.tasks t (λ y. refl) known, has_robot)
  conclude_lem results (m ∷ ms) known has_robot fresh =
      rw (fresh, any-find (task_is task_id) s.tasks, known)
        (
          refl,
          find-update_self (task_is task_id) _ s.tasks t (λ y. refl) known,
          find-update_self (robot_is robot_id) (with_status "idle" c.robot_time) s.robots r
              (λ y. refl) has_robot,
        )

-- The targets, of "jdy" and "wecom", that a probe does not find healthy at their entry URL.
abbrev pub unhealthy : Probe → Fields → Task → Robot → List String
unhealthy probe urls t r =
    select (λ target. not (probe target (get_or target (str "") urls) r t).healthy)
      ("jdy" ∷ "wecom" ∷ [])

missing-unhealthy :
    (probe : Probe) (urls : Fields) (t : Task) (r : Robot)
    → missing_of probe (get_or "jdy" (str "") urls) (get_or "wecom" (str "") urls) r t
      ≡ unhealthy probe urls t r
unfolding missing_of
missing-unhealthy probe urls t r =
    elim (Bool-cases (probe "jdy" (get_or "jdy" (str "") urls) r t).healthy) [
      | inl e ↦ elim (Bool-cases (probe "wecom" (get_or "wecom" (str "") urls) r t).healthy) [
        | inl e' ↦ rw (e, e') refl
        | inr e' ↦ rw (e, e') refl
      ]
      | inr e ↦ elim (Bool-cases (probe "wecom" (get_or "wecom" (str "") urls) r t).healthy) [
        | inl e' ↦ rw (e, e') refl
        | inr e' ↦ rw (e, e') refl
      ]
    ]

-- A check of a task and a robot that the store has, with a dict of entry URLs and a new id for the
-- step: it says which of the targets "jdy" and "wecom" the probe does not find healthy at their entry
-- URLs, in this order. If there is none the task runs on the robot, whose row is what it was;
-- otherwise the task waits for a login, no robot is assigned to it, and the robot is idle again. The
-- task's next check is cleared, and nothing else of the two rows changes but their times of update
-- and the robot's heartbeat.
pub check_task_login_lem :
    (probe : Probe) (c : LoginClock) (task_id robot_id : String) (s : Db) (t : Task) (r : Robot)
    (urls : Fields)
    → find (task_is task_id) s.tasks ≡ some t
    → find (robot_is robot_id) s.robots ≡ some r
    → any (step_is c.step_uuid) s.task_steps ≡ false
    → get_or "entry_urls" (obj end) r.capabilities ≡ obj urls
    → let (result, s') = check_task_login probe c task_id robot_id s in
      let ms = unhealthy probe urls t r in
      (result ≡ ok (record { status = status_after ms; missing_targets = ms }))
      × (find (task_is task_id) s'.tasks ≡ some (task_after c.status_time robot_id ms t))
      × (find (robot_is robot_id) s'.robots ≡ some (robot_after c.robot_time ms r))
unfolding check_task_login get_task get_robot get_robot_capabilities entry_url
check_task_login_lem probe c task_id robot_id s t r urls known has_robot fresh has_urls =
    rw (known, has_robot, has_robot, has_urls, ← missing-unhealthy probe urls t r)
      (conclude_lem c task_id robot_id s t r _ _ known has_robot fresh)
