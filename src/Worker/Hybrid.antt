-- ===== src/Worker/Hybrid.antt =====
-- rpa_platform/worker/hybrid_runner.py: the runner of a flow's steps. The clients of the two back
-- ends are arguments, and so are `repr` (the text that str() makes of a list or a dict), `int_of`
-- (Python's int()), the times and the uuids. `later` is the text of the time in ten minutes.
pub mod Base
pub mod Handlers
pub mod Release
pub mod Runs
use rpa_group.Prelude.{
  ℕ, zero, suc, String, Bool, true, false, ◌||◌, Option, none, some, List, [], ◌∷◌, ◌==◌,
  if◌then◌else◌, one_of, join2, Error, key_error, type_error, attribute_error, value_error, Result,
  ok, err,
}
use rpa_group.Prelude.Value.{
  Value, null, bool, str, arr, obj, Items, nil, cons, Fields, end, field, get, get_or, truthy, ℤ,
}
use rpa_group.Domain.StateMachine.{
  TaskStatus, running, waiting_wecom_review, ready_to_online, success, status_value,
}
use rpa_group.Store.Exec.{Exec, pure, raise, lift, ◌>>=◌, ◌>>◌}
use rpa_group.Store.Rows.{Task}
use rpa_group.Store.Tasks.{get_task, set_task_status, set_task_current_step}
use rpa_group.Store.Robots.{update_robot_status}
use rpa_group.Worker.Hybrid.Base.{Tick, HybridResult, Clients, text_at, release}
use rpa_group.Worker.Hybrid.Handlers.{
  jdy_resolve_corp, derive_wecom_urls, wecom_configure_app, jdy_check_owner, jdy_install_bind,
  submit_review, check_review, submit_online,
}

-- `_snapshot_steps`
unfoldable pub snapshot_steps : Task → Result Items
snapshot_steps task = elim (get "steps" task.flow_version_snapshot) [
  | some (arr steps) ↦ ok steps
  | some _ ↦ err (type_error "steps")
  | none ↦ err (key_error "steps")
]

module _ (clients : Clients) (repr : Value → String) (int_of : Value → Result ℤ)
    (later : String) where
  -- The branches on the action of a step. `go_on` is the rest of the loop.
  unfoldable pub run_action :
      Tick → String → String → Fields → String → Exec HybridResult → Exec HybridResult
  run_action c task_id robot_id step action go_on =
      if action == "jdy_resolve_corp"
      then (jdy_resolve_corp clients c task_id step >> go_on)
      else if action == "derive_wecom_urls"
      then (derive_wecom_urls repr c task_id step >> go_on)
      else if action == "wecom_configure_app"
      then wecom_configure_app clients repr c task_id robot_id step go_on
      else if action == "jdy_check_owner"
      then (jdy_check_owner clients int_of c task_id step >> go_on)
      else if action == "jdy_install_bind"
      then (jdy_install_bind clients int_of c task_id step >> go_on)
      else if action == "wecom_submit_review"
      then submit_review clients later c task_id robot_id step
      else if one_of action ("wecom_wait_review" ∷ "wecom_submit_online" ∷ [])
      then go_on
      else raise (value_error (join2 "Unsupported hybrid action: " action))

  -- The loop over the steps; `ticks` gives the times and uuids of each.
  unfoldable pub run_steps : (ℕ → Tick) → ℕ → String → String → Items → Exec HybridResult
  run_steps ticks n task_id robot_id nil = release (ticks n) task_id robot_id success none
  run_steps ticks n task_id robot_id (cons (obj step) steps) =
      let go_on = run_steps ticks (suc n) task_id robot_id steps in
      if truthy (get_or "enabled" (bool true) step)
      then (do
        key ← lift (text_at "key" step)
        set_task_current_step (ticks n).set_step_time task_id key
        action ← lift (text_at "action" step)
        run_action (ticks n) task_id robot_id step action go_on)
      else go_on
  run_steps ticks n task_id robot_id (cons _ steps) = raise (attribute_error "get")

  -- The flow from its first step.
  unfoldable pub run_flow : String → (ℕ → Tick) → String → String → Exec HybridResult
  run_flow start ticks task_id robot_id = do
    set_task_status start task_id running none none (some robot_id)
    task ← get_task task_id
    steps ← lift (snapshot_steps task)
    run_steps ticks 0 task_id robot_id steps

  -- The branches on the status that the task has when it comes to the runner.
  unfoldable pub run_from : TaskStatus → String → (ℕ → Tick) → String → String → Exec HybridResult
  run_from waiting_wecom_review start ticks task_id robot_id =
      check_review clients later (ticks 0) task_id robot_id
  run_from ready_to_online start ticks task_id robot_id =
      submit_online clients (ticks 0) task_id robot_id
  run_from _ start ticks task_id robot_id = run_flow start ticks task_id robot_id

  unfoldable pub run_hybrid : String → (ℕ → Tick) → String → String → Exec HybridResult
  run_hybrid start ticks task_id robot_id = do
    task ← get_task task_id
    run_from task.status start ticks task_id robot_id
