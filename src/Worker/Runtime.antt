-- ===== src/Worker/Runtime.antt =====
-- rpa_platform/worker/c360_worker_runtime.py: C360WorkerRuntime. The transport, the reporter and the
-- handlers are arguments; the n-th message of a dispatch has its own answer. The lines of the event
-- log are left out.
pub mod Answers
pub mod Delivery
use rpa_group.Prelude.{
  ℕ, zero, suc, ◌+◌, String, Bool, true, false, not, ◌&&◌, Option, none, some, List, [], ◌∷◌, ◌++◌,
  ◌==◌, if◌then◌else◌, one_of, Error, Result, ok, err, length,
}
use rpa_group.Prelude.Logged.{Logged, pure, raise, lift, call, ◌>>=◌, ◌>>◌}
use rpa_group.Prelude.Value.{Value, null, str, obj, Fields, end, field, get_or, put, str_of}
use rpa_group.Integrations.Answers.{update}
use rpa_group.Integrations.Wecom.Answers.{is_text}
use rpa_group.Worker.Dispatch.{task_id_of, WorkerTaskResult}
use rpa_group.Worker.Diagnostics.{redact_string}
use rpa_group.Worker.ClientConfig.{C360WorkerConfig, build_worker_hello}
use rpa_group.Worker.TaskHandlers.{Outcome, task_result, plain_result, Handler}

-- What the worker does with a message: it sends it, and hands it to the reporter.
pub data Attempt : Type 0 where
  send report : Fields → Attempt

-- A reporter that is a coroutine function, or a plain one.
pub data Reporter : Type 0 where
  awaited plain : (ℕ → Fields → Result (Unit {0})) → Reporter

-- The way to the other side, for each dispatch.
pub record Wire : Type 0 where
  pub send_json : ℕ → Fields → Result (Unit {0})
  pub reporter : Option Reporter

abbrev pub Deliveries : Type 0 → Type 0
Deliveries = Logged Attempt

-- The value of `reported` after the second `try`. Where an awaited reporter raises, the name is still
-- bound to the coroutine, which is true.
abbrev pub reported : Reporter → ℕ → Fields → Bool
reported (awaited r) n payload = true
reported (plain r) n payload = elim (r n payload) [ ok a ↦ true | err e ↦ false ]

-- `if send_error is not None and not reported: raise send_error`
abbrev pub raise_unless : Bool → Result (Unit {0}) → Result (Unit {0})
raise_unless done (ok a) = ok tt
raise_unless done (err e) = if done then ok tt else err e

module _ (wire : Wire) where
  -- _send_worker_message
  unfoldable pub send_worker_message : ℕ → Fields → Deliveries (Unit {0})
  send_worker_message n payload = elim wire.reporter [
    | none ↦ (raise_unless false (wire.send_json n payload), send payload ∷ [])
    | some reporter ↦ (
      raise_unless (reported reporter n payload) (wire.send_json n payload),
      send payload ∷ report payload ∷ [],
    )
  ]

  -- The loop over `result.progress`: what it returns is the number of the next message.
  unfoldable pub send_progress : String → ℕ → List Fields → Deliveries ℕ
  send_progress task_id n [] = pure n
  send_progress task_id n (progress ∷ rest) =
      send_worker_message n
        (update (field "type" (str "task.progress") (field "task_id" (str task_id) end)) progress)
      >> send_progress task_id (suc n) rest

-- _worker_completed_status
abbrev pub worker_completed_status : String → String
worker_completed_status status =
    if one_of status ("failed" ∷ "blocked" ∷ []) then "failed" else "succeeded"

-- The messages of a dispatch.
abbrev pub accepted : String → Fields
accepted task_id = field "type" (str "task.accepted") (field "task_id" (str task_id) end)

abbrev pub running : Bool → String → Fields
running simulate task_id = field "type" (str "task.progress") (
    field "task_id" (str task_id) (
      field "status" (str "running") (
        field "message" (str (if simulate then "simulated handler started" else "handler started"))
          end)))

abbrev pub completed : String → String → String → Value → Fields
completed task_id status key value =
    field "type" (str "task.completed")
      (field "task_id" (str task_id) (field "status" (str status) (field key value end)))

module _ (substitute : String → String) (repr : Value → String) (str_exc : Error → String)
    (config : C360WorkerConfig) (handler : Handler) where
  -- The messages once the handler has come back.
  unfoldable pub conclude : Wire → String → Result Outcome → Deliveries (Unit {0})
  conclude wire task_id (err e) =
      send_worker_message wire 2
        (completed task_id "failed" "error_message" (str (redact_string substitute (str_exc e))))
  conclude wire task_id (ok (task_result r)) = do
    n ← send_progress wire task_id 2 r.progress
    send_worker_message wire n
        (completed task_id (worker_completed_status r.status) "result" (obj r.result))
  conclude wire task_id (ok (plain_result value)) =
      send_worker_message wire 2 (completed task_id "succeeded" "result" value)

  -- _handle_dispatch
  unfoldable pub handle_dispatch : Wire → Fields → Deliveries (Unit {0})
  handle_dispatch wire dispatch = do
    let task_id = task_id_of repr dispatch
    send_worker_message wire 0 (accepted task_id)
    send_worker_message wire 1 (running config.simulate task_id)
    conclude wire task_id (handler dispatch)

  abbrev pub is_dispatch : Fields → Bool
  is_dispatch message = is_text (get_or "type" null message) "task.dispatch"

  -- The loop of `run_until_idle` over the messages that are received until there are none.
  unfoldable pub serve : (ℕ → Wire) → ℕ → List Fields → Deliveries (Unit {0})
  serve wires n [] = pure tt
  serve wires n (message ∷ messages) =
      let rest = serve wires (suc n) messages in
      if is_dispatch message then (handle_dispatch (wires n) message >> rest) else rest

  -- `run_until_idle`. The hello goes through the transport alone.
  unfoldable pub run_until_idle :
      (Fields → Result (Unit {0})) → (ℕ → Wire) → Fields → List Fields → Deliveries (Unit {0})
  run_until_idle send_hello wires diagnostics messages = do
    hello ← lift (build_worker_hello substitute config diagnostics)
    call (send hello) (send_hello hello)
    serve wires 0 messages
