-- ===== src/Worker/Dispatch.antt =====
-- What the handlers of the worker read of a dispatch: the same lines stand in
-- rpa_platform/worker/simulated_handlers.py, c360_task_handlers.py and wecom_bind_recovery_handler.py.
use rpa_group.Prelude.{String, List, if◌then◌else◌}
use rpa_group.Prelude.Value.{Value, null, str, obj, Fields, end, get_or, truthy, str_of}

-- `a or b`
abbrev pub or_else : Value → Value → Value
or_else v w = if truthy v then v else w

-- `_task_type`, where the dispatch has no payload that names it.
outer_type : (Value → String) → Fields → String
outer_type repr dispatch = str_of repr (
    or_else (get_or "task_type" null dispatch)
      (or_else (get_or "route_key" null dispatch) (str "")))

unfoldable pub task_type : (Value → String) → Fields → String
unfolding outer_type
task_type repr dispatch = elim (get_or "payload" null dispatch) [
  | obj payload ↦
      if truthy (get_or "task_type" null payload)
      then str_of repr (get_or "task_type" null payload)
      else outer_type repr dispatch
  | _ ↦ outer_type repr dispatch
]

-- The payload if it is a dict, and {} if it is not.
abbrev pub payload_of : Fields → Fields
payload_of dispatch = elim (get_or "payload" null dispatch) [ obj payload ↦ payload | _ ↦ end ]

-- str(dispatch.get("task_id", ""))
abbrev pub task_id_of : (Value → String) → Fields → String
task_id_of repr dispatch = str_of repr (get_or "task_id" (str "") dispatch)

-- WorkerTaskResult
pub record WorkerTaskResult : Type 0 where
  pub status : String
  pub result : Fields
  pub progress : List Fields
