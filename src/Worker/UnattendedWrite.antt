-- ===== src/Worker/UnattendedWrite.antt =====
-- rpa_platform/worker/wecom_bind_unattended_write.py: a binding with no one at the screen. The state
-- is the context's file, as `_load_json` reads it, and the lock's file with the text in it. The
-- preflight's answer is an argument, as are the texts that the clock gives; the sleep before the
-- order is submitted is left out, and the files can be written. Here a run is one step; the
-- interleavings of several are in UnattendedWrite/Lock.antt.
pub mod Reports
pub mod Orders
pub mod Once
pub mod Lock
use rpa_group.Prelude.{
  String, Bool, true, false, not, ◌&&◌, List, [], ◌∷◌, ◌==◌, if◌then◌else◌, is_empty, Option, none,
  some, map, Error, cookie_source_error, key_error, Result, ok, err,
}
use rpa_group.Prelude.Value.{
  Value, null, str, int, obj, Fields, end, field, get, get_or, put, truthy, pos, ℤ,
}
use rpa_group.Prelude.Logged.{Logged}
use rpa_group.Integrations.Wecom.Answers.{is_number, dict_at}
use rpa_group.Services.Bind.Backends.{
  pure, raise, lift, call, ◌>>=◌, ◌>>◌, JdyWecomBindInput, Secrets, Call,
}
use rpa_group.Services.Bind.{JdyWecomBindResult, submit_bound_order}
use rpa_group.Services.Preflight.Summaries.{known_public_error_msg}
use rpa_group.Services.Write.{
  Step, writes, asks, Steps, WriteClients, start_bind_with_recoverable_context,
}
use rpa_group.Worker.RealRecovery.{build_bind_input_from_context}
use rpa_group.Worker.UnattendedWrite.Reports.{
  Texts, already_completed_result, blocked_preflight_result, preflight_for_write, success_result,
  failed_result, missing_cookie_result, locked_result,
}

pub record Files : Type 0 where
  pub context : Fields
  pub lock : Option String

pub record Outcome : Type 0 where
  pub result : Fields
  pub steps : List Step
  pub files : Files

-- _is_success_context
unfoldable pub is_success_context : Fields → Bool
is_success_context value = elim (dict_at "wecom" value) [
  | none ↦ false
  | some wecom ↦ is_number (get_or "auditorder_status" null wecom) 5
]

-- The context's file after the steps.
unfoldable pub file_after : List Step → Fields → Fields
file_after [] context = context
file_after (writes c ∷ steps) context = file_after steps c
file_after (asks c ∷ steps) context = file_after steps context

-- `submit_result.context["wecom"]["auditorder_status"]`
unfoldable pub order_status : Fields → Result Value
order_status context = elim (dict_at "wecom" context) [
  | none ↦ err (key_error "wecom")
  | some wecom ↦ (elim (get "auditorder_status" wecom) [
    | none ↦ err (key_error "auditorder_status")
    | some v ↦ ok v
  ])
]

-- `start_result.context["wecom"]["auditorder_status"] = …`
unfoldable pub with_order_status : Fields → Value → Result Fields
with_order_status context status = elim (dict_at "wecom" context) [
  | none ↦ err (key_error "wecom")
  | some wecom ↦ ok (put "wecom" (obj (put "auditorder_status" status wecom)) context)
]

-- _acquire_lock: the file is created with the task's id in it, or it is there already.
unfoldable pub acquire_lock : String → Files → Bool × Files
acquire_lock task_id files = elim files.lock [
  | none ↦ (true, record files { lock = some task_id })
  | some owner ↦ (false, files)
]

-- _release_lock
unfoldable pub release_lock : Files → Files
release_lock files = record files { lock = none }

-- The calls of the service as steps.
abbrev pub asked : {A : Type 0} → Logged Call A → Steps A
asked (r, calls) = (r, map asks calls)

module _ (clients : WriteClients) (repr : Value → String) (int_of : Value → Result ℤ)
    (shape : Fields → String) (str_exc : Error → String) (texts : Texts) (secrets : Secrets) where
  -- The submission of the order of a binding, and the last write of the context.
  unfoldable pub submit_from : Fields → Fields → Fields → JdyWecomBindResult → Steps Fields
  submit_from write_preflight metadata source start = do
    submitted ← asked (submit_bound_order clients.online repr start.context)
    status ← lift (order_status submitted.context)
    context ← lift (with_order_status start.context status)
    call (writes context) (ok tt)
    pure (success_result repr texts write_preflight context start submitted status metadata source)

  -- From the binding on.
  unfoldable pub write_and_submit : JdyWecomBindInput → Fields → Fields → Fields → Steps Fields
  write_and_submit request write_preflight metadata source =
      start_bind_with_recoverable_context clients repr shape request secrets texts.now texts.next
      >>= submit_from write_preflight metadata source

  -- `if login_recovery: preflight_metadata.setdefault(…)`
  abbrev with_login_recovery : Fields → Fields → Fields
  with_login_recovery login_recovery metadata =
      if not (truthy (obj login_recovery)) then metadata else elim (get "login_recovery" metadata) [
        | none ↦ put "login_recovery" (obj login_recovery) metadata
        | some v ↦ metadata
      ]

  -- The body of the outer `try`.
  unfoldable pub attempt_write : Result Fields → Fields → Fields → Steps Fields
  attempt_write (err (cookie_source_error m)) login_recovery source = pure (
      missing_cookie_result (str_exc (cookie_source_error m))
        (build_bind_input_from_context repr int_of source).enterprise_name)
  attempt_write (err e) login_recovery source = raise e
  attempt_write (ok preflight) login_recovery source = elim (preflight_for_write preflight) [
    | none ↦ pure (blocked_preflight_result repr preflight)
    | some (write_preflight, metadata) ↦
        write_and_submit (build_bind_input_from_context repr int_of source) write_preflight
          (with_login_recovery login_recovery metadata) source
  ]

  -- Its `except`.
  abbrev pub caught : Result Fields → Fields
  caught (ok result) = result
  caught (err e) = failed_result (str_exc e)

  -- The run that has the lock, on the files with the lock in them; `finally` releases it.
  unfoldable pub run_locked : Result Fields → Fields → Fields → Files → Outcome
  unfolding release_lock
  run_locked preflight login_recovery source files =
      let (result, steps) = attempt_write preflight login_recovery source in
      record {
        result = caught result;
        steps = steps;
        files = release_lock (record files { context = file_after steps files.context });
      }

  -- run_unattended_wecom_bind_write
  unfoldable pub run_unattended_write : String → Result Fields → Fields → Fields → Files → Outcome
  unfolding acquire_lock
  run_unattended_write task_id preflight login_recovery source files =
      if is_success_context files.context
      then record {
        result = already_completed_result repr texts files.context source;
        steps = [];
        files = files;
      }
      else let (acquired, files') = acquire_lock task_id files in
        if acquired
        then run_locked preflight login_recovery source files'
        else record { result = locked_result; steps = []; files = files' }
