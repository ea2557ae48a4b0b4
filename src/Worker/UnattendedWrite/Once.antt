-- ===== src/Worker/UnattendedWrite/Once.antt =====
-- One accepted order in all.
use rpa_group.Prelude.{
  String, true, ◌≡◌, refl, [], any, Bool-cases, inl, inr, some, Option-cases, Error,
  cookie_source_error, Result, ok, err,
}
use rpa_group.Prelude.Value.{Value, int, obj, Fields, put, pos, ℤ}
use rpa_group.Services.Bind.Backends.{WecomOnlineOrder, JdyWecomBindInput, Secrets}
use rpa_group.Services.Bind.{JdyWecomBindResult, submit_bound_order, audit_order_id}
use rpa_group.Services.Write.{WriteClients, start_bind_with_recoverable_context}
use rpa_group.Services.Write.Orders.{is_submission, start_bind-SubmitsNothing}
use rpa_group.Worker.RealRecovery.{build_bind_input_from_context}
use rpa_group.Worker.UnattendedWrite.Orders.{
  file_after-append, dict_at-found, with_order_status-success, Result-cases, audit_order_id-wecom,
  >>=-submits,
}
use rpa_group.Worker.UnattendedWrite.Reports.{Texts, preflight_for_write}
use rpa_group.Worker.UnattendedWrite.{
  Files, Outcome, is_success_context, file_after, order_status, with_order_status, submit_from,
  write_and_submit, attempt_write, acquire_lock, release_lock, run_locked, run_unattended_write,
}

-- The run has made no step, and the files are as they were.
abbrev pub IsUntouched : Outcome → Files → Type 0
IsUntouched out files = (out.steps ≡ []) × (out.files ≡ files)

module _ (clients : WriteClients) (repr : Value → String) (int_of : Value → Result ℤ)
    (shape : Fields → String) (str_exc : Error → String) (texts : Texts) (secrets : Secrets) where
  -- What every submission of an order answers.
  abbrev Accepted : Type 0
  Accepted =
      (id : String)
      → (order : WecomOnlineOrder) × (clients.online.submit_order id ≡ ok order)
        × (order.status ≡ pos 5)

  submit_from-success :
      (write_preflight metadata source existing : Fields) (start : JdyWecomBindResult)
      → Accepted
      → let m =
          submit_from clients repr int_of shape str_exc texts secrets write_preflight metadata
            source start in
        any is_submission m.1 ≡ true → is_success_context (file_after m.1 existing) ≡ true
  unfolding submit_from submit_bound_order order_status with_order_status file_after
  submit_from-success write_preflight metadata source existing start accepted submitted =
      elim (Result-cases (audit_order_id clients.online repr start.context)) [
        | inl (e, raised) ↦ cc (rw raised at submitted)
        | inr (id, named) ↦
            let (order, answered, five) = accepted id in
            let (wecom, there) = audit_order_id-wecom clients repr start.context id named in
            let written =
              put "wecom" (obj (put "auditorder_status" (int (pos 5)) wecom)) start.context in
            let kept : with_order_status start.context (int (pos 5)) ≡ ok written =
              rw (with_order_status, dict_at-found "wecom" wecom start.context there) refl in
            rw (named, answered, five, kept)
              (with_order_status-success wecom start.context written there kept)
      ]

  write_and_submit-success :
      (request : JdyWecomBindInput) (write_preflight metadata source existing : Fields)
      → Accepted
      → let m =
          write_and_submit clients repr int_of shape str_exc texts secrets request write_preflight
            metadata source in
        any is_submission m.1 ≡ true → is_success_context (file_after m.1 existing) ≡ true
  unfolding write_and_submit
  write_and_submit-success request write_preflight metadata source existing accepted submitted =
      let bound =
        start_bind_with_recoverable_context clients repr shape request secrets texts.now
          texts.next in
      let rest =
        submit_from clients repr int_of shape str_exc texts secrets write_preflight metadata
          source in
      let (start, returned, last, steps) =
        >>=-submits bound rest
          (start_bind-SubmitsNothing clients repr shape request secrets texts.now texts.next)
          submitted in
      rw (steps, file_after-append bound.1 (rest start).1 existing)
        (submit_from-success write_preflight metadata source (file_after bound.1 existing) start
          accepted last)

  attempt_write-success :
      (preflight : Result Fields) (login_recovery source existing : Fields)
      → Accepted
      → let m =
          attempt_write clients repr int_of shape str_exc texts secrets preflight login_recovery
            source in
        any is_submission m.1 ≡ true → is_success_context (file_after m.1 existing) ≡ true
  unfolding attempt_write
  attempt_write-success (err (cookie_source_error m)) login_recovery source existing accepted s =
      cc s
  attempt_write-success (err e) login_recovery source existing accepted s = cc s
  attempt_write-success (ok preflight) login_recovery source existing accepted s =
      elim (Option-cases (preflight_for_write preflight)) [
        | inl stopped ↦ cc (rw (attempt_write, stopped) at s)
        | inr ((write_preflight, metadata), goes_on) ↦
            rw (attempt_write, goes_on)
              (write_and_submit-success (build_bind_input_from_context repr int_of source)
                write_preflight _ source existing accepted (rw (attempt_write, goes_on) at s))
      ]

  run_locked-success :
      (preflight : Result Fields) (login_recovery source : Fields) (files : Files)
      → Accepted
      → let out =
          run_locked clients repr int_of shape str_exc texts secrets preflight login_recovery source
            files in
        any is_submission out.steps ≡ true → is_success_context out.files.context ≡ true
  unfolding run_locked release_lock
  run_locked-success preflight login_recovery source files accepted submitted =
      attempt_write-success preflight login_recovery source files.context accepted submitted

  -- Where a submission is always accepted, with the status 5: after a run that has submitted its order,
  -- no later run for the same context's file makes a call or changes a file, whatever its clients, its
  -- preflight and its task's context are.
  pub run_unattended_write-once :
      (task_id : String) (preflight : Result Fields) (login_recovery source : Fields)
      (files : Files)
      → ((id : String)
          → (order : WecomOnlineOrder) × (clients.online.submit_order id ≡ ok order)
            × (order.status ≡ pos 5))
      → any is_submission
          (run_unattended_write clients repr int_of shape str_exc texts secrets task_id preflight
            login_recovery source files).steps
        ≡ true
      → (other_id : String) (others : WriteClients) (later : Texts) (fresh : Secrets)
        (again : Result Fields) (recovery context : Fields)
      → IsUntouched
          (run_unattended_write others repr int_of shape str_exc later fresh other_id again recovery
            context
            (run_unattended_write clients repr int_of shape str_exc texts secrets task_id preflight
              login_recovery source files).files)
          (run_unattended_write clients repr int_of shape str_exc texts secrets task_id preflight
            login_recovery source files).files
  unfolding run_unattended_write acquire_lock
  run_unattended_write-once task_id preflight login_recovery source files accepted submitted
        other_id others later fresh again recovery context =
      elim (Bool-cases (is_success_context files.context)) [
        | inl done ↦ cc (rw done at submitted)
        | inr new ↦ (elim (Option-cases files.lock) [
          | inr (owner, held) ↦ cc (rw (new, held) at submitted)
          | inl free ↦
              let success =
                run_locked-success preflight login_recovery source
                  (record files { lock = some task_id }) accepted (rw (new, free) at submitted) in
              rw (new, free, success) (refl, refl)
        ])
      ]
