-- ===== src/Samples/RuntimeSamples.antt =====
-- The theorems about the worker's runtime, its handlers and its diagnostics at concrete inputs.
use rpa_group.Prelude.{
  String, ◌≡◌, refl, false, true, ◌||◌, [], ◌∷◌, ◌==◌, some, none, Error, ok, err, value_error,
  if◌then◌else◌, count_where,
}
use rpa_group.Prelude.Text.Lower.{lower}
use rpa_group.Prelude.{strip}
use rpa_group.Prelude.Value.{str_of, str, obj, bool, end, field, Fields}
use rpa_group.Worker.Dispatch.{task_type, task_id_of}
use rpa_group.Worker.Diagnostics.{
  sanitize_diagnostic_payload, ensure_diagnostic_payload_safe, iter_sensitive_keys, sanitize_value,
  redact_string,
}
use rpa_group.Worker.Diagnostics.Sanitized.{IsSanitized, sanitize_diagnostic_payload-IsSanitized}
use rpa_group.Worker.LoginRecovery.Config.{Env}
use rpa_group.Worker.ClientConfig.{C360WorkerConfig}
use rpa_group.Worker.TaskHandlers.{Handler, task_result, handle_task}
use rpa_group.Worker.TaskHandlers.Consent.{handle_task_lem}
use rpa_group.Worker.Runtime.{
  Wire, awaited, send_worker_message, send_progress, handle_dispatch, serve, conclude, accepted,
  running, is_dispatch,
}
use rpa_group.Worker.Runtime.Delivery.{returns, stands_in, send_worker_message_lem}
use rpa_group.Worker.Runtime.Answers.{
  sent, is_completed, answers, handle_dispatch_lem, serve-completes,
}
use rpa_group.Samples.DomainSamples.{no_repr}

-- A text without credentials stays as it is.
abbrev unchanged : String → String
unchanged s = s

abbrev no_text : Error → String
no_text e = ""

abbrev facts : Fields
facts = field "host" (str "pc1") (field "interactive" (bool true) end)

facts_pass : sanitize_diagnostic_payload unchanged facts ≡ ok facts
unfolding sanitize_diagnostic_payload ensure_diagnostic_payload_safe iter_sensitive_keys
    sanitize_value redact_string lower
facts_pass = refl

sanitize_diagnostic_payload-IsSanitized_example : IsSanitized (obj facts)
sanitize_diagnostic_payload-IsSanitized_example =
    sanitize_diagnostic_payload-IsSanitized unchanged facts facts facts_pass

abbrev config : C360WorkerConfig
config = record {
  base_url = "http://c360";
  ws_url = "ws://c360/v1/rpa/workers/ws";
  worker_token = "t";
  worker_id = "w1";
  capabilities = [];
  simulate = false;
}

-- The handler reports once, and is blocked.
abbrev blocked : Handler
blocked d = ok (
    task_result (record {
      status = "blocked";
      result = end;
      progress = field "status" (str "started") end ∷ [];
    }))

abbrev dispatch : Fields
dispatch = field "type" (str "task.dispatch") (
    field "task_id" (str "a")
      (field "payload" (obj (field "task_type" (str "wecom_bind_service") end)) end))

-- The handler that writes is another one.
abbrev written : Handler
written d = ok (task_result (record { status = "done"; result = end; progress = [] }))

abbrev write_dispatch : Fields
write_dispatch =
    field "payload"
      (obj
        (field "task_type" (str "wecom_bind_service") (field "unattended_write" (str "Yes") end)))
      end

abbrev env : Env
env key = if key == "RPA_WORKER_ALLOW_UNATTENDED_WRITE" then some "1" else none

-- Both consents are there.
handle_task_lem_example :
    handle_task unchanged no_repr facts blocked (some written) env write_dispatch
    ≡ written write_dispatch
unfolding task_type str_of strip lower
handle_task_lem_example = handle_task_lem unchanged no_repr facts blocked written env write_dispatch

-- Neither the transport nor the reporter can be reached.
abbrev cut : Wire
cut = record {
  send_json = λ n m. err (value_error "closed");
  reporter = some (awaited (λ n m. err (value_error "refused")));
}

send_worker_message_lem_example :
    returns (send_worker_message cut 0 facts).0
    ≡ (returns (cut.send_json 0 facts) || stands_in cut.reporter 0 facts)
send_worker_message_lem_example = send_worker_message_lem cut 0 facts

abbrev wire : Wire
wire = record { send_json = λ n m. ok tt; reporter = none }

dispatch_handled :
    (handle_dispatch unchanged no_repr no_text config blocked wire dispatch).0 ≡ ok tt
unfolding handle_dispatch conclude send_worker_message send_progress
dispatch_handled = refl

handle_dispatch_lem_example :
    let id = task_id_of no_repr dispatch in
    sent (handle_dispatch unchanged no_repr no_text config blocked wire dispatch).1
    ≡ accepted id
      ∷ running false id
      ∷ answers unchanged no_repr no_text config blocked id (blocked dispatch)
handle_dispatch_lem_example =
    handle_dispatch_lem unchanged no_repr no_text config blocked wire dispatch dispatch_handled

all_served :
    (serve unchanged no_repr no_text config blocked (λ n. wire) 0 (facts ∷ dispatch ∷ [])).0 ≡ ok tt
unfolding serve handle_dispatch conclude send_worker_message send_progress
all_served = refl

serve-completes_example :
    count_where is_completed (
      sent (serve unchanged no_repr no_text config blocked (λ n. wire) 0 (facts ∷ dispatch ∷ [])).1)
    ≡ count_where (is_dispatch unchanged no_repr no_text config blocked) (facts ∷ dispatch ∷ [])
serve-completes_example =
    serve-completes unchanged no_repr no_text config blocked (λ n. wire) 0 (facts ∷ dispatch ∷ [])
      (λ d. (refl, tt)) all_served
