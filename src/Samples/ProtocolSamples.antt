-- ===== src/Samples/ProtocolSamples.antt =====
-- The theorems about the messages of a worker and about the webhook at concrete inputs.
use rpa_group.Prelude.{String, ◌≡◌, refl, true, false, some, Result, ok, has_infix, strip}
use rpa_group.Prelude.Text.Lower.{lower}
use rpa_group.Prelude.Value.{Value, str, obj, bool, Fields, end, field, str_of}
use rpa_group.Protocol.Envelopes.{
  is_sensitive_key, contains_sensitive_key, build_envelope, envelope, refuse_sensitive,
  parse_envelope, missing_fields, require_none, require_object,
}
use rpa_group.Protocol.Envelopes.Safety.{KeysSafe, build_envelope-parse_envelope}
use rpa_group.Protocol.Client.{WorkerClient, Stamp, receive_once, ack_payload}
use rpa_group.Protocol.Client.Acks.{SendsClean, receive_once-SendsClean}
use rpa_group.Server.Webhook.{JdyWebhookService, idempotency_key, required_text, receive}
use rpa_group.Server.Webhook.Keys.{receive_again}
use rpa_group.Store.Tasks.{create_task_from_published_flow, insert_task, published_version}
use rpa_group.Samples.DomainSamples.{no_repr}
use rpa_group.Samples.StoreData.{db}

abbrev job : Fields
job = field "task_id" (str "t") end

abbrev dispatch : Fields
dispatch = envelope "task.dispatch" "m" "r" job "d1" "t1"

dispatch_built : build_envelope "task.dispatch" "m" "r" job "d1" "t1" ≡ ok dispatch
unfolding build_envelope envelope refuse_sensitive contains_sensitive_key is_sensitive_key lower
    has_infix
dispatch_built = refl

dispatch_parsed : parse_envelope dispatch ≡ ok dispatch
unfolding parse_envelope missing_fields require_none require_object envelope refuse_sensitive
    contains_sensitive_key is_sensitive_key lower has_infix
dispatch_parsed = refl

build_envelope-parse_envelope_example :
    (parse_envelope dispatch ≡ ok dispatch) × KeysSafe (obj dispatch)
build_envelope-parse_envelope_example =
    build_envelope-parse_envelope "task.dispatch" "m" "r" "d1" "t1" job dispatch dispatch_built

abbrev client : WorkerClient
client = record {
  machine_id = "m";
  robot_id = "r";
  hostname = "pc";
  service_version = "0.1.0";
  capabilities = end;
}

abbrev stamp : Stamp
stamp = record { message_id = "a1"; sent_at = "t2" }

abbrev accepting : Fields → Result Value
accepting payload = ok (obj (field "accepted" (bool true) end))

receive_once-SendsClean_example : SendsClean (receive_once client stamp accepting (some dispatch))
receive_once-SendsClean_example = receive_once-SendsClean client stamp accepting (some dispatch)

abbrev answer : Fields
answer = ack_payload client stamp (str "t") (str "d1") (field "accepted" (bool true) end)

answer_safe : contains_sensitive_key (obj answer) ≡ false
unfolding contains_sensitive_key is_sensitive_key lower has_infix ack_payload
answer_safe = refl

abbrev service : JdyWebhookService
service = record { team_id = "team"; flow_template_id = "flow" }

abbrev payload : String → Fields
payload name =
    field "user_id" (str "u ") (field "企业客户名称" (str name) (field "企业微信明文 CorpID" (str "ww1") end))

first_received :
    (receive no_repr service "c" "t3" (payload "Acme") db).0
    ≡ ok (record { task_id = "c"; created = true })
unfolding receive required_text strip str_of create_task_from_published_flow insert_task
    published_version idempotency_key
first_received = refl

abbrev read : String → String → Result String
read name key = required_text no_repr (payload name) key

reads_user : read "Acme" "user_id" ≡ ok "u"
unfolding required_text strip str_of
reads_user = refl

receive_again_example :
    let s' = (receive no_repr service "c" "t3" (payload "Acme") db).1 in
    receive no_repr service "d" "t4" (payload "Acme Ltd") s'
    ≡ (ok (record { task_id = "c"; created = false }), s')
unfolding required_text strip str_of
receive_again_example =
    receive_again no_repr service "c" "t3" "d" "t4" (payload "Acme") (payload "Acme Ltd") "u" "ww1"
      "Acme" db (record { task_id = "c"; created = true }) refl refl refl refl refl first_received
