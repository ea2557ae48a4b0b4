-- ===== src/Server/Webhook.antt =====
-- rpa_platform/server/webhook_service.py. `repr` is the text that str() makes of a list or a dict.
pub mod Keys
use rpa_group.Prelude.{
  ℕ, String, Bool, true, false, Option, none, some, ◌==◌, if◌then◌else◌, is_empty, join2, strip,
  Error, payload_validation_error, Result, ok, err,
}
use rpa_group.Prelude.Value.{Value, null, Fields, get, str_of}
use rpa_group.Store.Exec.{Exec, lift, ◌>>=◌}
use rpa_group.Store.Tasks.{TaskRequest, TaskCreateResult, create_task_from_published_flow}

pub record JdyWebhookService : Type 0 where
  pub team_id : String
  pub flow_template_id : String

unfoldable pub idempotency_key : String → String → String
idempotency_key corp_id user_id = join2 "wecom_app_launch:" (join2 corp_id (join2 ":" user_id))

module _ (repr : Value → String) where
  required_of : String → Option Value → Result String
  required_of key none = err (payload_validation_error (join2 "Missing required field: " key))
  required_of key (some null) =
      err (payload_validation_error (join2 "Missing required field: " key))
  required_of key (some v) =
      let stripped = strip (str_of repr v) in
      if is_empty stripped
      then err (payload_validation_error (join2 "Empty required field: " key))
      else ok stripped

  -- _required_text
  unfoldable pub required_text : Fields → String → Result String
  unfolding required_of
  required_text payload key = required_of key (get key payload)

  unfoldable pub request_of : JdyWebhookService → Fields → String → String → String → TaskRequest
  request_of service payload user_id enterprise_name corp_id = record {
    team_id = service.team_id;
    flow_template_id = service.flow_template_id;
    enterprise_name = enterprise_name;
    corp_id = corp_id;
    source_user_id = user_id;
    idempotency_key = idempotency_key corp_id user_id;
    payload = payload;
  }

  unfoldable pub receive : JdyWebhookService → String → String → Fields → Exec TaskCreateResult
  unfolding request_of
  receive service uuid now payload = do
    user_id ← lift (required_text payload "user_id")
    enterprise_name ← lift (required_text payload "企业客户名称")
    corp_id ← lift (required_text payload "企业微信明文 CorpID")
    create_task_from_published_flow uuid now
        (request_of service payload user_id enterprise_name corp_id)
