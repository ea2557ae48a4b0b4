-- ===== src/Protocol/Client.antt =====
-- rpa_platform/worker/websocket_client.py. A method gives the messages that it has sent by the end,
-- or before it raised; a message's id and time are arguments. `send_diagnostics` is left out: it
-- sends what the sanitizer of diagnostics.py makes of a payload.
pub mod Acks
use rpa_group.Prelude.{
  ℕ, String, Bool, true, false, Option, none, some, List, [], ◌∷◌, ◌++◌, ◌==◌, if◌then◌else◌, Error,
  key_error, Result, ok, err,
}
use rpa_group.Prelude.Logged.{Logged}
pub use rpa_group.Prelude.Logged.{pure, lift, ◌>>=◌, ◌>>◌}
use rpa_group.Prelude.Value.{
  Value, null, bool, int, str, arr, obj, pos, Fields, end, field, get, get_or, truthy,
}
use rpa_group.Protocol.Envelopes.{WorkerRegisterPayload, to_dict, build_envelope, parse_envelope}

-- What a method returns, and the messages that it has sent.
abbrev pub Sends : Type 0 → Type 0
Sends = Logged Fields

-- self.transport.send_json
abbrev pub send_json : Fields → Sends (Unit {0})
send_json message = (ok tt, message ∷ [])

pub record WorkerClient : Type 0 where
  pub machine_id : String
  pub robot_id : String
  pub hostname : String
  pub service_version : String
  pub capabilities : Fields

-- "msg_%s" % uuid.uuid4(), and _now_iso().
pub record Stamp : Type 0 where
  pub message_id : String
  pub sent_at : String

module _ (client : WorkerClient) (stamp : Stamp) where
  -- self.transport.send_json(self._envelope(message_type, payload))
  unfoldable pub send_envelope : String → Fields → Sends (Unit {0})
  send_envelope message_type payload = do
    message ← lift (
        build_envelope message_type client.machine_id client.robot_id payload stamp.message_id
          stamp.sent_at)
    send_json message

  unfoldable pub register : Fields → Value → Sends (Unit {0})
  register login_health current_task = send_envelope "worker.register" (
      to_dict (record {
        hostname = client.hostname;
        service_version = client.service_version;
        capabilities = client.capabilities;
        login_health = login_health;
        current_task = current_task;
      }))

  unfoldable pub heartbeat : String → Value → Fields → ℕ → Sends (Unit {0})
  heartbeat status current_task_id login_health queue_depth_local =
      send_envelope "worker.heartbeat" (
        field "status" (str status) (
          field "current_task_id" current_task_id (
            field "queue_depth_local" (int (pos queue_depth_local))
              (field "login_health" (obj login_health) end))))

  -- The handler's result where it is a dict, and what stands in for it where it is not.
  unfoldable pub handler_dict : Value → Fields
  handler_dict (obj d) = d
  handler_dict _ =
      field "accepted" (bool false)
        (field "local_execution_id" null (field "reject_reason" (str "handler_result_missing") end))

  abbrev payload_of : Value → Fields
  payload_of (obj d) = d
  payload_of _ = end

  -- `payload["task_id"]`
  task_id_of : Option Value → Result Value
  task_id_of none = err (key_error "task_id")
  task_id_of (some v) = ok v

  unfoldable pub ack_payload : Value → Value → Fields → Fields
  ack_payload task_id message_id result = field "task_id" task_id (
      field "dispatch_message_id" message_id (
        field "accepted" (bool (truthy (get_or "accepted" null result))) (
          field "local_execution_id" (get_or "local_execution_id" null result)
            (field "reject_reason" (get_or "reject_reason" (str "") result) end))))

  module _ (dispatch_handler : Fields → Result Value) where
    acknowledge : Fields → Sends (Unit {0})
    unfolding ack_payload task_id_of
    acknowledge envelope = do
      let payload = payload_of (get_or "payload" null envelope)
      result ← lift (dispatch_handler payload)
      task_id ← lift (task_id_of (get "task_id" payload))
      send_envelope "task.ack"
          (ack_payload task_id (get_or "message_id" null envelope) (handler_dict result))

    abbrev is_dispatch : Value → Bool
    is_dispatch (str s) = s == "task.dispatch"
    is_dispatch _ = false

    -- `raw` is what the transport receives; `none` is None.
    unfoldable pub receive_once : Option Fields → Sends (Option Fields)
    unfolding acknowledge
    receive_once none = pure none
    receive_once (some raw) = do
      envelope ← lift (parse_envelope raw)
      if is_dispatch (get_or "type" null envelope)
          then (acknowledge envelope >> pure (some envelope))
          else pure (some envelope)

  unfoldable pub send_progress : Fields → Sends (Unit {0})
  send_progress payload = send_envelope "task.progress" payload

  unfoldable pub send_result : Fields → Sends (Unit {0})
  send_result payload = send_envelope "task.result" payload

  unfoldable pub send_error : Fields → Sends (Unit {0})
  send_error payload = send_envelope "task.error" payload
