-- ===== src/Protocol/Client/Acks.antt =====
-- What a client sends.
use rpa_group.Prelude.{
  ℕ, ◌≤◌, String, false, ◌≡◌, refl, ap, arith, Option, none, some, List, [], ◌∷◌, ◌++◌, length, All,
  Result, ok, err, Bool-cases, inl, inr,
}
use rpa_group.Prelude.Value.{Value, null, str, obj, Fields, get, get_or}
use rpa_group.Protocol.Envelopes.{build_envelope, parse_envelope, envelope, contains_sensitive_key}
use rpa_group.Protocol.Envelopes.Safety.{
  KeysSafe, build_envelope_lem, build_envelope-parse_envelope,
}
use rpa_group.Protocol.Client.{
  Sends, WorkerClient, Stamp, send_envelope, acknowledge, task_id_of, ack_payload, handler_dict,
  receive_once, register, heartbeat, send_progress, send_result, send_error, payload_of,
  is_dispatch, pure, lift, ◌>>=◌, ◌>>◌,
}

-- The message has no sensitive key, and is one that the other side accepts.
abbrev pub IsClean : Fields → Type 0
IsClean m = KeysSafe (obj m) × (parse_envelope m ≡ ok m)

-- At most one message was sent, and each is clean.
abbrev pub SendsClean : {A : Type 0} → Sends A → Type 0
SendsClean (r, sent) = (length sent ≤ 1) × All IsClean sent

append_nil : (xs : List Fields) → xs ++ [] ≡ xs
append_nil [] = refl
append_nil (x ∷ xs) = ap (λ ys. x ∷ ys) (append_nil xs)

module _ {A B : Type 0} where
  lift-SendsClean :
      (r : Result A) (f : A → Sends B) → ((a : A) → SendsClean (f a)) → SendsClean (lift r >>= f)
  lift-SendsClean (ok a) f h = h a
  lift-SendsClean (err e) f h = (omega arith, tt)

  pure-SendsClean : (m : Sends A) (b : B) → SendsClean m → SendsClean (m >> pure b)
  pure-SendsClean (ok a, sent) b h = rw (append_nil sent) h
  pure-SendsClean (err e, sent) b h = h

module _ (client : WorkerClient) (stamp : Stamp) where
  -- Each of the client's messages goes through `send_envelope`: it sends a clean message, or raises
  -- and sends nothing.
  send_envelope-SendsClean :
      (type : String) (payload : Fields) → SendsClean (send_envelope client stamp type payload)
  unfolding send_envelope
  send_envelope-SendsClean type payload =
      go
        (build_envelope type client.machine_id client.robot_id payload stamp.message_id
          stamp.sent_at)
        refl
    where
      go :
          (r : Result Fields)
          → build_envelope type client.machine_id client.robot_id payload stamp.message_id
              stamp.sent_at
            ≡ r
          → SendsClean (send_envelope client stamp type payload)
      go (ok e) h =
          let (accepted, safe) =
            build_envelope-parse_envelope type client.machine_id client.robot_id stamp.message_id
              stamp.sent_at payload e h in
          rw h (omega arith, ((safe, accepted), tt))
      go (err e) h = rw h (omega arith, tt)

  module _ (dispatch_handler : Fields → Result Value) where
    acknowledge-SendsClean :
        (envelope : Fields) → SendsClean (acknowledge client stamp dispatch_handler envelope)
    unfolding acknowledge
    acknowledge-SendsClean envelope =
        lift-SendsClean
          (dispatch_handler (payload_of client stamp (get_or "payload" null envelope))) _
          (λ result.
            lift-SendsClean
              (task_id_of client stamp
                (get "task_id" (payload_of client stamp (get_or "payload" null envelope))))
              _ (λ task_id. send_envelope-SendsClean "task.ack" _))

    -- Whatever the transport gives and whatever the handler does, a call of `receive_once` sends at
    -- most one message, and what it sends has no sensitive key and is accepted by the other side.
    pub receive_once-SendsClean :
        (raw : Option Fields) → SendsClean (receive_once client stamp dispatch_handler raw)
    unfolding receive_once
    receive_once-SendsClean none = (omega arith, tt)
    receive_once-SendsClean (some raw) = lift-SendsClean (parse_envelope raw) _ (λ envelope.
        elim (Bool-cases
          (is_dispatch client stamp dispatch_handler (get_or "type" null envelope))) [
            | inl e ↦ rw e (
                pure-SendsClean (acknowledge client stamp dispatch_handler envelope) (some envelope)
                  (acknowledge-SendsClean envelope))
            | inr e ↦ rw e (omega arith, tt)
          ])

    -- A dispatch that names its task and that the handler takes is answered with one message, which
    -- names the task, the dispatch that it answers and what the handler said, if no key of that
    -- answer is sensitive.
    receive_once_dispatch :
        (raw payload : Fields) (task_id result : Value)
        → parse_envelope raw ≡ ok raw
        → get_or "type" null raw ≡ str "task.dispatch"
        → get_or "payload" null raw ≡ obj payload
        → get "task_id" payload ≡ some task_id
        → dispatch_handler payload ≡ ok result
        → let answer =
            ack_payload client stamp task_id
              (get_or "message_id" null raw)
              (handler_dict client stamp result) in
          contains_sensitive_key (obj answer) ≡ false
          → receive_once client stamp dispatch_handler (some raw) ≡ (
            ok (some raw),
            envelope "task.ack" client.machine_id client.robot_id answer stamp.message_id
                  stamp.sent_at
                ∷ [],
          )
    unfolding receive_once acknowledge task_id_of send_envelope
    receive_once_dispatch raw payload task_id result parsed is_task has_payload has_id taken safe =
        rw
          (
            parsed,
            is_task,
            has_payload,
            taken,
            has_id,
            build_envelope_lem "task.ack" client.machine_id client.robot_id stamp.message_id
                stamp.sent_at
                (ack_payload client stamp task_id (get_or "message_id" null raw)
                  (handler_dict client stamp result)),
            safe,
          )
          refl

  -- The methods that send a registration, a heartbeat, progress, a result or an error send at most one
  -- message, and what they send has no sensitive key and is accepted by the other side.
  client_methods-SendsClean :
      (status : String) (task current_task : Value) (login_health payload : Fields) (depth : ℕ)
      → SendsClean (register client stamp login_health current_task)
        × SendsClean (heartbeat client stamp status task login_health depth)
        × SendsClean (send_progress client stamp payload)
        × SendsClean (send_result client stamp payload)
        × SendsClean (send_error client stamp payload)
  unfolding register heartbeat send_progress send_result send_error
  client_methods-SendsClean status task current_task login_health payload depth = (
    send_envelope-SendsClean _ _,
    send_envelope-SendsClean _ _,
    send_envelope-SendsClean _ _,
    send_envelope-SendsClean _ _,
    send_envelope-SendsClean _ _,
  )
