-- ===== src/Worker/Runtime/Answers.antt =====
-- How a dispatch is answered.
use rpa_group.Prelude.{
  ℕ, suc, ◌+◌, String, Bool, true, false, ◌≡◌, refl, ap, ◌∙◌, arith, List, [], ◌∷◌, ◌++◌, ◌==◌,
  count_where, All, Error, Result, ok, err, Bool-cases, inl, inr,
}
use rpa_group.Prelude.Logged.{◌>>◌, >>=-returns}
use rpa_group.Prelude.Value.{Value, null, str, obj, Fields, end, field, get, get_or, has_key, put}
use rpa_group.Prelude.Value.Dicts.{get-put}
use rpa_group.Integrations.Answers.{update}
use rpa_group.Integrations.Wecom.Answers.{is_text}
use rpa_group.Worker.Dispatch.{task_id_of}
use rpa_group.Worker.Diagnostics.{redact_string}
use rpa_group.Worker.ClientConfig.{C360WorkerConfig}
use rpa_group.Worker.TaskHandlers.{Outcome, task_result, plain_result, Handler}
use rpa_group.Worker.Runtime.{
  Attempt, send, report, Wire, Deliveries, send_worker_message, send_progress,
  worker_completed_status, accepted, running, completed, conclude, handle_dispatch, is_dispatch,
  serve,
}

-- The messages that went to the transport.
abbrev pub sent : List Attempt → List Fields
sent [] = []
sent (send m ∷ attempts) = m ∷ sent attempts
sent (report m ∷ attempts) = sent attempts

abbrev pub is_completed : Fields → Bool
is_completed m = is_text (get_or "type" null m) "task.completed"

sent-append : (a b : List Attempt) → sent (a ++ b) ≡ sent a ++ sent b
sent-append [] b = refl
sent-append (send m ∷ a) b = ap (λ l. m ∷ l) (sent-append a b)
sent-append (report m ∷ a) b = sent-append a b

-- The progress messages of a handler's result.
abbrev pub progress_messages : String → List Fields → List Fields
progress_messages task_id [] = []
progress_messages task_id (p ∷ rest) =
    update (field "type" (str "task.progress") (field "task_id" (str task_id) end)) p
    ∷ progress_messages task_id rest

sent-message :
    (wire : Wire) (n : ℕ) (payload : Fields)
    → sent (send_worker_message wire n payload).1 ≡ payload ∷ []
unfolding send_worker_message
sent-message wire n payload = ground arith

-- A message, and what follows it where it is delivered.
after_message :
    {B : Type 0} (wire : Wire) (n : ℕ) (payload : Fields) (k : Deliveries B) (b : B)
    (later : List Fields)
    → (k.0 ≡ ok b → sent k.1 ≡ later)
    → (send_worker_message wire n payload >> k).0 ≡ ok b
    → sent (send_worker_message wire n payload >> k).1 ≡ payload ∷ later
after_message wire n payload k b later h e =
    let (a, p, q, r) = >>=-returns (send_worker_message wire n payload) (λ _. k) b e in
    ap sent r
    ∙ sent-append (send_worker_message wire n payload).1 k.1
    ∙ rw (sent-message wire n payload) (ap (λ l. payload ∷ l) (h q))

send_progress_lem :
    (wire : Wire) (task_id : String) (n m : ℕ) (progress : List Fields)
    → (send_progress wire task_id n progress).0 ≡ ok m
    → sent (send_progress wire task_id n progress).1 ≡ progress_messages task_id progress
unfolding send_progress
send_progress_lem wire task_id n m [] h = refl
send_progress_lem wire task_id n m (p ∷ rest) h =
    after_message wire n _ (send_progress wire task_id (suc n) rest) m
      (progress_messages task_id rest) (send_progress_lem wire task_id (suc n) m rest) h

-- The key stands in none of the dicts.
abbrev pub LeavesOut : String → Result Outcome → Type 0
LeavesOut key (ok (task_result r)) = All (λ p. has_key key p ≡ false) r.progress
LeavesOut key (ok (plain_result v)) = Unit
LeavesOut key (err e) = Unit

get-update : (k : String) (d e : Fields) → has_key k e ≡ false → get k (update d e) ≡ get k d
get-update k d end h = refl
get-update k d (field j v e) h = elim (Bool-cases (j == k)) [
  | inl same ↦ cc (rw same at h)
  | inr other ↦ get-update k (put j v d) e (rw other at h) ∙ get-put j k v d ∙ rw other refl
]

-- Progress messages that say nothing of their type do not end a dispatch.
progress_goes_on :
    (task_id : String) (progress : List Fields)
    → All (λ p. has_key "type" p ≡ false) progress
    → count_where is_completed (progress_messages task_id progress) ≡ 0
progress_goes_on task_id [] h = refl
progress_goes_on task_id (p ∷ rest) (untyped, h) =
    rw
      (
        get_or,
        get-update "type" (field "type" (str "task.progress") (field "task_id" (str task_id) end)) p
            untyped,
      )
      (progress_goes_on task_id rest h)

count_snoc :
    (a : List Fields) (m : Fields)
    → is_completed m ≡ true
    → count_where is_completed (a ++ m ∷ []) ≡ suc (count_where is_completed a)
count_snoc [] m h = rw h refl
count_snoc (x ∷ a) m h = ground (arith, count_snoc a m h)

module _ (substitute : String → String) (repr : Value → String) (str_exc : Error → String)
    (config : C360WorkerConfig) (handler : Handler) where
  -- What follows the first two messages, by what the handler has come back with.
  abbrev pub answers : String → Result Outcome → List Fields
  answers task_id (err e) =
      completed task_id "failed" "error_message" (str (redact_string substitute (str_exc e))) ∷ []
  answers task_id (ok (task_result r)) =
      progress_messages task_id r.progress
      ++ completed task_id (worker_completed_status r.status) "result" (obj r.result) ∷ []
  answers task_id (ok (plain_result v)) = completed task_id "succeeded" "result" v ∷ []

  conclude_lem :
      (wire : Wire) (task_id : String) (outcome : Result Outcome)
      → (conclude substitute repr str_exc config handler wire task_id outcome).0 ≡ ok tt
      → sent (conclude substitute repr str_exc config handler wire task_id outcome).1
        ≡ answers task_id outcome
  unfolding conclude
  conclude_lem wire task_id (err e) h = sent-message wire 2 _
  conclude_lem wire task_id (ok (plain_result v)) h = sent-message wire 2 _
  conclude_lem wire task_id (ok (task_result r)) h =
      let final = completed task_id (worker_completed_status r.status) "result" (obj r.result) in
      let (m, p, q, parts) =
        >>=-returns (send_progress wire task_id 2 r.progress)
          (λ n. send_worker_message wire n final) tt h in
      ap sent parts
      ∙ sent-append (send_progress wire task_id 2 r.progress).1 (send_worker_message wire m final).1
      ∙ rw (send_progress_lem wire task_id 2 m r.progress p, sent-message wire m final) refl

  -- A dispatch that is handled to the end sends that it is accepted and running, then the progress
  -- messages of the handler in their order, and last the one message that it is completed: as failed
  -- where the handler has raised.
  pub handle_dispatch_lem :
      (wire : Wire) (dispatch : Fields)
      → (handle_dispatch substitute repr str_exc config handler wire dispatch).0 ≡ ok tt
      → let task_id = task_id_of repr dispatch in
        sent (handle_dispatch substitute repr str_exc config handler wire dispatch).1
        ≡ accepted task_id ∷ running config.simulate task_id ∷ answers task_id (handler dispatch)
  unfolding handle_dispatch
  handle_dispatch_lem wire dispatch h =
      let task_id = task_id_of repr dispatch in
      let rest = conclude substitute repr str_exc config handler wire task_id (handler dispatch) in
      after_message wire 0 (accepted task_id)
        (send_worker_message wire 1 (running config.simulate task_id) >> rest) tt _
        (after_message wire 1 (running config.simulate task_id) rest tt
          (answers task_id (handler dispatch)) (conclude_lem wire task_id (handler dispatch)))
        h

  answers_complete :
      (task_id : String) (outcome : Result Outcome)
      → LeavesOut "type" outcome
      → count_where is_completed (answers task_id outcome) ≡ 1
  answers_complete task_id (err e) h = refl
  answers_complete task_id (ok (plain_result v)) h = refl
  answers_complete task_id (ok (task_result r)) h =
      count_snoc (progress_messages task_id r.progress) _ refl
      ∙ ap suc (progress_goes_on task_id r.progress h)

  count-append :
      (a b : List Fields)
      → count_where is_completed (a ++ b) ≡ count_where is_completed a + count_where is_completed b
  count-append [] b = omega arith
  count-append (x ∷ a) b = ground (arith, count-append a b)

  dispatch_counts :
      (wire : Wire) (dispatch : Fields) (rest : Deliveries (Unit {0})) (k : ℕ)
      → ((d : Fields) → LeavesOut "type" (handler d))
      → (rest.0 ≡ ok tt → count_where is_completed (sent rest.1) ≡ k)
      → (handle_dispatch substitute repr str_exc config handler wire dispatch >> rest).0 ≡ ok tt
      → count_where is_completed
          (sent (handle_dispatch substitute repr str_exc config handler wire dispatch >> rest).1)
        ≡ suc k
  dispatch_counts wire dispatch rest k untyped ih h =
      let handled = handle_dispatch substitute repr str_exc config handler wire dispatch in
      let (a, p, q, parts) = >>=-returns handled (λ _. rest) tt h in
      let one = answers_complete (task_id_of repr dispatch) (handler dispatch) (untyped dispatch) in
      let first = ap (count_where is_completed) (handle_dispatch_lem wire dispatch p) ∙ one in
      ap (λ l. count_where is_completed (sent l)) parts
      ∙ ap (count_where is_completed) (sent-append handled.1 rest.1)
      ∙ count-append (sent handled.1) (sent rest.1)
      ∙ omega (arith, first, ih q)

  -- As long as all messages are delivered and no handler writes a type into its progress, the worker
  -- completes exactly as many tasks as it is dispatched, whatever other messages come in between.
  pub serve-completes :
      (wires : ℕ → Wire) (n : ℕ) (messages : List Fields)
      → ((dispatch : Fields) → LeavesOut "type" (handler dispatch))
      → (serve substitute repr str_exc config handler wires n messages).0 ≡ ok tt
      → count_where is_completed
          (sent (serve substitute repr str_exc config handler wires n messages).1)
        ≡ count_where (is_dispatch substitute repr str_exc config handler) messages
  unfolding serve
  serve-completes wires n [] untyped h = refl
  serve-completes wires n (message ∷ messages) untyped h =
      elim (Bool-cases (is_dispatch substitute repr str_exc config handler message)) [
        | inl e ↦ rw e (
            dispatch_counts (wires n) message
              (serve substitute repr str_exc config handler wires (suc n) messages) _ untyped
              (serve-completes wires (suc n) messages untyped) (rw e at h))
        | inr e ↦ rw e (serve-completes wires (suc n) messages untyped (rw e at h))
      ]
