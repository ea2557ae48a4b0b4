-- ===== src/Worker/RecoveryHandler/Verdicts.antt =====
-- What the handler makes of the status of a recovery.
use rpa_group.Prelude.{
  String, Bool, false, ◌≡◌, refl, [], ◌∷◌, ◌==◌, eq_iff, one_of, any, Bool-cases, inl, inr,
}
use rpa_group.Prelude.Value.{null, str, Fields, get_or, has_key}
use rpa_group.Worker.Dispatch.{WorkerTaskResult}
use rpa_group.Worker.RecoveryHandler.{unattended_result, waiting_login_result, exhausted_result}

abbrev says : String → Fields → Bool
says status message = elim (get_or "status" null message) [ str s ↦ s == status | _ ↦ false ]

-- A progress message with this status is sent.
abbrev pub reports : String → WorkerTaskResult → Bool
reports status r = any (says status) r.progress

-- A progress message tells the queue to pause or to go on.
abbrev pub controls_queue : WorkerTaskResult → Bool
controls_queue r = any (has_key "queue_control") r.progress

-- An unattended write succeeds for the dispatcher exactly when its status is success or
-- already_completed. That a write was started is reported exactly when the task ends in success or in
-- failed, and the queue is told something exactly when a person has to act.
unattended_result_lem :
    (status : String) (safe : Fields)
    → let r = unattended_result status safe in
      ((r.status == "success") ≡ one_of status ("success" ∷ "already_completed" ∷ []))
      × (reports "real_write_started" r ≡ one_of r.status ("success" ∷ "failed" ∷ []))
      × (controls_queue r ≡ (r.status == "manual_action_required"))
unfolding unattended_result waiting_login_result exhausted_result
unattended_result_lem status safe = elim (Bool-cases (status == "waiting_login")) [
  | inl e ↦ rw ((eq_iff status "waiting_login").0 e) (refl, refl, refl)
  | inr e ↦ rw e (elim (Bool-cases (status == "login_recovery_notify_exhausted")) [
    | inl e ↦ rw ((eq_iff status "login_recovery_notify_exhausted").0 e) (refl, refl, refl)
    | inr e ↦ rw e (elim (Bool-cases (status == "blocked")) [
      | inl e ↦ rw ((eq_iff status "blocked").0 e) (refl, refl, refl)
      | inr e ↦ rw e (elim (Bool-cases (status == "business_unexecutable")) [
        | inl e ↦ rw ((eq_iff status "business_unexecutable").0 e) (refl, refl, refl)
        | inr e ↦ rw e (elim (Bool-cases (status == "success")) [
          | inl e ↦ rw ((eq_iff status "success").0 e) (refl, refl, refl)
          | inr e ↦ rw e (elim (Bool-cases (status == "already_completed")) [
            | inl e ↦ rw ((eq_iff status "already_completed").0 e) (refl, refl, refl)
            | inr e ↦ rw e (refl, refl, refl)
          ])
        ])
      ])
    ])
  ])
]
