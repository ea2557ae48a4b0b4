-- ===== src/Worker/RecoveryHandler/Secrets.antt =====
-- What the handler's results still show.
use rpa_group.Prelude.{
  String, true, false, ◌≡◌, refl, [], ◌∷◌, ◌==◌, eq_iff, one_of, All, Bool-cases, inl, inr,
}
use rpa_group.Prelude.Value.{
  Value, null, bool, int, str, arr, obj, Items, nil, cons, Fields, end, field, get_or, put,
}
use rpa_group.Domain.Redaction.{secret_keys, redact_fields, redact_context}
use rpa_group.Domain.Redaction.Hiding.{
  HidesSecrets, HidesSecretsItems, HidesSecretsFields, redact_context-HidesSecrets,
}
use rpa_group.Worker.Dispatch.{WorkerTaskResult}
use rpa_group.Worker.RecoveryHandler.{
  mask_entry, mask_key, mask_key_items, mask_key_fields, redact_bind_payload, waiting_login_result,
  exhausted_result, unattended_result, readonly_result, task_result, is_unattended, pause_control,
  resume_control,
}

module _ (name : String) (public : one_of name secret_keys ≡ false) where
  entry_str :
      (k s : String)
      → (one_of k secret_keys ≡ true → str s ≡ str "***")
      → one_of k secret_keys ≡ true
      → mask_entry name k (str s) (str s) ≡ str "***"
  entry_str k s h secret = elim (Bool-cases (k == name)) [
    | inl e ↦ cc (rw ((eq_iff k name).0 e) at secret, public)
    | inr e ↦ rw e (h secret)
  ]

  entry_hides : (k s : String) → HidesSecrets (mask_entry name k (str s) (str s))
  entry_hides k s = elim (Bool-cases (k == name)) [ inl e ↦ rw e tt | inr e ↦ rw e tt ]

  mutual
    unfolding mask_key

    mask_key_hides : (v : Value) → HidesSecrets v → HidesSecrets (mask_key name v)
    mask_key_hides (obj d) h = mask_fields_hides d h
    mask_key_hides (arr vs) h = mask_items_hides vs h
    mask_key_hides null h = tt
    mask_key_hides (bool b) h = tt
    mask_key_hides (int n) h = tt
    mask_key_hides (str s) h = tt

    mask_items_hides :
        (vs : Items) → HidesSecretsItems vs → HidesSecretsItems (mask_key_items name vs)
    mask_items_hides nil h = tt
    mask_items_hides (cons v vs) h = (mask_key_hides v h.0, mask_items_hides vs h.1)

    mask_fields_hides :
        (d : Fields) → HidesSecretsFields d → HidesSecretsFields (mask_key_fields name d)
    mask_fields_hides end h = tt
    mask_fields_hides (field k (str s) d) (secret, h, rest) =
        (entry_str k s secret, entry_hides k s, mask_fields_hides d rest)
    mask_fields_hides (field k (obj e) d) (secret, h, rest) =
        ((λ p. cc (secret p)), mask_key_hides (obj e) h, mask_fields_hides d rest)
    mask_fields_hides (field k (arr vs) d) (secret, h, rest) =
        ((λ p. cc (secret p)), mask_key_hides (arr vs) h, mask_fields_hides d rest)
    mask_fields_hides (field k null d) (secret, h, rest) =
        ((λ p. cc (secret p)), tt, mask_fields_hides d rest)
    mask_fields_hides (field k (bool b) d) (secret, h, rest) =
        ((λ p. cc (secret p)), tt, mask_fields_hides d rest)
    mask_fields_hides (field k (int n) d) (secret, h, rest) =
        ((λ p. cc (secret p)), tt, mask_fields_hides d rest)

  put_hides :
      (w : Value) (d : Fields)
      → HidesSecrets w
      → HidesSecretsFields d
      → HidesSecretsFields (put name w d)
  put_hides w end h k = ((λ p. cc (p, public)), h, tt)
  put_hides w (field j v d) h (secret, here, rest) = elim (Bool-cases (j == name)) [
    | inl e ↦ rw e ((λ p. cc (rw ((eq_iff j name).0 e) at p, public)), h, rest)
    | inr e ↦ rw e (secret, here, put_hides w d h rest)
  ]

-- What is read from a dict that hides its secrets hides them.
get_hides : (key : String) (d : Fields) → HidesSecretsFields d → HidesSecrets (get_or key null d)
get_hides key end h = tt
get_hides key (field j v d) (secret, here, rest) = elim (Bool-cases (j == key)) [
  | inl e ↦ rw (get_or, e) here
  | inr e ↦ rw (get_or, e) (get_hides key d rest)
]

redact_bind_payload_hides : (d : Fields) → HidesSecretsFields (redact_bind_payload d)
unfolding redact_bind_payload redact_context
redact_bind_payload_hides d =
    mask_fields_hides "requested_user_id" refl (mask_key_fields "plain_corp_id" (redact_fields d)) (
      mask_fields_hides "plain_corp_id" refl (redact_fields d)
        (redact_context-HidesSecrets (obj d)))

-- The result and every progress message hide the values of secret keys.
abbrev pub ShowsNoSecret : WorkerTaskResult → Type 0
ShowsNoSecret r = HidesSecretsFields r.result × All (λ p. HidesSecretsFields p) r.progress

note_hides :
    (status message : String)
    → HidesSecretsFields (field "status" (str status) (field "message" (str message) end))
note_hides status message = ((λ p. cc p), tt, ((λ p. cc p), tt, tt))

module _ (safe : Fields) (h : HidesSecretsFields safe) where
  with_control_hides :
      (action : String) (control : Value)
      → HidesSecrets control
      → HidesSecretsFields (put "queue_control" control (put "manual_action" (str action) safe))
  with_control_hides action control c =
      put_hides "queue_control" refl control (put "manual_action" (str action) safe) c
        (put_hides "manual_action" refl (str action) safe tt h)

  pause_control_hides : HidesSecrets pause_control
  pause_control_hides = ((λ p. cc p), tt, ((λ p. cc p), tt, ((λ p. cc p), tt, tt)))

  resume_control_hides : HidesSecrets resume_control
  resume_control_hides = ((λ p. cc p), tt, ((λ p. cc p), tt, ((λ p. cc p), tt, tt)))

  waiting_login_result-ShowsNoSecret : ShowsNoSecret (waiting_login_result safe)
  unfolding waiting_login_result
  waiting_login_result-ShowsNoSecret =
      let k = with_control_hides "scan_wecom_admin_qr" pause_control pause_control_hides in
      (
        k,
        (
          note_hides _ _,
          (
            (
              (λ p. cc p),
              tt,
              (
                (λ p. cc p),
                tt,
                (
                  (λ p. cc p),
                  pause_control_hides,
                  (
                    (λ p. cc p),
                    get_hides "expires_at" _ k,
                    (
                      (λ p. cc p),
                      get_hides "notify_attempts" _ k,
                      (
                        (λ p. cc p),
                        get_hides "remaining_notify_attempts" _ k,
                        (
                          (λ p. cc p),
                          get_hides "next_action" _ k,
                          ((λ p. cc p), get_hides "retry_after" _ k, tt),
                        ),
                      ),
                    ),
                  ),
                ),
              ),
            ),
            tt,
          ),
        ),
      )

  exhausted_result-ShowsNoSecret : ShowsNoSecret (exhausted_result safe)
  unfolding exhausted_result
  exhausted_result-ShowsNoSecret =
      let k = with_control_hides "manual_escalation_required" pause_control pause_control_hides in
      (
        k,
        (
          note_hides _ _,
          (
            (
              (λ p. cc p),
              tt,
              (
                (λ p. cc p),
                tt,
                (
                  (λ p. cc p),
                  pause_control_hides,
                  (
                    (λ p. cc p),
                    get_hides "notify_attempts" _ k,
                    (
                      (λ p. cc p),
                      get_hides "remaining_notify_attempts" _ k,
                      ((λ p. cc p), get_hides "next_action" _ k, tt),
                    ),
                  ),
                ),
              ),
            ),
            tt,
          ),
        ),
      )

  unattended_result-ShowsNoSecret :
      (status : String) → ShowsNoSecret (unattended_result status safe)
  unfolding unattended_result
  unattended_result-ShowsNoSecret status = elim (Bool-cases (status == "waiting_login")) [
    | inl e ↦ rw e waiting_login_result-ShowsNoSecret
    | inr e ↦ rw e (elim (Bool-cases (status == "login_recovery_notify_exhausted")) [
      | inl e ↦ rw e exhausted_result-ShowsNoSecret
      | inr e ↦ rw e (elim (Bool-cases (status == "blocked")) [
        | inl e ↦ rw e (h, (note_hides _ _, (note_hides _ _, tt)))
        | inr e ↦ rw e (elim (Bool-cases (status == "business_unexecutable")) [
          | inl e ↦ rw e (h, (note_hides _ _, (note_hides _ _, tt)))
          | inr e ↦ rw e (elim (Bool-cases (one_of status ("success" ∷ "already_completed" ∷ []))) [
            | inl e ↦
                rw e (h, (note_hides _ _, (note_hides _ _, (note_hides _ _, (note_hides _ _, tt)))))
            | inr e ↦
                rw e (h, (note_hides _ _, (note_hides _ _, (note_hides _ _, (note_hides _ _, tt)))))
          ])
        ])
      ])
    ])
  ]

  readonly_result-ShowsNoSecret : (status : String) → ShowsNoSecret (readonly_result status safe)
  unfolding readonly_result
  readonly_result-ShowsNoSecret status = elim (Bool-cases (status == "waiting_login")) [
    | inl e ↦ rw e waiting_login_result-ShowsNoSecret
    | inr e ↦ rw e (elim (Bool-cases (status == "login_recovery_notify_exhausted")) [
      | inl e ↦ rw e exhausted_result-ShowsNoSecret
      | inr e ↦
          rw e
            (elim (Bool-cases
              (one_of status ("ready_for_real_bind" ∷ "manual_confirm_required" ∷ []))) [
                | inl e ↦ rw e (
                  put_hides "queue_control" refl resume_control safe resume_control_hides h,
                  (
                    note_hides _ _,
                    (
                      ((λ p. cc p), tt, ((λ p. cc p), tt, ((λ p. cc p), resume_control_hides, tt))),
                      tt,
                    ),
                  ),
                )
                | inr e ↦ rw e (h, (note_hides _ _, (note_hides _ _, tt)))
              ])
    ])
  ]

-- Whatever the recovery gives, at no depth does what the handler gives out, the result and the
-- progress messages, hold a value under a secret key other than "***".
pub task_result-ShowsNoSecret :
    (repr : Value → String) (recovery_result : Fields)
    → ShowsNoSecret (task_result repr recovery_result)
unfolding task_result
task_result-ShowsNoSecret repr recovery_result =
    let h = redact_bind_payload_hides recovery_result in
    elim (Bool-cases (is_unattended (get_or "mode" null (redact_bind_payload recovery_result)))) [
      | inl e ↦ rw e (unattended_result-ShowsNoSecret _ h _)
      | inr e ↦ rw e (readonly_result-ShowsNoSecret _ h _)
    ]
