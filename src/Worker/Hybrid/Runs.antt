-- ===== src/Worker/Hybrid/Runs.antt =====
-- The loop over the steps, and the whole run.
use rpa_group.Prelude.{
  ℕ, suc, String, true, ◌≡◌, refl, none, some, [], ◌∷◌, ◌==◌, one_of, join2, Result, ok, Bool-cases,
  inl, inr, value_error, if◌then◌else◌,
}
use rpa_group.Prelude.Value.{
  Value, null, bool, int, str, arr, obj, Items, nil, cons, Fields, get_or, truthy, ℤ,
}
use rpa_group.Domain.StateMachine.{
  TaskStatus, pending, checking_login, running, waiting_login, waiting_manual_selection,
  waiting_manual_intervention, waiting_wecom_review, waiting_wecom_online_delay, ready_to_online,
  waiting_test_confirmation, jdy_callback_failed, success, failed, cancelled,
}
use rpa_group.Store.Rows.{Db}
use rpa_group.Store.Exec.{Exec, raise, lift}
use rpa_group.Store.Tasks.{set_task_status, get_task, set_task_current_step}
use rpa_group.Worker.Hybrid.Base.{Tick, HybridResult, Clients, text_at}
use rpa_group.Worker.Hybrid.Handlers.{
  jdy_resolve_corp, derive_wecom_urls, jdy_check_owner, jdy_install_bind,
}
use rpa_group.Worker.Hybrid.{snapshot_steps, run_action, run_steps, run_flow, run_from, run_hybrid}
use rpa_group.Worker.Ends.{>>=-Ends, raise-Ends}
use rpa_group.Worker.Hybrid.Release.{
  Releases, IsReleased, release-Releases, configure-Releases, submit_review-Releases,
  check_review-Releases, submit_online-Releases,
}

module _ (clients : Clients) (repr : Value → String) (int_of : Value → Result ℤ) (later : String)
    (task_id robot_id : String) where
  abbrev Released : Db → Type 0
  Released = IsReleased task_id robot_id

  run_action-Releases :
      (c : Tick) (step : Fields) (action : String) (go_on : Exec HybridResult)
      → Releases task_id robot_id go_on
      → Releases task_id robot_id
          (run_action clients repr int_of later c task_id robot_id step action go_on)
  unfolding run_action
  run_action-Releases c step action go_on h = elim (Bool-cases (action == "jdy_resolve_corp")) [
    | inl e ↦ rw e (>>=-Ends Released (jdy_resolve_corp clients c task_id step) _ (λ _. h))
    | inr e ↦ rw e (elim (Bool-cases (action == "derive_wecom_urls")) [
      | inl e ↦ rw e (>>=-Ends Released (derive_wecom_urls repr c task_id step) _ (λ _. h))
      | inr e ↦ rw e (elim (Bool-cases (action == "wecom_configure_app")) [
        | inl e ↦ rw e (configure-Releases task_id robot_id clients repr c step go_on h)
        | inr e ↦ rw e (elim (Bool-cases (action == "jdy_check_owner")) [
          | inl e ↦
              rw e (>>=-Ends Released (jdy_check_owner clients int_of c task_id step) _ (λ _. h))
          | inr e ↦ rw e (elim (Bool-cases (action == "jdy_install_bind")) [
            | inl e ↦
                rw e (>>=-Ends Released (jdy_install_bind clients int_of c task_id step) _ (λ _. h))
            | inr e ↦ rw e (elim (Bool-cases (action == "wecom_submit_review")) [
              | inl e ↦ rw e (submit_review-Releases task_id robot_id clients later c step)
              | inr e ↦ rw e (waits c step action go_on h)
            ])
          ])
        ])
      ])
    ])
  ]
    where
      waits :
          (c : Tick) (step : Fields) (action : String) (go_on : Exec HybridResult)
          → Releases task_id robot_id go_on
          → Releases task_id robot_id (
              if one_of action ("wecom_wait_review" ∷ "wecom_submit_online" ∷ [])
              then go_on
              else raise (value_error (join2 "Unsupported hybrid action: " action)))
      waits c step action go_on h =
          elim (Bool-cases (one_of action ("wecom_wait_review" ∷ "wecom_submit_online" ∷ []))) [
            | inl e ↦ rw e h
            | inr e ↦ rw e (raise-Ends Released _)
          ]

  run_steps-Releases :
      (ticks : ℕ → Tick) (n : ℕ) (steps : Items)
      → Releases task_id robot_id
          (run_steps clients repr int_of later ticks n task_id robot_id steps)
  unfolding run_steps
  run_steps-Releases ticks n nil = release-Releases task_id robot_id (ticks n) success none refl
  run_steps-Releases ticks n (cons (obj step) steps) =
      let rest = run_steps-Releases ticks (suc n) steps in
      elim (Bool-cases (truthy (get_or "enabled" (bool true) step))) [
        | inl e ↦ rw e (
            >>=-Ends Released (lift (text_at "key" step)) _ (λ key.
              >>=-Ends Released (set_task_current_step (ticks n).set_step_time task_id key) _ (λ _.
                >>=-Ends Released (lift (text_at "action" step)) _
                  (λ action. run_action-Releases (ticks n) step action _ rest))))
        | inr e ↦ rw e rest
      ]
  run_steps-Releases ticks n (cons null steps) = raise-Ends Released _
  run_steps-Releases ticks n (cons (bool b) steps) = raise-Ends Released _
  run_steps-Releases ticks n (cons (int i) steps) = raise-Ends Released _
  run_steps-Releases ticks n (cons (str t) steps) = raise-Ends Released _
  run_steps-Releases ticks n (cons (arr vs) steps) = raise-Ends Released _

  run_flow-Releases :
      (start : String) (ticks : ℕ → Tick)
      → Releases task_id robot_id (run_flow clients repr int_of later start ticks task_id robot_id)
  unfolding run_flow
  run_flow-Releases start ticks =
      >>=-Ends Released (set_task_status start task_id running none none (some robot_id)) _ (λ _.
        >>=-Ends Released (get_task task_id) _ (λ task.
          >>=-Ends Released (lift (snapshot_steps task)) _
            (λ steps. run_steps-Releases ticks 0 steps)))

  run_from-Releases :
      (status : TaskStatus) (start : String) (ticks : ℕ → Tick)
      → Releases task_id robot_id
          (run_from clients repr int_of later status start ticks task_id robot_id)
  unfolding run_from
  run_from-Releases waiting_wecom_review start ticks =
      check_review-Releases task_id robot_id clients later (ticks 0)
  run_from-Releases ready_to_online start ticks =
      submit_online-Releases task_id robot_id clients (ticks 0)
  run_from-Releases pending start ticks = run_flow-Releases start ticks
  run_from-Releases checking_login start ticks = run_flow-Releases start ticks
  run_from-Releases running start ticks = run_flow-Releases start ticks
  run_from-Releases waiting_login start ticks = run_flow-Releases start ticks
  run_from-Releases waiting_manual_selection start ticks = run_flow-Releases start ticks
  run_from-Releases waiting_manual_intervention start ticks = run_flow-Releases start ticks
  run_from-Releases waiting_wecom_online_delay start ticks = run_flow-Releases start ticks
  run_from-Releases waiting_test_confirmation start ticks = run_flow-Releases start ticks
  run_from-Releases jdy_callback_failed start ticks = run_flow-Releases start ticks
  run_from-Releases success start ticks = run_flow-Releases start ticks
  run_from-Releases failed start ticks = run_flow-Releases start ticks
  run_from-Releases cancelled start ticks = run_flow-Releases start ticks

  -- A run that returns, whatever the flow and whatever the back ends answer, leaves the robot idle,
  -- and the task without a robot and at rest: done, or waiting for its time or for a person.
  pub run_hybrid-IsReleased :
      (start : String) (ticks : ℕ → Tick) (s s' : Db) (r : HybridResult)
      → run_hybrid clients repr int_of later start ticks task_id robot_id s ≡ (ok r, s')
      → IsReleased task_id robot_id s'
  unfolding run_hybrid
  run_hybrid-IsReleased start ticks s s' r e =
      >>=-Ends Released (get_task task_id) _ (λ task. run_from-Releases task.status start ticks) s
        s' r e
