-- ===== src/Worker/Hybrid/Release.antt =====
-- A run of the hybrid runner that returns gives the robot back and leaves the task at rest.
use rpa_group.Prelude.{
  String, true, ◌≡◌, refl, Option, none, some, List, [], ◌∷◌, Bool-cases, inl, inr,
}
use rpa_group.Prelude.Value.{Value, nil, null, Fields, get_or}
use rpa_group.Domain.StateMachine.{
  TaskStatus, waiting_login, waiting_manual_intervention, waiting_wecom_review, ready_to_online,
  success, status_in, status_value,
}
use rpa_group.Store.Rows.{Db}
use rpa_group.Store.Exec.{Exec, lift}
use rpa_group.Store.Tasks.{
  set_task_status, get_task, get_task_context, merge_task_context, set_task_current_step,
}
use rpa_group.Store.Tasks.Records.{append_task_step, create_manual_action}
use rpa_group.Store.Robots.{update_robot_status}
use rpa_group.Worker.Ends.{Ends, >>=-Ends, IsLeftIn, let_go-Ends}
use rpa_group.Worker.Hybrid.Base.{
  Tick, HybridResult, Clients, ReviewStatus, reviewing, review_passed, online, unknown, release,
  log_step, is_text,
}
use rpa_group.Worker.Hybrid.Handlers.{
  pause_for_manual_action, wecom_configure_app, submit_review, after_review, check_review,
  submit_online, store_app,
}

-- The statuses in which the runner leaves a task: it is done, or waits for its time or a person.
abbrev pub at_rest : List TaskStatus
at_rest =
    success ∷ waiting_wecom_review ∷ ready_to_online ∷ waiting_login ∷ waiting_manual_intervention
    ∷ []

-- The robot is idle, and the task is at rest and nobody's.
abbrev pub IsReleased : String → String → Db → Type 0
IsReleased = IsLeftIn at_rest

module _ (task_id robot_id : String) where
  abbrev pub Q : Db → Type 0
  Q = IsReleased task_id robot_id

  abbrev pub Releases : Exec HybridResult → Type 0
  Releases = Ends (IsReleased task_id robot_id)

  pub release-Releases :
      (c : Tick) (status : TaskStatus) (at : Option String)
      → status_in status at_rest ≡ true
      → Releases (release c task_id robot_id status at)
  unfolding release set_task_status update_robot_status
  release-Releases c status at resting =
      let_go-Ends at_rest c.status_time c.robot_time task_id robot_id status at _ resting

  pause-Releases :
      (c : Tick) (step : Fields) (status : TaskStatus) (reason : String) (output : Fields)
      → status_in status at_rest ≡ true
      → Releases (pause_for_manual_action c task_id robot_id step status reason output)
  unfolding pause_for_manual_action
  pause-Releases c step status reason output resting =
      >>=-Ends Q (log_step c task_id step (status_value status) output) _ (λ _.
        >>=-Ends Q
          (create_manual_action c.action_uuid c.action_time task_id (status_value status) reason
            nil)
          _ (λ _. release-Releases c status none resting))

  module _ (clients : Clients) where
    pub configure-Releases :
        (repr : Value → String) (c : Tick) (step : Fields) (go_on : Exec HybridResult)
        → Releases go_on
        → Releases (wecom_configure_app clients repr c task_id robot_id step go_on)
    unfolding wecom_configure_app
    configure-Releases repr c step go_on h = >>=-Ends Q (get_task task_id) _ (λ task.
        >>=-Ends Q (get_task_context task_id) _ (λ context.
          >>=-Ends Q (lift (clients.configure_custom_app task context)) _ (λ result.
            elim (Bool-cases (is_text (get_or "status" null result) "needs_login")) [
              | inl e ↦ rw e (pause-Releases c step waiting_login _ result refl)
              | inr e ↦
                  elim (Bool-cases (is_text (get_or "status" null result) "manual_required")) [
                    | inl k ↦
                        rw (e, k) (pause-Releases c step waiting_manual_intervention _ result refl)
                    | inr k ↦
                        rw (e, k) (>>=-Ends Q (store_app clients c task_id step result) _ (λ _. h))
                  ]
            ])))

    pub submit_review-Releases :
        (later : String) (c : Tick) (step : Fields)
        → Releases (submit_review clients later c task_id robot_id step)
    unfolding submit_review
    submit_review-Releases later c step = >>=-Ends Q (get_task task_id) _ (λ task.
        >>=-Ends Q (get_task_context task_id) _ (λ context.
          >>=-Ends Q (lift (clients.wecom_submit_review task context)) _ (λ result.
            >>=-Ends Q (merge_task_context c.merge_time task_id _) _ (λ _.
              >>=-Ends Q (log_step c task_id step "success" _) _
                (λ _. release-Releases c waiting_wecom_review (some later) refl)))))

    after_review-Releases :
        (later : String) (c : Tick) (status : ReviewStatus)
        → Releases (after_review clients later c task_id robot_id status)
    unfolding after_review
    after_review-Releases later c review_passed = release-Releases c ready_to_online none refl
    after_review-Releases later c reviewing =
        release-Releases c waiting_wecom_review (some later) refl
    after_review-Releases later c online = release-Releases c waiting_wecom_review (some later) refl
    after_review-Releases later c unknown =
        release-Releases c waiting_wecom_review (some later) refl

    pub check_review-Releases :
        (later : String) (c : Tick) → Releases (check_review clients later c task_id robot_id)
    unfolding check_review
    check_review-Releases later c =
        >>=-Ends Q (set_task_current_step c.set_step_time task_id "wecom_wait_review") _ (λ _.
          >>=-Ends Q (get_task task_id) _ (λ task.
            >>=-Ends Q (get_task_context task_id) _ (λ context.
              >>=-Ends Q (lift (clients.check_review_status task context)) _ (λ status.
                >>=-Ends Q (merge_task_context c.merge_time task_id _) _ (λ _.
                  >>=-Ends Q (append_task_step c.step_uuid c.step_time task_id _ _ _ _ _) _
                    (λ _. after_review-Releases later c status))))))

    pub submit_online-Releases : (c : Tick) → Releases (submit_online clients c task_id robot_id)
    unfolding submit_online
    submit_online-Releases c =
        >>=-Ends Q (set_task_current_step c.set_step_time task_id "wecom_submit_online") _ (λ _.
          >>=-Ends Q (get_task task_id) _ (λ task.
            >>=-Ends Q (get_task_context task_id) _ (λ context.
              >>=-Ends Q (lift (clients.wecom_submit_online task context)) _ (λ result.
                >>=-Ends Q (merge_task_context c.merge_time task_id _) _ (λ _.
                  >>=-Ends Q (append_task_step c.step_uuid c.step_time task_id _ _ _ _ _) _
                    (λ _. release-Releases c success none refl))))))
