-- ===== src/Queue/Worker/Drain.antt =====
-- The worker takes the oldest job that waits, and works off every job.
use rpa_group.Prelude.{
  ℕ, zero, suc, ◌≤◌, ◌<◌, String, true, false, none, some, List, [], ◌∷◌, ◌≡◌, refl, sym, ap, ◌∙◌,
  arith, ◌==◌, eq_iff, eq_refl, one_of, select, count_where, update_where, All, Bool-cases,
  Option-cases, inl, inr,
}
use rpa_group.Prelude.Text.Order.{text_le_refl, text_le_total, text_le_trans}
use rpa_group.Prelude.Tables.Ordered.{
  Elem, All-Elem, Elem-select, select-Elem, head?-order_by, head?-order_by-none,
}
use rpa_group.Prelude.Tables.Lookups.{All-update_twice}
use rpa_group.Prelude.Tables.Counting.{count_le, count_lt, count-select_none}
use rpa_group.Prelude.Value.{Fields}
use rpa_group.Queue.Jobs.{
  Job, Report, job_is, has_status, with_report, update_task_status, oldest_first,
  get_next_pending_task,
}
use rpa_group.Queue.Worker.{
  Workflow, returned, workflow_exception, other_exception, plain_report, create_group_report,
  send_message_report, run_job, carry_out, carry_out_next, worker_pass, worker_passes,
}

-- The job that is taken waits, and no job that waits is older.
get_next_pending_task-first :
    (jobs : List Job) (j k : Job)
    → get_next_pending_task jobs ≡ some j
    → Elem k jobs
    → has_status "pending" k ≡ true
    → Elem j jobs × (has_status "pending" j ≡ true) × (oldest_first j k ≡ true)
unfolding get_next_pending_task
get_next_pending_task-first jobs j k h there waits =
    let (found, first) =
      head?-order_by oldest_first (λ a. text_le_refl a.created_at)
        (λ a b. text_le_total a.created_at b.created_at)
        (λ a b c. text_le_trans a.created_at b.created_at c.created_at)
        (select (has_status "pending") jobs) j h in
    let (in_table, passes) = Elem-select (has_status "pending") j jobs found in
    (
      in_table,
      passes,
      All-Elem (λ y. oldest_first j y ≡ true) k (select (has_status "pending") jobs) first
          (select-Elem (has_status "pending") k jobs there waits),
    )

taken_waits :
    (jobs : List Job) (j : Job)
    → get_next_pending_task jobs ≡ some j
    → Elem j jobs × (has_status "pending" j ≡ true)
unfolding get_next_pending_task
taken_waits jobs j h =
    let (found, first) =
      head?-order_by oldest_first (λ a. text_le_refl a.created_at)
        (λ a b. text_le_total a.created_at b.created_at)
        (λ a b c. text_le_trans a.created_at b.created_at c.created_at)
        (select (has_status "pending") jobs) j h in
    Elem-select (has_status "pending") j jobs found

none_waits :
    (jobs : List Job)
    → get_next_pending_task jobs ≡ none
    → count_where (has_status "pending") jobs ≡ 0
unfolding get_next_pending_task
none_waits jobs h = count-select_none (has_status "pending") jobs (
    head?-order_by-none oldest_first (λ a. text_le_refl a.created_at)
      (λ a b. text_le_total a.created_at b.created_at)
      (λ a b c. text_le_trans a.created_at b.created_at c.created_at)
      (select (has_status "pending") jobs) h)

-- The statuses of a job that the worker is done with.
abbrev pub ended : List String
ended = "success" ∷ "failed" ∷ "group_not_found" ∷ "retried" ∷ []

-- The job waits, or the worker is done with it: it is not left as running.
abbrev pub IsSettled : Job → Type 0
IsSettled j = one_of j.status ("pending" ∷ ended) ≡ true

report_of_group : (w : Workflow) → one_of (create_group_report w).status ended ≡ true
unfolding create_group_report
report_of_group (returned result) = refl
report_of_group (workflow_exception m t d) = refl
report_of_group (other_exception m t) = refl

report_of_message : (w : Workflow) → one_of (send_message_report w).status ended ≡ true
unfolding send_message_report
report_of_message (returned result) = elim (Bool-cases (result == "group_not_found")) [
  | inl e ↦ rw e refl
  | inr e ↦ rw e refl
]
report_of_message (workflow_exception m t d) = refl
report_of_message (other_exception m t) = refl

module _ (execute_workflow execute_send_message_workflow : Fields → Workflow) where
  abbrev report : Job → Report
  report = run_job execute_workflow execute_send_message_workflow

  -- Whatever the workflow does, its exceptions included, the job ends.
  report-ended : (j : Job) → one_of (report j).status ended ≡ true
  unfolding run_job
  report-ended j = elim (Bool-cases (j.task_type == "create_group")) [
    | inl e ↦ rw e (report_of_group (execute_workflow j.config))
    | inr e ↦ elim (Bool-cases (j.task_type == "send_message")) [
      | inl e' ↦ rw (e, e') (report_of_message (execute_send_message_workflow j.config))
      | inr e' ↦ rw (e, e') refl
    ]
  ]

  not_waiting : (s : String) → one_of s ended ≡ true → (s == "pending") ≡ false
  not_waiting s h = elim (Bool-cases (s == "pending")) [
    | inl e ↦ cc (sym h ∙ ap (λ x. one_of x ended) ((eq_iff s "pending").0 e))
    | inr e ↦ e
  ]

  settled : (s : String) → one_of s ended ≡ true → one_of s ("pending" ∷ ended) ≡ true
  settled s h = rw (not_waiting s h, h) refl

  -- A job that waits is carried out: the guard on its status never skips it.
  carried_out :
      (start finish : String) (j : Job) (jobs : List Job)
      → has_status "pending" j ≡ true
      → carry_out execute_workflow execute_send_message_workflow start finish j jobs
        ≡ update_where
            (job_is j.task_id)
            (with_report finish (report j))
            (update_where (job_is j.task_id) (with_report start (plain_report "running")) jobs)
  unfolding carry_out update_task_status
  carried_out start finish j jobs h = rw ((eq_iff j.status "pending").0 h) refl

  carry_out_counts :
      (start finish : String) (j : Job) (jobs : List Job)
      → Elem j jobs
      → has_status "pending" j ≡ true
      → count_where
          (has_status "pending")
          (carry_out execute_workflow execute_send_message_workflow start finish j jobs)
        < count_where (has_status "pending") jobs
  carry_out_counts start finish j jobs there waits =
      let taken = with_report start (plain_report "running") in
      let fewer =
        count_lt (has_status "pending") (job_is j.task_id) taken jobs j
          (λ x. unfold with_report in refl) there waits (eq_refl j.task_id) in
      let no_more =
        count_le (has_status "pending") (job_is j.task_id) (with_report finish (report j))
          (update_where (job_is j.task_id) taken jobs)
          (λ x. unfold with_report in not_waiting (report j).status (report-ended j)) in
      rw (carried_out start finish j jobs waits) (omega (arith, fewer, no_more))

  carry_out_settles :
      (start finish : String) (j : Job) (jobs : List Job)
      → has_status "pending" j ≡ true
      → All IsSettled jobs
      → All IsSettled (carry_out execute_workflow execute_send_message_workflow start finish j jobs)
  carry_out_settles start finish j jobs waits h = rw (carried_out start finish j jobs waits) (
      All-update_twice IsSettled (job_is j.task_id) (with_report start (plain_report "running"))
        (with_report finish (report j)) jobs (λ x. unfold with_report in refl)
        (λ x. unfold with_report in settled (report j).status (report-ended j)) h)

  pass_counts :
      (start finish : String) (n : ℕ) (jobs : List Job)
      → count_where (has_status "pending") jobs ≤ suc n
      → count_where
          (has_status "pending")
          (worker_pass execute_workflow execute_send_message_workflow false start finish jobs)
        ≤ n
  unfolding worker_pass carry_out_next
  pass_counts start finish n jobs h = elim (Option-cases (get_next_pending_task jobs)) [
    | inl e ↦ rw e (omega (arith, none_waits jobs e))
    | inr (j, e) ↦
        let (there, waits) = taken_waits jobs j e in
        rw e (omega (arith, h, carry_out_counts start finish j jobs there waits))
  ]

  pass_settles :
      (start finish : String) (jobs : List Job)
      → All IsSettled jobs
      → All IsSettled
          (worker_pass execute_workflow execute_send_message_workflow false start finish jobs)
  unfolding worker_pass carry_out_next
  pass_settles start finish jobs h = elim (Option-cases (get_next_pending_task jobs)) [
    | inl e ↦ rw e h
    | inr (j, e) ↦ rw e (carry_out_settles start finish j jobs (taken_waits jobs j e).1 h)
  ]

  All-ended :
      (jobs : List Job)
      → count_where (has_status "pending") jobs ≡ 0
      → All IsSettled jobs
      → All (λ j. one_of j.status ended ≡ true) jobs
  All-ended [] h k = tt
  All-ended (j ∷ jobs) h k = elim (Bool-cases (has_status "pending" j)) [
    | inl e ↦ cc (rw e at h)
    | inr e ↦ (rw e at k.0, All-ended jobs (rw e at h) k.1)
  ]

  -- If no job is left as running, then after as many passes as there are jobs that wait, or more,
  -- every job has ended: it has one of the four statuses, whatever its workflow did.
  pub worker_passes-All-ended :
      (clock : ℕ → String × String) (n : ℕ) (jobs : List Job)
      → count_where (has_status "pending") jobs ≤ n
      → All IsSettled jobs
      → All
          (λ j. one_of j.status ended ≡ true)
          (worker_passes execute_workflow execute_send_message_workflow clock n jobs)
  unfolding worker_passes
  worker_passes-All-ended clock zero jobs h k = All-ended jobs (omega (arith, h)) k
  worker_passes-All-ended clock (suc n) jobs h k =
      let (start, finish) = clock n in
      worker_passes-All-ended clock n
        (worker_pass execute_workflow execute_send_message_workflow false start finish jobs)
        (pass_counts start finish n jobs h) (pass_settles start finish jobs k)
