-- ===== src/Queue/Jobs/Counts.antt =====
-- What the counts of the queue's statuses say, and what recovery and saving change.
use rpa_group.Prelude.{
  ◌+◌, String, false, some, List, [], ◌∷◌, ◌≡◌, refl, ap, sym, ◌∙◌, arith, ◌==◌, eq_iff, eq_refl,
  if◌then◌else◌, find, any, count_where, is_some, Bool-cases, inl, inr,
}
use rpa_group.Prelude.Tables.Lookups.{find-append, any-append, any-find}
use rpa_group.Prelude.Tables.Counting.{count_cleared, count_moved, count_kept}
use rpa_group.Prelude.Value.{Fields}
use rpa_group.Queue.Jobs.{
  Job, job_is, has_status, reset, recover_interrupted_tasks, save_task, new_job, get_task_detail,
}

-- After a restart no job is marked as running: those that were wait again, and every other status
-- counts as many jobs as before.
recover_interrupted_tasks_lem :
    (now : String) (jobs : List Job) (other : String)
    → (other == "pending") ≡ false
    → (other == "running") ≡ false
    → let jobs' = recover_interrupted_tasks now jobs in
      (count_where (has_status "running") jobs' ≡ 0)
      × (count_where (has_status "pending") jobs'
          ≡ count_where (has_status "pending") jobs + count_where (has_status "running") jobs)
      × (count_where (has_status other) jobs' ≡ count_where (has_status other) jobs)
unfolding recover_interrupted_tasks
recover_interrupted_tasks_lem now jobs other h k = (
  count_cleared (has_status "running") (has_status "running") (reset now) jobs
      (λ j e. unfold reset in refl) (λ j e. e),
  count_moved (has_status "pending") (has_status "running") (reset now) jobs
      (λ j. unfold reset in refl)
      (λ j e. ap (λ s. s == "pending") ((eq_iff j.status "running").0 e)),
  count_kept (has_status other) (has_status "running") (reset now) jobs (λ j e.
      unfold reset in
      ground (
        arith,
        h,
        k,
        e,
        eq_iff "pending" other,
        eq_iff other "pending",
        eq_iff j.status "running",
        eq_iff j.status other,
        eq_iff other "running",
      )),
)

-- A job that is saved is found again by its id: the row that stood under it already, or else the new
-- one. Saving it a second time changes nothing.
save_task_lem :
    (now later id type type' status status' : String) (config config' : Fields) (jobs : List Job)
    → let jobs' = save_task now id type status config jobs in
      (get_task_detail id jobs' ≡ (
        if is_some (find (job_is id) jobs)
        then find (job_is id) jobs
        else some (new_job now id type status config)))
      × (save_task later id type' status' config' jobs' ≡ jobs')
unfolding save_task get_task_detail new_job
save_task_lem now later id type type' status status' config config' jobs =
    elim (Bool-cases (any (job_is id) jobs)) [
      | inl e ↦ rw e (rw (sym (any-find (job_is id) jobs) ∙ e) refl, rw e refl)
      | inr e ↦ rw e (
        rw (find-append (job_is id) jobs (new_job now id type status config ∷ []), eq_refl id) refl,
        rw (any-append (job_is id) jobs (new_job now id type status config ∷ []), e, eq_refl id)
            refl,
      )
    ]
