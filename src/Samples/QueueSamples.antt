-- ===== src/Samples/QueueSamples.antt =====
-- The theorems about database.py and queue_worker.py at concrete inputs.
use rpa_group.Prelude.{
  ℕ, String, true, false, some, List, [], ◌∷◌, ◌≡◌, refl, arith, one_of, All, none, find, text_le,
}
use rpa_group.Prelude.Value.{str, Fields, end, field}
use rpa_group.Queue.Jobs.{Job, new_job, get_next_pending_task}
use rpa_group.Queue.Control.{
  setting_is, pause_queue, resume_queue, resumed, is_queue_paused, get_resume_token, has_expired,
  token_accepted, replace,
}
use rpa_group.Queue.Control.Tokens.{pause_queue_lem}
use rpa_group.Queue.Worker.{Workflow, returned, other_exception, worker_passes}
use rpa_group.Queue.Worker.Drain.{worker_passes-All-ended, ended}

-- Groups are created; no message finds its group.
abbrev create_group : Fields → Workflow
create_group config = returned ""

abbrev send_message : Fields → Workflow
send_message config = other_exception "no window" "RuntimeError"

abbrev config : Fields
config = field "客户名称" (str "Acme") end

abbrev first_job : Job
first_job = new_job "t1" "j1" "create_group" "pending" config

abbrev second_job : Job
second_job = new_job "t2" "j2" "send_message" "pending" config

abbrev jobs : List Job
jobs = second_job ∷ first_job ∷ []

abbrev clock : ℕ → String × String
clock n = ("t3", "t4")

worker_passes-All-ended_example :
    All (λ j. one_of j.status ended ≡ true) (worker_passes create_group send_message clock 2 jobs)
unfolding new_job
worker_passes-All-ended_example =
    worker_passes-All-ended create_group send_message clock 2 jobs (omega arith) (refl, (refl, tt))

first_is_next : get_next_pending_task jobs ≡ some first_job
unfolding get_next_pending_task new_job text_le
first_is_next = refl

-- The token comes too late.
pause_queue_lem_example :
    let paused = pause_queue "tok" "t5" [] in
    let (ended, rows') = resume_queue "t9" (some "tok") paused in
    (is_queue_paused paused ≡ true)
    × (get_resume_token paused ≡ some "tok")
    × (ended ≡ false)
    × (is_queue_paused rows' ≡ true)
    × (get_resume_token rows' ≡ some "tok")
    × (find (setting_is "other") rows' ≡ none)
unfolding text_le
pause_queue_lem_example = pause_queue_lem "tok" "t5" [] "t9" "tok" "other" refl refl

ended_by_token : resume_queue "t5" (some "tok") (pause_queue "tok" "t9" []) ≡ (true, [])
unfolding resume_queue token_accepted has_expired pause_queue replace resumed text_le
ended_by_token = refl
