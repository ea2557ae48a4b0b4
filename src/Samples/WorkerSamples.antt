-- ===== src/Samples/WorkerSamples.antt =====
-- The theorems about rpa_platform/worker at concrete inputs.
use rpa_group.Prelude.{
  ◌≡◌, ◌≢◌, ◌↔◌, refl, sym, subst, inl, inr, none, some, [], ◌∷◌, find, ok, ◌==◌,
}
use rpa_group.Prelude.Value.{end}
use rpa_group.Domain.StateMachine.{
  checking_login, jdy_callback_failed, check_transition, waiting_login,
}
use rpa_group.Store.Rows.{Task, Db, task_is, robot_is}
use rpa_group.Store.Robots.{
  claimed_by, claim_rows, claim_time, claim_next_runnable_task, next_task, runnable_in,
}
use rpa_group.Store.Robots.Claim.{HasUniqueIds, claim_succeeds}
use rpa_group.Store.Robots.Transitions.{claim_transition}
use rpa_group.Worker.Login.{Probe, LoginClock, check_task_login}
use rpa_group.Worker.Login.Outcomes.{task_after, robot_after, check_task_login_lem}
use rpa_group.Worker.Runner.{RunnerClock}
use rpa_group.Samples.StoreData.{db, task, robot}

-- A task whose callback failed is tried again.
abbrev late : Task
late = record (task "a" "key-a") { status = jdy_callback_failed }

abbrev late_db : Db
late_db = record db { tasks = late ∷ [] }

late_unique : HasUniqueIds late_db.tasks
late_unique u (inl e) = subst (λ x. find (task_is x.id) late_db.tasks ≡ some x) (sym e) refl
late_unique u (inr m) = absurd m

late_is_next : next_task (claim_time none "t3") late_db.tasks ≡ some late
unfolding next_task runnable_in claim_time
late_is_next = refl

late_claimed :
    claim_next_runnable_task "t3" "r1" none late_db
    ≡ (ok (some (claimed_by "r1" "t3" late)), claim_rows "r1" "t3" "a" late_db)
unfolding claim_time
late_claimed = claim_succeeds "t3" "r1" none late_db (robot "r1") late refl refl late_is_next refl

claim_transition_example :
    let t' = claimed_by "r1" "t3" late in
    (t : Task) × (find (task_is t'.id) late_db.tasks ≡ some t)
    × (t'.status ≡ checking_login)
    × (find (task_is t'.id) (claim_rows "r1" "t3" "a" late_db).tasks ≡ some t')
    × ((check_transition t.status t'.status ≡ ok tt) ↔ (t.status ≢ jdy_callback_failed))
claim_transition_example =
    claim_transition "t3" "r1" none late_db (claim_rows "r1" "t3" "a" late_db)
      (claimed_by "r1" "t3" late) late_unique late_claimed

abbrev login_clock : LoginClock
login_clock = record { step_uuid = "s1"; step_time = "t4"; status_time = "t5"; robot_time = "t6" }

abbrev clock : RunnerClock
clock = record {
  login = login_clock;
  status_time = "t7";
  step_uuid = "s2";
  step_time = "t8";
  robot_time = "t9";
}

-- Only the first back end has a login that is healthy.
abbrev probe : Probe
probe target url robot task = record { healthy = target == "jdy"; message = "" }

check_task_login_lem_example :
    let (result, s') = check_task_login probe login_clock "a" "r1" db in
    (result ≡ ok (record { status = waiting_login; missing_targets = "wecom" ∷ [] }))
    × (find (task_is "a") s'.tasks ≡ some (task_after "t5" "r1" ("wecom" ∷ []) (task "a" "key-a")))
    × (find (robot_is "r1") s'.robots ≡ some (robot_after "t6" ("wecom" ∷ []) (robot "r1")))
check_task_login_lem_example =
    check_task_login_lem probe login_clock "a" "r1" db (task "a" "key-a") (robot "r1") end refl refl
      refl refl
