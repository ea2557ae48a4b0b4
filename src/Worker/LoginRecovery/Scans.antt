-- ===== src/Worker/LoginRecovery/Scans.antt =====
-- How often a recovery notifies, and that it closes the browser that it has opened.
use rpa_group.Prelude.{
  ℕ, zero, suc, ◌+◌, ◌-◌, ◌≤◌, Bool, true, false, ◌&&◌, ◌≡◌, refl, sym, ◌∙◌, arith, List, [], ◌∷◌,
  ◌++◌, if◌then◌else◌, ltb, leb, count_where, All, Option, none, some, Result, ok, err,
}
use rpa_group.Prelude.Tables.Lookups.{All-append}
use rpa_group.Prelude.Logged.{pure, call, ◌>>=◌, ◌>>◌}
use rpa_group.Prelude.Value.{Fields, ℤ, pos, negsuc}
use rpa_group.Worker.LoginRecovery.Sessions.{
  LoginSessionStatus, LoginSessionCheckResult, expired, restored, error,
}
use rpa_group.Worker.LoginRecovery.Config.{LoginRecoveryConfig, to_ℕ}
use rpa_group.Worker.LoginRecovery.Paths.{run_recovery_paths}
use rpa_group.Worker.LoginRecovery.{
  Event, World, Runs, run_preflight, capture_qr, notify_qr, close_qr, sleep_for, attempts_of,
  check_once, pause, unless_restored, poll, after_poll, may_notify, wait_for_login, run_recovery,
}

abbrev pub is_notify : Event → Bool
is_notify notify_qr = true
is_notify _ = false

abbrev pub is_capture : Event → Bool
is_capture capture_qr = true
is_capture _ = false

abbrev pub is_close : Event → Bool
is_close close_qr = true
is_close _ = false

-- Neither a notification nor a call of the browser.
abbrev IsQuiet : Event → Type 0
IsQuiet e = (is_notify e ≡ false) × (is_capture e ≡ false) × (is_close e ≡ false)

-- All calls of the block are quiet.
abbrev RunsQuietly : {A : Type 0} → Runs A → Type 0
RunsQuietly m = All IsQuiet m.1

>>=-RunsQuietly :
    {A B : Type 0} (m : Runs A) (f : A → Runs B)
    → RunsQuietly m
    → ((a : A) → RunsQuietly (f a))
    → RunsQuietly (m >>= f)
>>=-RunsQuietly (ok a, events) f h k = All-append IsQuiet events (f a).1 h (k a)
>>=-RunsQuietly (err e, events) f h k = h

count-append :
    (p : Event → Bool) (a b : List Event)
    → count_where p (a ++ b) ≡ count_where p a + count_where p b
count-append p [] b = omega arith
count-append p (x ∷ a) b = ground (arith, count-append p a b)

count_quiet :
    (p : Event → Bool) (events : List Event)
    → All (λ e. p e ≡ false) events
    → count_where p events ≡ 0
count_quiet p [] h = refl
count_quiet p (x ∷ events) h = rw h.0 (count_quiet p events h.1)

quiet_counts :
    (events : List Event)
    → All IsQuiet events
    → (count_where is_notify events ≡ 0)
      × (count_where is_capture events ≡ 0)
      × (count_where is_close events ≡ 0)
quiet_counts [] h = (refl, refl, refl)
quiet_counts (x ∷ events) ((a, b, c), h) =
    let (p, q, r) = quiet_counts events h in (rw a p, rw b q, rw c r)

within_maximum :
    (enabled : Bool) (maximum before sent : ℕ)
    → (enabled && ltb 0 maximum) && leb maximum before ≡ false
    → sent ≤ (if enabled && ltb 0 maximum then 1 else 0)
    → (sent + 0 ≤ 1) × (sent + 0 ≤ (if enabled then maximum - before else 0))
within_maximum true maximum before sent below h = ground arith
within_maximum false maximum before sent below h = (omega arith, omega arith)

-- How often a browser has been opened, where it was tried `n` times.
abbrev pub opened : Result (Unit {0}) → ℕ → ℕ
opened (ok a) n = n
opened (err e) n = 0

opened_ok : (r : Result (Unit {0})) (n : ℕ) → r ≡ ok tt → opened r n ≡ n
opened_ok (ok a) n h = refl
opened_ok (err e) n h = cc

neither : (r : Result (Unit {0})) → ◌≡◌ {A = ℕ} 0 (opened r 0)
neither (ok a) = refl
neither (err e) = refl

module _ (config : LoginRecoveryConfig) (world : World) where
  sleep_for-RunsQuietly : (n : ℤ) → RunsQuietly (sleep_for n)
  sleep_for-RunsQuietly (pos n) = ((refl, refl, refl), tt)
  sleep_for-RunsQuietly (negsuc n) = ((refl, refl, refl), tt)

  pause-RunsQuietly : (left : ℕ) → RunsQuietly (pause config world left)
  pause-RunsQuietly zero = tt
  pause-RunsQuietly (suc left) = sleep_for-RunsQuietly config.poll_interval_seconds

  check_once-RunsQuietly : (attempt : ℕ) → RunsQuietly (check_once config world attempt)
  unfolding check_once
  check_once-RunsQuietly attempt = ground arith

  unless_restored-RunsQuietly :
      (status : LoginSessionStatus) (rest : Runs (Option LoginSessionCheckResult))
      → RunsQuietly rest
      → RunsQuietly (unless_restored config world status rest)
  unless_restored-RunsQuietly restored rest h = tt
  unless_restored-RunsQuietly expired rest h = h
  unless_restored-RunsQuietly error rest h = h

  poll-RunsQuietly :
      (left attempt : ℕ) (last : LoginSessionCheckResult)
      → RunsQuietly (poll config world left attempt last)
  unfolding poll
  poll-RunsQuietly zero attempt last = tt
  poll-RunsQuietly (suc left) attempt last =
      >>=-RunsQuietly (check_once config world attempt) _ (check_once-RunsQuietly attempt) (λ seen.
        unless_restored-RunsQuietly seen.status _ (
          >>=-RunsQuietly (pause config world left) _ (pause-RunsQuietly left)
            (λ _. poll-RunsQuietly left (suc attempt) seen)))

  after_poll-RunsQuietly :
      (n : ℕ) (seen : Option LoginSessionCheckResult) → RunsQuietly (after_poll config world n seen)
  after_poll-RunsQuietly n none =
      >>=-RunsQuietly (call run_preflight (world.preflight 1)) _ ((refl, refl, refl), tt) (λ _. tt)
  after_poll-RunsQuietly n (some last) = tt

  -- The calls of the wait, by their kinds: a notification where one may be sent.
  abbrev CountsWithin : ℕ → List Event → Type 0
  CountsWithin n events =
      (count_where is_notify events ≤ n)
      × (count_where is_capture events ≡ 0)
      × (count_where is_close events ≡ 0)

  notified-CountsWithin :
      (b : Bool) (sent : Result (Unit {0})) (before : ℕ) (f : ℕ → Runs Fields)
      → ((n : ℕ) → RunsQuietly (f n))
      → CountsWithin
          (if b then 1 else 0)
          ((if b then call notify_qr sent >> pure (suc before) else pure before) >>= f).1
  notified-CountsWithin true (ok a) before f h =
      let (p, q, r) = quiet_counts (f (suc before)).1 (h (suc before)) in (rw p (omega arith), q, r)
  notified-CountsWithin true (err e) before f h = (omega arith, refl, refl)
  notified-CountsWithin false sent before f h =
      let (p, q, r) = quiet_counts (f before).1 (h before) in (rw p (omega arith), q, r)

  wait_for_login-CountsWithin :
      (before : ℕ)
      → CountsWithin
          (if may_notify config world then 1 else 0)
          (wait_for_login config world before).1
  unfolding wait_for_login
  wait_for_login-CountsWithin before =
      notified-CountsWithin (may_notify config world) world.notify before _ (λ n.
        >>=-RunsQuietly
          (poll config world (attempts_of config) 0
            (record { status = expired; reason = "not_checked"; detail = "" }))
          _ (poll-RunsQuietly (attempts_of config) 0 _) (after_poll-RunsQuietly n))

  -- At most one notification is sent in a recovery, and none where notifying is off or the maximum is
  -- reached: with those before it, there are never more than the maximum.
  pub run_recovery-notified :
      (before : ℕ)
      → let sent = count_where is_notify (run_recovery config world before).1 in
        (sent ≤ 1)
        × (sent ≤ (if config.qr_notify_enabled then to_ℕ config.max_notify_times - before else 0))
  run_recovery-notified before =
      run_recovery_paths config world before
        (λ events.
          (count_where is_notify events ≤ 1)
          × (count_where is_notify events
              ≤ (if config.qr_notify_enabled then to_ℕ config.max_notify_times - before else 0)))
        (omega arith, omega arith) (λ e failed. (omega arith, omega arith))
        (λ done below.
          let (sent, captured, closed) = wait_for_login-CountsWithin before in
          rw (count-append is_notify (wait_for_login config world before).1 (close_qr ∷ [])) (
            within_maximum config.qr_notify_enabled (to_ℕ config.max_notify_times) before _ below
              sent))

  -- The browser is closed as often as it has been opened, also where something raises in between. It
  -- is opened at most once.
  pub run_recovery-closed :
      (before : ℕ)
      → let events = (run_recovery config world before).1 in
        (count_where is_close events ≡ opened world.capture (count_where is_capture events))
        × (count_where is_capture events ≤ 1)
  run_recovery-closed before =
      run_recovery_paths config world before
        (λ events.
          (count_where is_close events ≡ opened world.capture (count_where is_capture events))
          × (count_where is_capture events ≤ 1))
        (neither world.capture, omega arith) (λ e failed. (rw failed refl, omega arith))
        (λ done below.
          let (sent, captured, closed) = wait_for_login-CountsWithin before in
          let waited = (wait_for_login config world before).1 in
          let closed_once = count-append is_close waited (close_qr ∷ []) in
          let opened_once = count-append is_capture waited (close_qr ∷ []) in
          (
            omega (arith, closed_once, closed, opened_once, captured)
                ∙ sym (
                    opened_ok world.capture (suc (count_where is_capture (waited ++ close_qr ∷ [])))
                      done),
            omega (arith, opened_once, captured),
          ))
