-- ===== src/Worker/LoginRecovery/Waiting.antt =====
-- How long a recovery sleeps, how often it notifies, and that it closes the browser.
use rpa_group.Prelude.{
  ℕ, zero, suc, ◌+◌, ◌-◌, ◌*◌, ◌/◌, ◌≤◌, ◌≡◌, arith, List, [], ◌∷◌, ◌++◌, Option, none, some, ok,
  err,
}
use native.Mathlib.Nat.{le_trans, mul-le-mul, div-mul-le_self}
use rpa_group.Prelude.Logged.{◌>>=◌, ◌>>◌}
use rpa_group.Prelude.Value.{ℤ, pos, negsuc}
use rpa_group.Worker.LoginRecovery.Sessions.{
  LoginSessionStatus, LoginSessionCheckResult, expired, restored, error,
}
use rpa_group.Worker.LoginRecovery.Config.{LoginRecoveryConfig, to_ℕ}
use rpa_group.Worker.LoginRecovery.Paths.{run_recovery_paths}
use rpa_group.Worker.LoginRecovery.{
  Event, World, Runs, run_preflight, capture_qr, notify_qr, refresh_session, check_login, close_qr,
  sleep, sleep_for, at_least_one, attempts_of, check_once, pause, unless_restored, poll, after_poll,
  notify, wait_for_login, run_recovery,
}

-- The seconds slept in a run.
abbrev pub slept : List Event → ℕ
slept [] = 0
slept (sleep n ∷ events) = to_ℕ n + slept events
slept (run_preflight ∷ events) = slept events
slept (capture_qr ∷ events) = slept events
slept (notify_qr ∷ events) = slept events
slept (refresh_session ∷ events) = slept events
slept (check_login ∷ events) = slept events
slept (close_qr ∷ events) = slept events

slept-append : (a b : List Event) → slept (a ++ b) ≡ slept a + slept b
slept-append [] b = omega arith
slept-append (sleep n ∷ a) b = omega (arith, slept-append a b)
slept-append (run_preflight ∷ a) b = slept-append a b
slept-append (capture_qr ∷ a) b = slept-append a b
slept-append (notify_qr ∷ a) b = slept-append a b
slept-append (refresh_session ∷ a) b = slept-append a b
slept-append (check_login ∷ a) b = slept-append a b
slept-append (close_qr ∷ a) b = slept-append a b

-- A block sleeps for at most `n` seconds.
abbrev SleepsAtMost : {A : Type 0} → ℕ → Runs A → Type 0
SleepsAtMost n m = slept m.1 ≤ n

>>=-SleepsAtMost :
    {A B : Type 0} (n k : ℕ) (m : Runs A) (f : A → Runs B)
    → SleepsAtMost n m
    → ((a : A) → SleepsAtMost k (f a))
    → SleepsAtMost (n + k) (m >>= f)
>>=-SleepsAtMost n k (ok a, events) f h g = omega (arith, slept-append events (f a).1, h, g a)
>>=-SleepsAtMost n k (err e, events) f h g = omega (arith, h)

module _ (config : LoginRecoveryConfig) (world : World) where
  abbrev interval : ℕ
  interval = to_ℕ config.poll_interval_seconds

  sleep_for-SleepsAtMost : (n : ℤ) → SleepsAtMost (to_ℕ n) (sleep_for n)
  sleep_for-SleepsAtMost (pos n) = omega arith
  sleep_for-SleepsAtMost (negsuc n) = omega arith

  check_once-SleepsAtMost : (attempt : ℕ) → SleepsAtMost 0 (check_once config world attempt)
  unfolding check_once
  check_once-SleepsAtMost attempt = ground arith

  unless_restored-SleepsAtMost :
      (n : ℕ) (status : LoginSessionStatus) (rest : Runs (Option LoginSessionCheckResult))
      → SleepsAtMost n rest
      → SleepsAtMost n (unless_restored config world status rest)
  unless_restored-SleepsAtMost n restored rest h = omega arith
  unless_restored-SleepsAtMost n expired rest h = h
  unless_restored-SleepsAtMost n error rest h = h

  poll_step :
      (n left attempt : ℕ) (last : LoginSessionCheckResult)
      → ((seen : LoginSessionCheckResult)
          → SleepsAtMost n (pause config world left >> poll config world left (suc attempt) seen))
      → SleepsAtMost n (poll config world (suc left) attempt last)
  unfolding poll
  poll_step n left attempt last h =
      let bound : SleepsAtMost (0 + n) (poll config world (suc left) attempt last) =
        >>=-SleepsAtMost 0 n (check_once config world attempt) _ (check_once-SleepsAtMost attempt)
          (λ seen. unless_restored-SleepsAtMost n seen.status _ (h seen)) in
      omega (arith, bound)

  -- All rounds but the last sleep.
  poll-SleepsAtMost :
      (left attempt : ℕ) (last : LoginSessionCheckResult)
      → SleepsAtMost (left * interval) (poll config world (suc left) attempt last)
  poll-SleepsAtMost zero attempt last =
      poll_step (0 * interval) 0 attempt last (λ seen. last_round seen)
    where
      last_round :
          (seen : LoginSessionCheckResult)
          → SleepsAtMost
              (0 * interval)
              (pause config world 0 >> poll config world 0 (suc attempt) seen)
      last_round seen = unfold poll in omega arith
  poll-SleepsAtMost (suc left) attempt last =
      let bound : SleepsAtMost (interval + left * interval)
          (poll config world (suc (suc left)) attempt last) =
        poll_step (interval + left * interval) (suc left) attempt last (λ seen.
          >>=-SleepsAtMost interval (left * interval) (sleep_for config.poll_interval_seconds) _
            (sleep_for-SleepsAtMost config.poll_interval_seconds)
            (λ _. poll-SleepsAtMost left (suc attempt) seen)) in
      omega (arith, bound)

  at_least_one-suc : (n : ℕ) → at_least_one n ≡ suc (n - 1)
  at_least_one-suc n = ground arith

  intervals_fit : (ttl n : ℕ) → (ttl / at_least_one n - 1) * n ≤ ttl
  intervals_fit ttl n =
      let rounds = ttl / at_least_one n in
      let enough : n ≤ at_least_one n = ground arith in
      let fewer : rounds - 1 ≤ rounds = omega arith in
      le_trans (mul-le-mul fewer enough) (div-mul-le_self ttl (at_least_one n))

  notify-SleepsAtMost : (before : ℕ) → SleepsAtMost 0 (notify config world before)
  notify-SleepsAtMost before = ground arith

  after_poll-SleepsAtMost :
      (n : ℕ) (seen : Option LoginSessionCheckResult)
      → SleepsAtMost 0 (after_poll config world n seen)
  after_poll-SleepsAtMost n none = ground arith
  after_poll-SleepsAtMost n (some last) = omega arith

  wait_for_login-SleepsAtMost :
      (before : ℕ) → SleepsAtMost (to_ℕ config.ttl_seconds) (wait_for_login config world before)
  unfolding wait_for_login
  wait_for_login-SleepsAtMost before =
      let ttl = to_ℕ config.ttl_seconds in
      let rounds = ttl / at_least_one interval in
      let bound : SleepsAtMost (0 + ((rounds - 1) * interval + 0))
          (wait_for_login config world before) =
        >>=-SleepsAtMost 0 ((rounds - 1) * interval + 0) (notify config world before) _
          (notify-SleepsAtMost before)
          (λ sent.
            >>=-SleepsAtMost ((rounds - 1) * interval) 0
              (poll config world (attempts_of config) 0
                (record { status = expired; reason = "not_checked"; detail = "" }))
              _ (rw (at_least_one-suc rounds) (poll-SleepsAtMost (rounds - 1) 0 _))
              (λ seen. after_poll-SleepsAtMost sent seen)) in
      omega (arith, bound, intervals_fit ttl interval)

  -- A recovery sleeps in all for no longer than the QR code lives, whatever the answers that it gets.
  pub run_recovery-slept :
      (before : ℕ) → slept (run_recovery config world before).1 ≤ to_ℕ config.ttl_seconds
  run_recovery-slept before =
      run_recovery_paths config world before (λ events. slept events ≤ to_ℕ config.ttl_seconds)
        (omega arith) (λ e failed. omega arith)
        (λ done below. omega (
          arith,
          slept-append (wait_for_login config world before).1 (close_qr ∷ []),
          wait_for_login-SleepsAtMost before,
        ))
