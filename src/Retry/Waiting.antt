-- ===== src/Retry/Waiting.antt =====
-- WaitFor under a watchdog ends.
use udroid.Prelude.{
  ℕ, zero, suc, ◌+◌, ◌-◌, ◌≤◌, false, Option, none, some, if◌then◌else◌, ◌≡◌, ◌≢◌, arith, inl, inr,
  Bool-cases,
}
use udroid.Prelude.Effects.{Outcome, ok, err, Exec}
use udroid.Retry.{
  WatchdogTimer, get_elapsed, get_remaining, is_too_late, Waited, not_met, still_waiting, check,
  is_exhausted, one_less, wait_for,
}

not_late :
    (start timeout required t : ℕ)
    → 1 ≤ timeout
    → is_too_late (record { start_time = start; timeout = some timeout }) required t ≡ false
    → t - start + required ≤ timeout
unfolding is_too_late get_remaining get_elapsed
not_late start timeout required t positive h = ground arith

module _ {E W A : Type 0} (now : W → ℕ) (sleep : ℕ → W → W) (condition : Exec E W (Option A))
    (sleeps : (period : ℕ) (w : W) → now w + period ≤ now (sleep period w))
    (runs_on : (w : W) → now w ≤ now (condition w).1) (start timeout wait_period : ℕ)
    (positive : 1 ≤ timeout) (pauses : 1 ≤ wait_period) where
  abbrev watchdog : WatchdogTimer
  watchdog = record { start_time = start; timeout = some timeout }

  check_ends :
      (again : W → Waited E A × W) (m : Outcome E (Option A) × W)
      → (is_too_late watchdog wait_period (now m.1) ≡ false
          → (again (sleep wait_period m.1)).0 ≢ still_waiting)
      → (check now sleep condition (some watchdog) wait_period again m).0 ≢ still_waiting
  check_ends again (err e, w) h = λ bad. cc
  check_ends again (ok (some a), w) h = λ bad. cc
  check_ends again (ok none, w) h = elim (Bool-cases (is_too_late watchdog wait_period (now w))) [
    | inl late ↦ rw late (λ bad. cc)
    | inr early ↦ rw early (h early)
  ]

  -- One round of the loop.
  loop_ends :
      (max_tries : Option ℕ) (w : W) (again : W → Waited E A × W)
      → (is_too_late watchdog wait_period (now (condition w).1) ≡ false
          → (again (sleep wait_period (condition w).1)).0 ≢ still_waiting)
      → (if is_exhausted now sleep condition max_tries
          then (not_met, w)
          else check now sleep condition (some watchdog) wait_period again (condition w)).0
        ≢ still_waiting
  loop_ends max_tries w again h = elim (Bool-cases (is_exhausted now sleep condition max_tries)) [
    | inl e ↦ rw e (λ bad. cc)
    | inr e ↦ rw e (check_ends again (condition w) h)
  ]

  -- In a thread group that times out, WaitFor ends whether or not the condition is ever met and
  -- whether or not tries are limited: at most one check more than there are ticks left is made. The
  -- clock does not run backwards, and a sleep of a positive period takes that long.
  pub wait_for_ends :
      (fuel : ℕ) (max_tries : Option ℕ) (w : W)
      → start ≤ now w
      → timeout + start ≤ now w + fuel
      → (wait_for now sleep condition (suc fuel) (some watchdog) wait_period max_tries w).0
        ≢ still_waiting
  unfolding wait_for
  wait_for_ends zero max_tries w after enough =
      loop_ends max_tries w
        (wait_for now sleep condition zero (some watchdog) wait_period
          (one_less now sleep condition max_tries))
        (λ early.
          let bound = not_late start timeout wait_period (now (condition w).1) positive early in
          let later = runs_on w in absurd (omega arith))
  wait_for_ends (suc fuel) max_tries w after enough =
      let later = runs_on w in
      let slept = sleeps wait_period (condition w).1 in
      loop_ends max_tries w
        (wait_for now sleep condition (suc fuel) (some watchdog) wait_period
          (one_less now sleep condition max_tries))
        (λ early.
          wait_for_ends fuel (one_less now sleep condition max_tries)
            (sleep wait_period (condition w).1) (omega arith) (omega arith))
