-- ===== src/Retry.antt =====
-- devil/devil/utils/timeout_retry.py and watchdog_timer.py: WaitFor and Run. Time is counted in
-- whole ticks; what a call does to the world, its clock included, is a parameter.
pub mod Waiting
pub mod Descent
pub mod Meeting
pub mod Running
pub mod Trying
mod Samples
use udroid.Prelude.{
  ℕ, zero, suc, ◌+◌, ◌-◌, Bool, true, false, Option, none, some, ltb, if◌then◌else◌,
}
use udroid.Prelude.Effects.{Outcome, ok, err, Exec}

pub record WatchdogTimer : Type 0 where
  pub start_time : ℕ
  pub timeout : Option ℕ

-- Reset
unfoldable pub reset : WatchdogTimer → ℕ → WatchdogTimer
reset watchdog now = record watchdog { start_time = now }

-- GetElapsed, at a time that is not before the start.
unfoldable pub get_elapsed : WatchdogTimer → ℕ → ℕ
get_elapsed watchdog now = now - watchdog.start_time

-- GetRemaining; the time left may be negative, and is a timeout with what it is to be lessened by.
unfoldable pub get_remaining : WatchdogTimer → ℕ → Option (ℕ × ℕ)
unfolding get_elapsed
get_remaining watchdog now = elim watchdog.timeout [
  | none ↦ none
  | some timeout ↦ if ltb 0 timeout then some (timeout, get_elapsed watchdog now) else none
]

-- IsTimedOut
unfoldable pub is_timed_out : WatchdogTimer → ℕ → Bool
unfolding get_remaining
is_timed_out watchdog now = elim (get_remaining watchdog now) [
  | none ↦ false
  | some left ↦ ltb left.0 left.1
]

-- Whether GetRemainingTime raises: less is left than `required`.
unfoldable pub is_too_late : WatchdogTimer → ℕ → ℕ → Bool
unfolding get_remaining
is_too_late watchdog required now = elim (get_remaining watchdog now) [
  | none ↦ false
  | some left ↦ ltb left.0 (left.1 + required)
]

-- How WaitFor ends; `still_waiting` is what is left when the fuel is used up.
pub data Waited (E A : Type 0) : Type 0 where
  met : A → Waited E A
  failed : E → Waited E A
  not_met timed_out still_waiting : Waited E A

module _ {E W A : Type 0} (now : W → ℕ) (sleep : ℕ → W → W) (condition : Exec E W (Option A)) where
  abbrev pub is_late : Option WatchdogTimer → ℕ → W → Bool
  is_late none wait_period w = false
  is_late (some watchdog) wait_period w = is_too_late watchdog wait_period (now w)

  -- The end of the loop's body.
  abbrev pub check :
      Option WatchdogTimer → ℕ → (W → Waited E A × W) → Outcome E (Option A) × W → Waited E A × W
  check group wait_period again (err e, w) = (failed e, w)
  check group wait_period again (ok (some a), w) = (met a, w)
  check group wait_period again (ok none, w) =
      if is_late group wait_period w then (timed_out, w) else again (sleep wait_period w)

  abbrev pub is_exhausted : Option ℕ → Bool
  is_exhausted (some zero) = true
  is_exhausted _ = false

  abbrev pub one_less : Option ℕ → Option ℕ
  one_less none = none
  one_less (some tries) = some (tries - 1)

  -- WaitFor, with the watchdog of the thread group that the caller is in, if any.
  unfoldable pub wait_for : ℕ → Option WatchdogTimer → ℕ → Option ℕ → W → Waited E A × W
  unfolding is_too_late
  wait_for zero group wait_period max_tries w = (still_waiting, w)
  wait_for (suc fuel) group wait_period max_tries w =
      if is_exhausted max_tries
      then (not_met, w)
      else check group wait_period (wait_for fuel group wait_period (one_less max_tries))
          (condition w)

-- One try of Run: the child thread returns, its exception may be retried, or it may not.
pub data Tried (A : Type 0) : Type 0 where
  finished : A → Tried A
  retriable final : Tried A

module _ {W A : Type 0} (attempt : W → Tried A × W) where
  abbrev pub after_try : (W → Tried A × W) → Tried A × W → Tried A × W
  after_try again (retriable, w) = again w
  after_try again (r, w) = (r, w)

  -- Run: the loop with `retries` tries after the next one.
  unfoldable pub run : ℕ → W → Tried A × W
  run zero w = attempt w
  run (suc retries) w = after_try (run retries) (attempt w)
