-- ===== src/Retry/Samples.antt =====
-- The theorems about WaitFor and Run on a clock that only a sleep moves, and on tries that fail.
use udroid.Prelude.{
  Bool, true, false, suc, ◌*◌, ltb, if◌then◌else◌, ℕ, ◌+◌, ◌≤◌, ◌≡◌, ◌≢◌, refl, Option, none, some,
  arith,
}
use udroid.Prelude.Effects.{ok, Exec}
use udroid.Retry.{
  still_waiting, wait_for, Tried, finished, retriable, run, is_timed_out, get_remaining,
  get_elapsed,
}
use udroid.Retry.Trying.{run_on_threads, try_on_thread, keep_joining}
use udroid.Retry.Trying.Returned.{RetriedTo, run_on_threads_returned}
use udroid.Threads.{
  System, add, start_all, join_all, join_loop, join_round, reraise_all, reraise_if_exception,
  get_all_return_values, return_values, get_return_value,
}
use udroid.Retry.Waiting.{wait_for_ends}
use udroid.Retry.Running.{counted, run_tries, run_gives_up}

-- A condition that is never met.
abbrev never : Exec (Unit {0}) ℕ (Option ℕ)
never t = (ok none, t)

sleeps : (period w : ℕ) → w + period ≤ w + period
sleeps period w = omega arith

runs_on : (w : ℕ) → w ≤ w
runs_on w = omega arith

wait_for_ends_example :
    (wait_for
      (λ t. t)
      (λ period t. t + period)
      never
      11
      (some (record { start_time = 5; timeout = some 10 }))
      3
      none
      5).0
    ≢ still_waiting
wait_for_ends_example =
    wait_for_ends (λ t. t) (λ period t. t + period) never sleeps runs_on 5 10 3 (omega arith)
      (omega arith) 10 none 5 (omega arith) (omega arith)

abbrev failing : ℕ → Tried ℕ
failing n = retriable

run_tries_example : (1 ≤ (run (counted failing) 2 0).1) × ((run (counted failing) 2 0).1 ≤ 3)
run_tries_example = run_tries failing 2

run_gives_up_example : (run (counted failing) 2 0).1 ≡ 3
unfolding run
run_gives_up_example = run_gives_up failing 2 refl

-- A thread is named by the time of its start, ends after three waits, and raises before the time 4.
abbrev system : System ℕ Bool ℕ
system = record {
  start = λ t w. w;
  join = λ t w. suc w;
  is_alive = λ t w. ltb w (t + 3);
  ret = λ t w. some (t * 10);
  exc_info = λ t w. if ltb t 4 then some true else none;
  is_timed_out = λ w. false;
  time = λ w. w;
}

third_returns :
    run_on_threads system 60 9 (some 30) none (λ w. w) (λ e. true) 2 0 ≡ (finished (some 60), 9)
unfolding run try_on_thread keep_joining add start_all join_all join_loop join_round reraise_all
    reraise_if_exception get_all_return_values return_values get_return_value is_timed_out
    get_remaining get_elapsed
third_returns = refl

run_on_threads_returned_example :
    (k v : ℕ) × (k ≤ 2)
    × RetriedTo system 60 9 (some 30) none (λ w. w) (λ e. true) k 0 v
    × (try_on_thread system 60 9 (some 30) none (λ w. w) (λ e. true) v ≡ (finished (some 60), 9))
    × ((ltb 9 (v + 3) ≡ false)
        × ((if ltb v 4 then some true else none) ≡ none)
        × (some (v * 10) ≡ some 60))
run_on_threads_returned_example =
    run_on_threads_returned system 60 9 (some 30) none (λ w. w) (λ e. true) 2 0 9 (some 60)
      third_returns
