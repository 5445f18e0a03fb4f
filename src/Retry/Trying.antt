-- ===== src/Retry/Trying.antt =====
-- One try of Run, on a thread of its own: TimeoutRetryThreadGroup and the body of Run's loop.
pub mod Returned
use udroid.Prelude.{
  ℕ, zero, suc, Bool, true, false, ◌||◌, Option, none, some, List, [], ◌∷◌, if◌then◌else◌, ◌≡◌,
  refl, ap, sym, ◌∙◌, arith, inl, inr, Bool-cases, subst,
}
use udroid.Prelude.Effects.{Outcome, ok, err, continue, ◌>>=◌, ◌>>◌}
use udroid.Retry.{WatchdogTimer, is_timed_out, Tried, finished, retriable, final, after_try, run}
use udroid.Threads.{
  System, GroupError, unfinished, Group, new_group, is_group_alive, add, start_all, join_all,
  get_all_return_values,
}

module _ {W E A : Type 0} (system : System W E A) where
  -- The system with a watcher that is started now: TimeoutRetryThreadGroup.__init__.
  abbrev pub watched : Option ℕ → W → System W E A
  watched timeout w = record system {
    is_timed_out = λ v.
        is_timed_out (record { start_time = system.time w; timeout = timeout }) (system.time v);
  }

-- `GetAllReturnValues()[0]`, of a group that has a thread.
abbrev pub first_value :
    {W E A : Type 0}
    → Outcome (GroupError E) (List (Option A)) × Group W
    → Outcome (GroupError E) (Option A) × Group W
first_value (err e, g) = (err e, g)
first_value (ok [], g) = (ok none, g)
first_value (ok (a ∷ values), g) = (ok a, g)

module _ {W E A : Type 0} (system : System W E A) (stop : ℕ) where
  -- The inner loop of Run, whose joins stop after a minute to tell that it still works.
  unfoldable pub keep_joining : ℕ → Group W → Outcome (GroupError E) (Option A) × Group W
  unfolding join_all get_all_return_values
  keep_joining zero g = (err unfinished, g)
  keep_joining (suc fuel) g = continue (join_all system fuel (some stop) g) (λ _ g'.
      let again = keep_joining fuel g' in
      if is_group_alive system g'
      then again
      else first_value (get_all_return_values system fuel g'))

module _ {W E A : Type 0} (system : System W E A) (stop : ℕ) (fuel : ℕ) (timeout : Option ℕ)
    (current : Option ℕ) (new_thread : W → ℕ) (retry_if : GroupError E → Bool) where
  abbrev pub answer : Outcome (GroupError E) (Option A) × Group W → Tried (Option A) × W
  answer (ok a, g) = (finished a, g.world)
  answer (err unfinished, g) = (final, g.world)
  answer (err e, g) = if retry_if e then (retriable, g.world) else (final, g.world)

  -- The body of Run's loop.
  unfoldable pub try_on_thread : W → Tried (Option A) × W
  unfolding keep_joining add start_all
  try_on_thread w =
      let system' = watched system timeout w in
      answer (
        continue (add system' (new_thread w) (new_group system' w))
          (λ _. start_all system' true current >> keep_joining system' stop fuel))

  -- `Run(func, timeout, retries, retry_if_func=retry_if)`
  abbrev pub run_on_threads : ℕ → W → Tried (Option A) × W
  run_on_threads retries w = run try_on_thread retries w
