-- ===== src/Retry/Trying/Returned.antt =====
-- What Run returns is what one of its threads has returned.
use udroid.Prelude.{
  ℕ, zero, suc, ◌≤◌, Bool, false, Option, none, some, List, [], ◌∷◌, if◌then◌else◌, ◌≡◌, refl, sym,
  arith, inl, inr, Bool-cases, subst,
}
use udroid.Prelude.Effects.{Outcome, ok, err, continue}
use udroid.Retry.{Tried, finished, retriable, final, after_try, run}
use udroid.Retry.Trying.{watched, first_value, keep_joining, answer, try_on_thread, run_on_threads}
use udroid.Threads.{
  System, GroupError, raised, timeout_error, assertion_error, unfinished, Group, is_group_alive,
  any_alive, add, start_all, join_all, get_all_return_values, return_values, get_return_value,
  reraise_if_exception, then_ret, cons_value,
}

module _ {W E A : Type 0} (system : System W E A) where
  -- The thread has ended without an exception, and with what is returned.
  abbrev GotOne : ℕ → Outcome (GroupError E) (Option A) × Group W → Type 0
  GotOne t (err e, g) = Unit
  GotOne t (ok a, g) =
      (system.is_alive t g.world ≡ false)
      × (system.exc_info t g.world ≡ none)
      × (system.ret t g.world ≡ a)

  one_value-GotOne :
      (t : ℕ) (g : Group W)
      → any_alive system (t ∷ []) g.world ≡ false
      → GotOne t (first_value (return_values system (t ∷ []) g.world, g))
  unfolding return_values get_return_value reraise_if_exception
  one_value-GotOne t g dead = go (system.exc_info t g.world) refl
    where
      go :
          (m : Option E)
          → system.exc_info t g.world ≡ m
          → GotOne t (
              first_value (
                cons_value system
                    (then_ret system t g.world (elim m [ none ↦ ok tt | some e ↦ err (raised e) ]))
                    (ok []),
                g,
              ))
      go none unraised = (ground arith, unraised, refl)
      go (some e) raised_e = tt

  values-GotOne :
      (t : ℕ) (g : Group W)
      → g.threads ≡ t ∷ []
      → any_alive system g.threads g.world ≡ false
      → GotOne t (first_value (return_values system g.threads g.world, g))
  values-GotOne t g one =
      subst
        (λ (ts : List ℕ).
          any_alive system ts g.world ≡ false
          → GotOne t (first_value (return_values system ts g.world, g)))
        (sym one) (one_value-GotOne t g)

  module _ (stop t : ℕ) where
    keep_joining-GotOne :
        (fuel : ℕ) (g : Group W) → g.threads ≡ t ∷ [] → GotOne t (keep_joining system stop fuel g)
    unfolding keep_joining join_all get_all_return_values
    keep_joining-GotOne zero g one = tt
    keep_joining-GotOne (suc fuel) g one =
        go (keep_joining-GotOne fuel) (join_all system fuel (some stop) g) one
      where
        go :
            ((h : Group W) → h.threads ≡ t ∷ [] → GotOne t (keep_joining system stop fuel h))
            → (m : Outcome (GroupError E) (Unit {0}) × Group W) → m.1.threads ≡ t ∷ []
            → GotOne t (
                continue m (λ _ g'.
                  if is_group_alive system g'
                  then keep_joining system stop fuel g'
                  else first_value (get_all_return_values system fuel g')))
        go ih (err e, h) same = tt
        go ih (ok _, h) same = elim (Bool-cases (is_group_alive system h)) [
          | inl e ↦ rw e (ih h same)
          | inr e ↦ rw e (values-GotOne t h same e)
        ]

module _ {W E A : Type 0} (system : System W E A) (stop : ℕ) (fuel : ℕ) (timeout : Option ℕ)
    (current : Option ℕ) (new_thread : W → ℕ) (retry_if : GroupError E → Bool) where
  abbrev try_once : W → Tried (Option A) × W
  try_once = try_on_thread system stop fuel timeout current new_thread retry_if

  -- Some tries, each of which was to be retried, lead from one state to another.
  abbrev pub RetriedTo : ℕ → W → W → Type 0
  RetriedTo zero w v = w ≡ v
  RetriedTo (suc k) w v = (u : W) × (try_once w ≡ (retriable, u)) × RetriedTo k u v

  -- The thread that is made in `v` has ended without an exception, with the value that is returned.
  abbrev pub Got : W → Tried (Option A) × W → Type 0
  Got v (finished a, w') =
      (system.is_alive (new_thread v) w' ≡ false)
      × (system.exc_info (new_thread v) w' ≡ none)
      × (system.ret (new_thread v) w' ≡ a)
  Got v (retriable, w') = Unit
  Got v (final, w') = Unit

  -- One of the tries that start from `w` has returned the value of its thread.
  abbrev pub GotFrom : ℕ → W → Tried (Option A) × W → Type 0
  GotFrom retries w (finished a, w') =
      (k : ℕ) × (v : W) × (k ≤ retries)
      × RetriedTo k w v
      × (try_once v ≡ (finished a, w'))
      × Got v (finished a, w')
  GotFrom retries w (retriable, w') = Unit
  GotFrom retries w (final, w') = Unit

  answer-Got :
      (v : W) (m : Outcome (GroupError E) (Option A) × Group W)
      → GotOne system (new_thread v) m
      → Got v (answer system stop fuel timeout current new_thread retry_if m)
  answer-Got v (ok a, g) h = h
  answer-Got v (err unfinished, g) h = tt
  answer-Got v (err (raised e), g) h = elim (Bool-cases (retry_if (raised e))) [
    | inl q ↦ rw q tt
    | inr q ↦ rw q tt
  ]
  answer-Got v (err timeout_error, g) h = elim (Bool-cases (retry_if timeout_error)) [
    | inl q ↦ rw q tt
    | inr q ↦ rw q tt
  ]
  answer-Got v (err assertion_error, g) h = elim (Bool-cases (retry_if assertion_error)) [
    | inl q ↦ rw q tt
    | inr q ↦ rw q tt
  ]

  try_on_thread-Got :
      (w : W) → Got w (try_on_thread system stop fuel timeout current new_thread retry_if w)
  unfolding try_on_thread add start_all
  try_on_thread-Got w = answer-Got w _ (
      keep_joining-GotOne (watched system timeout w) stop (new_thread w) fuel
        (record {
          threads = new_thread w ∷ [];
          blocked_parent_thread_group = current;
          owned = new_thread w ∷ [];
          world = system.start (new_thread w) w;
        })
        refl)

  last_try :
      (retries : ℕ) (w : W) (m : Tried (Option A) × W)
      → try_once w ≡ m
      → Got w m
      → GotFrom retries w m
  last_try retries w (finished a, w') e h = (0, w, omega arith, refl, e, h)
  last_try retries w (retriable, w') e h = tt
  last_try retries w (final, w') e h = tt

  earlier_try :
      (retries : ℕ) (w u : W) (m : Tried (Option A) × W)
      → try_once w ≡ (retriable, u)
      → GotFrom retries u m
      → GotFrom (suc retries) w m
  earlier_try retries w u (finished a, w') e (k, v, few, retried, last, got) =
      (suc k, v, omega arith, (u, e, retried), last, got)
  earlier_try retries w u (retriable, w') e h = tt
  earlier_try retries w u (final, w') e h = tt

  run-GotFrom :
      (retries : ℕ) (w : W)
      → GotFrom retries w
          (run_on_threads system stop fuel timeout current new_thread retry_if retries w)
  unfolding run
  run-GotFrom zero w = last_try zero w (try_once w) refl (try_on_thread-Got w)
  run-GotFrom (suc retries) w = go (try_once w) refl (try_on_thread-Got w) (run-GotFrom retries)
    where
      go :
          (m : Tried (Option A) × W)
          → try_once w ≡ m
          → Got w m
          → ((v : W)
              → GotFrom retries v
                  (run_on_threads system stop fuel timeout current new_thread retry_if retries v))
          → GotFrom (suc retries) w (
              after_try try_once
                (run_on_threads system stop fuel timeout current new_thread retry_if retries)
                m)
      go (finished a, v) e h ih = last_try (suc retries) w (finished a, v) e h
      go (retriable, v) e h ih =
          earlier_try retries w v
            (run_on_threads system stop fuel timeout current new_thread retry_if retries v) e (ih v)
      go (final, v) e h ih = tt

  -- A Run that returns a value has got it from a thread of its own: after at most `retries` tries that
  -- were to be retried, it has started a try in some state `v`, and that try's thread is not alive any
  -- more, has no exception, and the value is what its function returned. No assumption is made on the
  -- threads.
  pub run_on_threads_returned :
      (retries : ℕ) (w w' : W) (a : Option A)
      → run_on_threads system stop fuel timeout current new_thread retry_if retries w
        ≡ (finished a, w')
      → (k : ℕ) × (v : W) × (k ≤ retries)
        × RetriedTo k w v
        × (try_on_thread system stop fuel timeout current new_thread retry_if v ≡ (finished a, w'))
        × ((system.is_alive (new_thread v) w' ≡ false)
            × (system.exc_info (new_thread v) w' ≡ none)
            × (system.ret (new_thread v) w' ≡ a))
  run_on_threads_returned retries w w' a h = subst (GotFrom retries w) h (run-GotFrom retries w)
