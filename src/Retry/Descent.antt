-- ===== src/Retry/Descent.antt =====
-- A WaitFor whose condition gets closer to an end each time that it is not met.
use udroid.Prelude.{
  ℕ, zero, suc, ◌<◌, Option, none, some, ◌≡◌, ◌≢◌, refl, arith, inl, inr, Bool-cases,
}
use udroid.Prelude.Effects.{Outcome, ok, err, Exec}
use udroid.Retry.{
  WatchdogTimer, Waited, still_waiting, is_late, check, is_exhausted, one_less, wait_for,
}

module _ {E W A : Type 0} (now : W → ℕ) (sleep : ℕ → W → W) (condition : Exec E W (Option A))
    (group : Option WatchdogTimer) (wait_period : ℕ) (P : W → Type 0) (measure : W → ℕ)
    (falls : (w : W)
      → P w
      → (condition w).0 ≡ ok none
      → P (sleep wait_period (condition w).1)
        × (measure (sleep wait_period (condition w).1) < measure w)) where
  check_descends :
      (again : W → Waited E A × W) (m : Outcome E (Option A) × W)
      → (m.0 ≡ ok none → (again (sleep wait_period m.1)).0 ≢ still_waiting)
      → (check now sleep condition group wait_period again m).0 ≢ still_waiting
  check_descends again (err e, w) h = λ bad. cc
  check_descends again (ok (some a), w) h = λ bad. cc
  check_descends again (ok none, w) h =
      elim (Bool-cases (is_late now sleep condition group wait_period w)) [
        | inl late ↦ rw late (λ bad. cc)
        | inr early ↦ rw early (h refl)
      ]

  -- As many rounds as the measure says are enough.
  pub wait_for_descends :
      (fuel : ℕ) (max_tries : Option ℕ) (w : W)
      → P w
      → measure w < fuel
      → (wait_for now sleep condition fuel group wait_period max_tries w).0 ≢ still_waiting
  unfolding wait_for
  wait_for_descends zero max_tries w p enough = absurd (omega arith)
  wait_for_descends (suc fuel) max_tries w p enough =
      elim (Bool-cases (is_exhausted now sleep condition max_tries)) [
        | inl e ↦ rw e (λ bad. cc)
        | inr e ↦ rw e (
            check_descends
              (wait_for now sleep condition fuel group wait_period
                (one_less now sleep condition max_tries))
              (condition w)
              λ again.
                let (p', less) = falls w p again in
                wait_for_descends fuel (one_less now sleep condition max_tries)
                  (sleep wait_period (condition w).1) p' (omega arith))
      ]
