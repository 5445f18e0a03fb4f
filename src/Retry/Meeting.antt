-- ===== src/Retry/Meeting.antt =====
-- What a WaitFor that is met has seen last.
use udroid.Prelude.{
  ℕ, zero, suc, Bool, true, false, Option, none, some, ◌≡◌, refl, inl, inr, Bool-cases,
}
use udroid.Prelude.Effects.{Outcome, ok, err, Exec}
use udroid.Retry.{
  WatchdogTimer, Waited, met, not_met, timed_out, failed, still_waiting, is_late, check,
  is_exhausted, one_less, wait_for,
}

module _ {E W A : Type 0} (now : W → ℕ) (sleep : ℕ → W → W) (condition : Exec E W (Option A))
    (group : Option WatchdogTimer) (wait_period : ℕ) where
  -- A met wait ends where the condition that was met left the world.
  abbrev pub EndsMet : Waited E A × W → Type 0
  EndsMet (met a, w) = (t : W) × (condition t ≡ (ok (some a), w))
  EndsMet (failed e, w) = Unit
  EndsMet (not_met, w) = Unit
  EndsMet (timed_out, w) = Unit
  EndsMet (still_waiting, w) = Unit

  check-EndsMet :
      (again : W → Waited E A × W) (t : W) (m : Outcome E (Option A) × W)
      → condition t ≡ m
      → ((w : W) → EndsMet (again w))
      → EndsMet (check now sleep condition group wait_period again m)
  check-EndsMet again t (err e, w) q h = tt
  check-EndsMet again t (ok (some a), w) q h = (t, q)
  check-EndsMet again t (ok none, w) q h =
      elim (Bool-cases (is_late now sleep condition group wait_period w)) [
        | inl late ↦ rw late tt
        | inr early ↦ rw early (h (sleep wait_period w))
      ]

  pub wait_for-EndsMet :
      (fuel : ℕ) (max_tries : Option ℕ) (w : W)
      → EndsMet (wait_for now sleep condition fuel group wait_period max_tries w)
  unfolding wait_for
  wait_for-EndsMet zero max_tries w = tt
  wait_for-EndsMet (suc fuel) max_tries w =
      elim (Bool-cases (is_exhausted now sleep condition max_tries)) [
        | inl e ↦ rw e tt
        | inr e ↦ rw e (
            check-EndsMet
              (wait_for now sleep condition fuel group wait_period
                (one_less now sleep condition max_tries))
              w (condition w) refl
              (λ u. wait_for-EndsMet fuel (one_less now sleep condition max_tries) u))
      ]

  abbrev pub is_not_met : Waited E A → Bool
  is_not_met not_met = true
  is_not_met _ = false

  check_tries :
      (again : W → Waited E A × W) (m : Outcome E (Option A) × W)
      → ((w : W) → is_not_met (again w).0 ≡ false)
      → is_not_met (check now sleep condition group wait_period again m).0 ≡ false
  check_tries again (err e, w) h = refl
  check_tries again (ok (some a), w) h = refl
  check_tries again (ok none, w) h =
      elim (Bool-cases (is_late now sleep condition group wait_period w)) [
        | inl late ↦ rw late refl
        | inr early ↦ rw early (h (sleep wait_period w))
      ]

  -- Without a limit on the tries a wait does not give up.
  pub wait_for_keeps_on :
      (fuel : ℕ) (w : W)
      → is_not_met (wait_for now sleep condition fuel group wait_period none w).0 ≡ false
  unfolding wait_for
  wait_for_keeps_on zero w = refl
  wait_for_keeps_on (suc fuel) w =
      check_tries (wait_for now sleep condition fuel group wait_period none) (condition w)
        (λ u. wait_for_keeps_on fuel u)
