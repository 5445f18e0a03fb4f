-- ===== src/Retry/Running.antt =====
-- How often Run tries.
use udroid.Prelude.{
  Bool-cases, ltb, inl, inr, ℕ, zero, suc, ◌+◌, ◌≤◌, Bool, true, false, ◌≡◌, ◌≢◌, refl, arith, sym,
  ◌∙◌,
}
use udroid.Retry.{Tried, finished, retriable, final, after_try, run}

-- A try on a world that counts the tries: try number n answers `answers n`.
abbrev pub counted : {A : Type 0} → (ℕ → Tried A) → ℕ → Tried A × ℕ
counted answers n = (answers n, suc n)

abbrev pub is_retriable : {A : Type 0} → Tried A → Bool
is_retriable retriable = true
is_retriable _ = false

module _ {A : Type 0} (answers : ℕ → Tried A) where
  run-counted :
      (retries n : ℕ)
      → (suc n ≤ (run (counted answers) retries n).1)
        × ((run (counted answers) retries n).1 ≤ suc (n + retries))
        × (suc ((run (counted answers) retries n).1) ≤ suc (n + retries)
            → is_retriable (run (counted answers) retries n).0 ≡ false)
  unfolding run
  run-counted zero n = (omega arith, omega arith, λ h. absurd (omega arith))
  run-counted (suc retries) n = go (answers n) (run-counted retries (suc n))
    where
      go :
          (a : Tried A)
          → (suc (suc n) ≤ (run (counted answers) retries (suc n)).1)
            × ((run (counted answers) retries (suc n)).1 ≤ suc (suc n + retries))
            × (suc ((run (counted answers) retries (suc n)).1) ≤ suc (suc n + retries)
                → is_retriable (run (counted answers) retries (suc n)).0 ≡ false)
          → (suc n ≤ (after_try (counted answers) (run (counted answers) retries) (a, suc n)).1)
            × ((after_try (counted answers) (run (counted answers) retries) (a, suc n)).1
                ≤ suc (n + suc retries))
            × (suc ((after_try (counted answers) (run (counted answers) retries) (a, suc n)).1)
                  ≤ suc (n + suc retries)
                → is_retriable
                    (after_try (counted answers) (run (counted answers) retries) (a, suc n)).0
                  ≡ false)
      go retriable (low, high, e) = (omega arith, omega arith, λ h. e (omega arith))
      go (finished x) (low, high, e) = (omega arith, omega arith, λ h. refl)
      go final (low, high, e) = (omega arith, omega arith, λ h. refl)

  -- Run makes at least one try and at most `retries + 1`, whatever each of them answers.
  pub run_tries :
      (retries : ℕ)
      → (1 ≤ (run (counted answers) retries 0).1)
        × ((run (counted answers) retries 0).1 ≤ retries + 1)
  run_tries retries = let (low, high, _) = run-counted retries 0 in (low, omega arith)

  -- A Run that ends with an exception that may be retried has made `retries + 1` tries.
  pub run_gives_up :
      (retries : ℕ)
      → is_retriable (run (counted answers) retries 0).0 ≡ true
      → (run (counted answers) retries 0).1 ≡ retries + 1
  run_gives_up retries h =
      let (low, high, e) = run-counted retries 0 in
      elim (Bool-cases (ltb (run (counted answers) retries 0).1 (retries + 1))) [
        | inl less ↦ absurd (true_is_false (sym h ∙ e (ground arith)))
        | inr enough ↦ ground arith
      ]
    where
      true_is_false : true ≢ false
      true_is_false t = cc
