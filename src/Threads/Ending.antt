-- ===== src/Threads/Ending.antt =====
-- JoinAll ends when its threads do.
use udroid.Prelude.{
  ℕ, zero, suc, ◌+◌, ◌-◌, ◌<◌, ◌≤◌, true, false, Option, none, some, List, [], ◌∷◌, length, ltb,
  ◌≡◌, ◌≢◌, refl, arith, inl, inr, Bool-cases,
}
use udroid.Prelude.Effects.{Outcome, ok, err, continue}
use udroid.Threads.{
  System, GroupError, raised, timeout_error, unfinished, Group, remove_first, reraise_if_exception,
  after_join, join_round, reraise_all, is_over, join_loop, end_time_of, join_all,
}

length-remove_first : (t : ℕ) (us : List ℕ) → length (remove_first t us) ≤ length us
length-remove_first t [] = omega arith
length-remove_first t (u ∷ us) = ground (arith, length-remove_first t us)

remove_first-head : (t : ℕ) (us : List ℕ) → remove_first t (t ∷ us) ≡ us
remove_first-head t us = ground arith

module _ {W E A : Type 0} (system : System W E A) (polls : W → ℕ) (bound : ℕ)
    (join_polls : (t : ℕ) (w : W) → polls w < polls (system.join t w))
    (ends : (t : ℕ) (w : W) → bound ≤ polls w → system.is_alive t w ≡ false) where
  -- What is left to do: the polls up to the bound, and the threads that are waited for.
  abbrev left : List ℕ → W → ℕ
  left alive w = (bound - polls w) + length alive

  after_join-left :
      (t : ℕ) (alive : List ℕ) (w : W)
      → left (after_join system t alive (system.join t w)) (system.join t w) ≤ left alive w
  after_join-left t alive w = elim (Bool-cases (system.is_alive t (system.join t w))) [
    | inl e ↦ rw e (omega (arith, join_polls t w))
    | inr e ↦ rw e (omega (arith, join_polls t w, length-remove_first t alive))
  ]

  not_over : (t : ℕ) (w : W) → system.is_alive t w ≡ true → polls w < bound
  not_over t w e = elim (Bool-cases (ltb (polls w) bound)) [
    | inl q ↦ ground (arith, q)
    | inr q ↦ ground (arith, e, ends t w (ground (arith, q)))
  ]

  first_join-left :
      (t : ℕ) (ts : List ℕ) (w : W)
      → left (after_join system t (t ∷ ts) (system.join t w)) (system.join t w) < left (t ∷ ts) w
  first_join-left t ts w = elim (Bool-cases (system.is_alive t (system.join t w))) [
    | inl e ↦ rw e (omega (arith, join_polls t w, not_over t (system.join t w) e))
    | inr e ↦ rw (e, remove_first-head t ts) (omega (arith, join_polls t w))
  ]

  -- The round leaves at most `most` to do, if it is not timed out.
  abbrev LeavesAtMost : ℕ → Outcome (GroupError E) (List ℕ) × W → Type 0
  LeavesAtMost most (ok alive, w) = left alive w ≤ most
  LeavesAtMost most (err e, w) = e ≡ timeout_error

  join_round-LeavesAtMost :
      (ts alive : List ℕ) (w : W) (most : ℕ)
      → left alive w ≤ most
      → LeavesAtMost most (join_round system ts alive w)
  unfolding join_round
  join_round-LeavesAtMost [] alive w most h = h
  join_round-LeavesAtMost (t ∷ ts) alive w most h = elim (Bool-cases (system.is_timed_out w)) [
    | inl e ↦ rw e refl
    | inr e ↦ rw e (
        join_round-LeavesAtMost ts (after_join system t alive (system.join t w)) (system.join t w)
          most (omega (arith, h, after_join-left t alive w)))
  ]

  whole_round :
      (t : ℕ) (ts : List ℕ) (w : W) (most : ℕ)
      → left (t ∷ ts) w ≤ suc most
      → LeavesAtMost most (join_round system (t ∷ ts) (t ∷ ts) w)
  unfolding join_round
  whole_round t ts w most h = elim (Bool-cases (system.is_timed_out w)) [
    | inl e ↦ rw e refl
    | inr e ↦ rw e (
        join_round-LeavesAtMost ts (after_join system t (t ∷ ts) (system.join t w))
          (system.join t w) most (omega (arith, h, first_join-left t ts w)))
  ]

  reraise_all-ends : (ts : List ℕ) (w : W) → reraise_all system ts w ≢ err unfinished
  unfolding reraise_all reraise_if_exception
  reraise_all-ends [] w = λ e. cc
  reraise_all-ends (t ∷ ts) w = go (system.exc_info t w) (reraise_all-ends ts w)
    where
      go :
          (m : Option E)
          → (reraise_all system ts w ≢ err unfinished)
          → elim (elim m as (λ _. Outcome (GroupError E) (Unit {0})) [
            | none ↦ ok tt
            | some e ↦ err (raised e)
          ])
              as (λ _. Outcome (GroupError E) (Unit {0})) [
                | err e ↦ err e
                | ok _ ↦ reraise_all system ts w
              ]
            ≢ err unfinished
      go none h = h
      go (some e) h = λ q. cc

  join_loop-ends :
      (fuel : ℕ) (end_time : Option ℕ) (threads alive : List ℕ) (w : W)
      → left alive w < fuel
      → (join_loop system fuel end_time threads alive w).0 ≢ err unfinished
  unfolding join_loop
  join_loop-ends zero end_time threads alive w h = absurd (omega (arith, h))
  join_loop-ends (suc fuel) end_time threads [] w h = reraise_all-ends threads w
  join_loop-ends (suc fuel) end_time threads (t ∷ ts) w h =
      elim (Bool-cases (is_over system end_time w)) [
        | inl e ↦ rw e (reraise_all-ends threads w)
        | inr e ↦ rw e (
            go (join_loop-ends fuel end_time threads) (join_round system (t ∷ ts) (t ∷ ts) w)
              (whole_round t ts w (fuel - 1) (omega (arith, h))))
      ]
    where
      go :
          ((alive : List ℕ) (v : W)
            → left alive v < fuel
            → (join_loop system fuel end_time threads alive v).0 ≢ err unfinished)
          → (m : Outcome (GroupError E) (List ℕ) × W) → LeavesAtMost (fuel - 1) m
          → (continue m (join_loop system fuel end_time threads)).0 ≢ err unfinished
      go ih (ok alive, v) r = ih alive v (omega (arith, h, r))
      go ih (err e, v) r = rw r (λ q. cc)

  -- Each wait for a thread lets the system go on, and from some `bound` on, counted in such waits, no
  -- thread is alive. Then JoinAll ends, with or without a timeout: with more fuel than the waits up to
  -- the bound and the threads, it is not left waiting.
  pub join_all_ends :
      (fuel : ℕ) (timeout : Option ℕ) (g : Group W)
      → (bound - polls g.world) + length g.threads < fuel
      → (join_all system fuel timeout g).0 ≢ err unfinished
  unfolding join_all
  join_all_ends fuel timeout g h =
      join_loop-ends fuel (end_time_of system timeout g.world) g.threads g.threads g.world h
