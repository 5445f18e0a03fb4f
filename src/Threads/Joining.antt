-- ===== src/Threads/Joining.antt =====
-- RunAsync waits for all of its threads, and returns or reraises what they have left.
use udroid.Prelude.{
  ℕ, zero, suc, Bool, true, false, ◌||◌, Option, none, some, List, [], ◌∷◌, ◌++◌, is_some, ◌==◌,
  append_assoc, append-nil, subst, ◌≡◌, refl, sym, ap, ◌∙◌, arith, inl, inr, Bool-cases,
}
use udroid.Prelude.Effects.{Outcome, ok, err, continue}
use udroid.Threads.{
  System, GroupError, raised, timeout_error, assertion_error, unfinished, Group, is_member,
  remove_first, add, add_all, start_all, after_join, join_round, reraise_all, join_loop, any_alive,
  is_group_alive, return_values, join_all, get_all_return_values, new_group, run_async,
}
use udroid.Threads.Collecting.{
  first_exception, rets, none_alive, Reraised, reraise_all-Reraised, Collected,
  return_values-Collected,
}

is_member-remove_first :
    (u t : ℕ) (us : List ℕ) → (u == t) ≡ false → is_member u (remove_first t us) ≡ is_member u us
is_member-remove_first u t [] h = refl
is_member-remove_first u t (v ∷ us) h = elim (Bool-cases (t == v)) [
  | inl e ↦ rw e (ground arith)
  | inr e ↦ rw e (ap (λ (b : Bool). u == v || b) (is_member-remove_first u t us h))
]

same_thread : (u t : ℕ) → (u == t) ≡ true → u ≡ t
same_thread u t h = ground arith

module _ {W E A : Type 0} (system : System W E A) where
  module _
      (stays_dead : (t u : ℕ) (w : W)
        → system.is_alive t w ≡ false
        → system.is_alive t (system.join u w) ≡ false) where
    -- Each of the threads that is alive is among those that are still waited for.
    abbrev WaitedFor : List ℕ → List ℕ → W → Type 0
    WaitedFor threads alive w =
        (u : ℕ) → is_member u threads ≡ true → system.is_alive u w ≡ true → is_member u alive ≡ true

    was_alive :
        (u t : ℕ) (w : W) → system.is_alive u (system.join t w) ≡ true → system.is_alive u w ≡ true
    was_alive u t w h = elim (Bool-cases (system.is_alive u w)) [
      | inl e ↦ e
      | inr e ↦ ground (arith, stays_dead u t w e)
    ]

    after_join-WaitedFor :
        (threads alive : List ℕ) (t : ℕ) (w : W)
        → WaitedFor threads alive w
        → WaitedFor threads (after_join system t alive (system.join t w)) (system.join t w)
    after_join-WaitedFor threads alive t w h u m a =
        elim (Bool-cases (system.is_alive t (system.join t w))) [
          | inl e ↦ rw e (h u m (was_alive u t w a))
          | inr e ↦ rw e (is_member-remove_first u t alive (other e) ∙ h u m (was_alive u t w a))
        ]
      where
        other : system.is_alive t (system.join t w) ≡ false → (u == t) ≡ false
        other e = elim (Bool-cases (u == t)) [
          | inl q ↦
              ground (
                arith,
                a,
                e,
                ap (λ (x : ℕ). system.is_alive x (system.join t w)) (same_thread u t q),
              )
          | inr q ↦ q
        ]

    abbrev RoundWaits : List ℕ → Outcome (GroupError E) (List ℕ) × W → Type 0
    RoundWaits threads (ok alive, w) = WaitedFor threads alive w
    RoundWaits threads (err e, w) = e ≡ timeout_error

    join_round-RoundWaits :
        (threads ts alive : List ℕ) (w : W)
        → WaitedFor threads alive w
        → RoundWaits threads (join_round system ts alive w)
    unfolding join_round
    join_round-RoundWaits threads [] alive w h = h
    join_round-RoundWaits threads (t ∷ ts) alive w h = elim (Bool-cases (system.is_timed_out w)) [
      | inl e ↦ rw e refl
      | inr e ↦ rw e (
          join_round-RoundWaits threads ts (after_join system t alive (system.join t w))
            (system.join t w) (after_join-WaitedFor threads alive t w h))
    ]

    -- The call that returns or reraises has waited for all the threads.
    abbrev Joined : {B : Type 0} → List ℕ → Outcome (GroupError E) B × W → Type 0
    Joined threads (ok b, w) =
        (any_alive system threads w ≡ false) × (first_exception system threads w ≡ none)
    Joined threads (err (raised e), w) =
        (any_alive system threads w ≡ false) × (first_exception system threads w ≡ some e)
    Joined threads (err timeout_error, w) = Unit
    Joined threads (err assertion_error, w) = Unit
    Joined threads (err unfinished, w) = Unit

    Reraised-Joined :
        {B : Type 0} (threads : List ℕ) (w : W) (r : Outcome (GroupError E) B)
        → any_alive system threads w ≡ false
        → Reraised system (first_exception system threads w) r
        → Joined threads (r, w)
    Reraised-Joined threads w (ok b) h k = (h, k)
    Reraised-Joined threads w (err (raised e)) h k = (h, k)
    Reraised-Joined threads w (err timeout_error) h k = tt
    Reraised-Joined threads w (err assertion_error) h k = tt
    Reraised-Joined threads w (err unfinished) h k = tt

    join_loop-Joined :
        (fuel : ℕ) (threads alive : List ℕ) (w : W)
        → WaitedFor threads alive w
        → Joined threads (join_loop system fuel none threads alive w)
    unfolding join_loop
    join_loop-Joined zero threads alive w h = tt
    join_loop-Joined (suc fuel) threads [] w h =
        Reraised-Joined threads w (reraise_all system threads w) (none_alive system threads w dead)
          (reraise_all-Reraised system threads w)
      where
        dead : (u : ℕ) → is_member u threads ≡ true → system.is_alive u w ≡ false
        dead u m = elim (Bool-cases (system.is_alive u w)) [
          | inl e ↦ ground (arith, h u m e)
          | inr e ↦ e
        ]
    join_loop-Joined (suc fuel) threads (t ∷ ts) w h =
        go (join_loop-Joined fuel threads) (join_round system (t ∷ ts) (t ∷ ts) w)
          (join_round-RoundWaits threads (t ∷ ts) (t ∷ ts) w h)
      where
        go :
            ((alive : List ℕ) (v : W)
              → WaitedFor threads alive v
              → Joined threads (join_loop system fuel none threads alive v))
            → (m : Outcome (GroupError E) (List ℕ) × W) → RoundWaits threads m
            → Joined threads (continue m (join_loop system fuel none threads))
        go ih (ok alive, v) r = ih alive v r
        go ih (err e, v) r = rw r tt

    abbrev GroupJoined : {B : Type 0} → List ℕ → Outcome (GroupError E) B × Group W → Type 0
    GroupJoined threads (r, g) = Joined threads (r, g.world) × (g.threads ≡ threads)

    join_all-GroupJoined :
        (fuel : ℕ) (g : Group W) → GroupJoined g.threads (join_all system fuel none g)
    unfolding join_all
    join_all-GroupJoined fuel g =
        (join_loop-Joined fuel g.threads g.threads g.world (λ u m a. m), refl)

    abbrev Returns : List ℕ → Outcome (GroupError E) (List (Option A)) × Group W → Type 0
    Returns threads (ok values, g) =
        (any_alive system threads g.world ≡ false) × (values ≡ rets system threads g.world)
    Returns threads (err (raised e), g) =
        (any_alive system threads g.world ≡ false)
        × (first_exception system threads g.world ≡ some e)
    Returns threads (err timeout_error, g) = Unit
    Returns threads (err assertion_error, g) = Unit
    Returns threads (err unfinished, g) = Unit

    Collected-Returns :
        (threads : List ℕ) (r : Outcome (GroupError E) (List (Option A))) (g : Group W)
        → any_alive system threads g.world ≡ false
        → Collected system threads g.world r
        → Returns threads (r, g)
    Collected-Returns threads (ok values) g h (k, n) = (h, k)
    Collected-Returns threads (err (raised e)) g h k = (h, k)
    Collected-Returns threads (err timeout_error) g h k = tt
    Collected-Returns threads (err assertion_error) g h k = tt
    Collected-Returns threads (err unfinished) g h k = tt

    get_all_return_values-Returns :
        (fuel : ℕ) (g : Group W) → Returns g.threads (get_all_return_values system fuel g)
    unfolding get_all_return_values
    get_all_return_values-Returns fuel g = elim (Bool-cases (is_group_alive system g)) [
      | inr e ↦ rw e (
          Collected-Returns g.threads (return_values system g.threads g.world) g e
            (return_values-Collected system g.threads g.world))
      | inl e ↦ rw e (go (join_all system fuel none g) (join_all-GroupJoined fuel g))
    ]
      where
        go :
            (m : Outcome (GroupError E) (Unit {0}) × Group W)
            → GroupJoined g.threads m
            → Returns g.threads
                (continue m (λ _ g'. (return_values system g'.threads g'.world, g')))
        go (ok _, g') ((dead, n), same) =
            Collected-Returns g.threads (return_values system g'.threads g'.world) g' dead (
              subst
                (λ (ts : List ℕ).
                  Collected system ts g'.world (return_values system g'.threads g'.world))
                same (return_values-Collected system g'.threads g'.world))
        go (err (raised e), g') (j, same) = j
        go (err timeout_error, g') j = tt
        go (err assertion_error, g') j = tt
        go (err unfinished, g') j = tt

    -- A call that returns leaves the group with these threads, and one that does not has failed an
    -- assertion.
    abbrev HasThreads : List ℕ → Outcome (GroupError E) (Unit {0}) × Group W → Type 0
    HasThreads threads (ok _, g) = g.threads ≡ threads
    HasThreads threads (err e, g) = e ≡ assertion_error

    add_all-HasThreads :
        (ts : List ℕ) (g : Group W) → HasThreads (g.threads ++ ts) (add_all system ts g)
    unfolding add_all add
    add_all-HasThreads [] g = sym (append-nil g.threads)
    add_all-HasThreads (t ∷ ts) g = elim (Bool-cases (is_member t g.owned)) [
      | inl e ↦ rw e refl
      | inr e ↦ rw e (
          subst
            (λ (threads : List ℕ).
              HasThreads threads (
                add_all system ts
                  (record g { threads = g.threads ++ t ∷ []; owned = t ∷ g.owned })))
            (append_assoc g.threads (t ∷ []) ts)
            (add_all-HasThreads ts
              (record g { threads = g.threads ++ t ∷ []; owned = t ∷ g.owned })))
    ]

    start_all-HasThreads :
        (current : Option ℕ) (g : Group W) → HasThreads g.threads (start_all system true current g)
    unfolding start_all
    start_all-HasThreads current g = elim (Bool-cases (is_some g.blocked_parent_thread_group)) [
      | inl e ↦ rw e refl
      | inr e ↦ rw e refl
    ]

    run_async-Returns :
        (fuel : ℕ) (current : Option ℕ) (threads : List ℕ) (w : W)
        → Returns threads (run_async system fuel current threads w)
    unfolding run_async
    run_async-Returns fuel current threads w =
        added (add_all system threads (new_group system w))
          (add_all-HasThreads threads (new_group system w))
      where
        started :
            (m : Outcome (GroupError E) (Unit {0}) × Group W)
            → HasThreads threads m
            → Returns threads (continue m (λ _. get_all_return_values system fuel))
        started (ok _, g) same =
            subst (λ (ts : List ℕ). Returns ts (get_all_return_values system fuel g)) same
              (get_all_return_values-Returns fuel g)
        started (err e, g) h = rw h tt

        added :
            (m : Outcome (GroupError E) (Unit {0}) × Group W)
            → HasThreads threads m
            → Returns threads (
                continue m (λ _ g.
                  continue
                    (start_all system true current g)
                    (λ _. get_all_return_values system fuel)))
        added (ok _, g) same = started (start_all system true current g) (
            subst (λ (ts : List ℕ). HasThreads ts (start_all system true current g)) same
              (start_all-HasThreads current g))
        added (err e, g) h = rw h tt

    -- A thread that has ended stays so. When RunAsync returns a list, none of its threads is alive any
    -- more, and the list has what each of them returned, in the order of the functions.
    pub run_async_returns :
        (fuel : ℕ) (current : Option ℕ) (threads : List ℕ) (w : W) (values : List (Option A))
        (g : Group W)
        → run_async system fuel current threads w ≡ (ok values, g)
        → (any_alive system threads g.world ≡ false) × (values ≡ rets system threads g.world)
    run_async_returns fuel current threads w values g h =
        subst (Returns threads) h (run_async-Returns fuel current threads w)

    -- A thread that has ended stays so. When RunAsync reraises an exception of a thread, none of its
    -- threads is alive any more, and the exception is that of the first thread, in the order of the
    -- functions, that has one, not of the one that raised it first.
    pub run_async_reraises :
        (fuel : ℕ) (current : Option ℕ) (threads : List ℕ) (w : W) (e : E) (g : Group W)
        → run_async system fuel current threads w ≡ (err (raised e), g)
        → (any_alive system threads g.world ≡ false)
          × (first_exception system threads g.world ≡ some e)
    run_async_reraises fuel current threads w e g h =
        subst (Returns threads) h (run_async-Returns fuel current threads w)
