-- ===== src/Threads/Samples.antt =====
-- The theorems about groups of threads with a clock that each wait moves on, and threads that end at
-- a time of their own; thread 2 raises.
use udroid.Prelude.{
  ℕ, suc, ◌+◌, ◌*◌, ◌<◌, ◌≤◌, Bool, true, false, none, some, List, [], ◌∷◌, ltb, ◌==◌,
  if◌then◌else◌, ◌≡◌, ◌≢◌, refl, arith,
}
use udroid.Prelude.Effects.{ok, err}
use udroid.Threads.{
  System, raised, unfinished, Group, any_alive, run_async, join_all, add_all, add, start_all,
  get_all_return_values, return_values, get_return_value, reraise_if_exception, join_loop,
  join_round, reraise_all,
}
use udroid.Threads.Collecting.{first_exception, rets}
use udroid.Threads.Joining.{run_async_returns, run_async_reraises}
use udroid.Threads.Ending.{join_all_ends}

abbrev system : System ℕ Bool ℕ
system = record {
  start = λ t w. w;
  join = λ t w. suc w;
  is_alive = λ t w. ltb w (t + 3);
  ret = λ t w. some (t * 10);
  exc_info = λ t w. if t == 2 then some true else none;
  is_timed_out = λ w. false;
  time = λ w. w;
}

stays_dead : (t u w : ℕ) → ltb w (t + 3) ≡ false → ltb (suc w) (t + 3) ≡ false
stays_dead t u w h = ground arith

abbrev fine : List ℕ
fine = 1 ∷ 3 ∷ []

abbrev one_raises : List ℕ
one_raises = 1 ∷ 2 ∷ 3 ∷ []

abbrev fine_group : Group ℕ
fine_group = (run_async system 9 none fine 0).1

fine_returns : run_async system 9 none fine 0 ≡ (ok (some 10 ∷ some 30 ∷ []), fine_group)
unfolding run_async add_all add start_all get_all_return_values join_all join_loop join_round
    reraise_all reraise_if_exception return_values get_return_value
fine_returns = refl

run_async_returns_example :
    (any_alive system fine fine_group.world ≡ false)
    × ((some 10 ∷ some 30 ∷ []) ≡ rets system fine fine_group.world)
run_async_returns_example =
    run_async_returns system stays_dead 9 none fine 0 (some 10 ∷ some 30 ∷ []) fine_group
      fine_returns

abbrev raised_group : Group ℕ
raised_group = (run_async system 9 none one_raises 0).1

one_reraises : run_async system 9 none one_raises 0 ≡ (err (raised true), raised_group)
unfolding run_async add_all add start_all get_all_return_values join_all join_loop join_round
    reraise_all reraise_if_exception return_values get_return_value
one_reraises = refl

run_async_reraises_example :
    (any_alive system one_raises raised_group.world ≡ false)
    × (first_exception system one_raises raised_group.world ≡ some true)
run_async_reraises_example =
    run_async_reraises system stays_dead 9 none one_raises 0 true raised_group one_reraises

abbrev group : Group ℕ
group = record { threads = fine; blocked_parent_thread_group = none; owned = fine; world = 0 }

join_polls : (t w : ℕ) → w < suc w
join_polls t w = omega arith

-- No thread of the group lives longer than 10 waits.
abbrev short_lived : System ℕ Bool ℕ
short_lived = record system { is_alive = λ t w. ltb w 10 }

ends : (t w : ℕ) → 10 ≤ w → ltb w 10 ≡ false
ends t w h = ground arith

join_all_ends_example : (join_all short_lived 20 none group).0 ≢ err unfinished
join_all_ends_example =
    join_all_ends short_lived (λ w. w) 10 join_polls ends 20 none group (omega arith)
