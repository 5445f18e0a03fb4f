-- ===== src/Threads.antt =====
-- devil/devil/utils/reraiser_thread.py. What the threads do is a parameter: the system starts a
-- thread, waits for it for a while, and tells whether it is alive; meanwhile the others run. A thread
-- is known by a number. `run` keeps what the function returns or raises, `ret` and `exc_info`.
pub mod Collecting
pub mod Joining
pub mod Ending
mod Samples
use udroid.Prelude.{
  ℕ, zero, suc, ◌+◌, Bool, true, false, not, ◌||◌, ◌&&◌, Option, none, some, List, [], ◌∷◌, ◌++◌,
  is_empty, is_some, if◌then◌else◌, ltb, ◌==◌,
}
use udroid.Prelude.Effects.{Outcome, ok, err, Exec, pure, raise, continue, ◌>>=◌, ◌>>◌}

pub record System (W E A : Type 0) : Type 0 where
  pub start : ℕ → W → W
  pub join : ℕ → W → W
  pub is_alive : ℕ → W → Bool
  pub ret : ℕ → W → Option A
  pub exc_info : ℕ → W → Option E
  pub is_timed_out : W → Bool
  pub time : W → ℕ

-- `unfinished` is no exception: it stands for a wait that the fuel given does not see the end of.
pub data GroupError (E : Type 0) : Type 0 where
  raised : E → GroupError E
  timeout_error assertion_error unfinished : GroupError E

-- A ReraiserThreadGroup; `owned` are the threads that are in a group, this or another.
pub record Group (W : Type 0) : Type 0 where
  pub threads : List ℕ
  pub blocked_parent_thread_group : Option ℕ
  pub owned : List ℕ
  pub world : W

abbrev pub is_member : ℕ → List ℕ → Bool
is_member t [] = false
is_member t (u ∷ us) = t == u || is_member t us

-- `list.remove`, of a member.
abbrev pub remove_first : ℕ → List ℕ → List ℕ
remove_first t [] = []
remove_first t (u ∷ us) = let rest = remove_first t us in if t == u then us else u ∷ rest

module _ {W E A : Type 0} (system : System W E A) where
  abbrev pub InGroup : Type 0 → Type 0
  InGroup B = Exec (GroupError E) (Group W) B

  -- `ReraiseIfException`
  unfoldable pub reraise_if_exception : ℕ → W → Outcome (GroupError E) (Unit {0})
  reraise_if_exception t w = elim (system.exc_info t w) [ none ↦ ok tt | some e ↦ err (raised e) ]

  abbrev pub then_ret :
      ℕ → W → Outcome (GroupError E) (Unit {0}) → Outcome (GroupError E) (Option A)
  then_ret t w (err e) = err e
  then_ret t w (ok _) = ok (system.ret t w)

  -- `GetReturnValue`
  unfoldable pub get_return_value : ℕ → W → Outcome (GroupError E) (Option A)
  unfolding reraise_if_exception
  get_return_value t w = then_ret t w (reraise_if_exception t w)

  -- `Add`
  unfoldable pub add : ℕ → InGroup (Unit {0})
  add t g =
      if is_member t g.owned
      then (err assertion_error, g)
      else (ok tt, record g { threads = g.threads ++ t ∷ []; owned = t ∷ g.owned })

  unfoldable pub add_all : List ℕ → InGroup (Unit {0})
  unfolding add
  add_all [] = pure tt
  add_all (t ∷ ts) = add t >> add_all ts

  abbrev pub start_each : List ℕ → W → W
  start_each [] w = w
  start_each (t ∷ ts) w = start_each ts (system.start t w)

  abbrev pub start_threads : InGroup (Unit {0})
  start_threads g = (ok tt, record g { world = start_each g.threads g.world })

  -- `StartAll`, with CurrentThreadGroup().
  unfoldable pub start_all : Bool → Option ℕ → InGroup (Unit {0})
  start_all false current g = start_threads g
  start_all true current g =
      if is_some g.blocked_parent_thread_group
      then (err assertion_error, g)
      else start_threads (record g { blocked_parent_thread_group = current })

  abbrev pub after_join : ℕ → List ℕ → W → List ℕ
  after_join t alive w = if system.is_alive t w then alive else remove_first t alive

  -- `for thread in alive_threads[:]`: the alive threads that are left.
  unfoldable pub join_round : List ℕ → List ℕ → W → Outcome (GroupError E) (List ℕ) × W
  join_round [] alive w = (ok alive, w)
  join_round (t ∷ ts) alive w =
      let rest = join_round ts (after_join t alive (system.join t w)) (system.join t w) in
      if system.is_timed_out w then (err timeout_error, w) else rest

  -- `for thread in self._threads: thread.ReraiseIfException()`
  unfoldable pub reraise_all : List ℕ → W → Outcome (GroupError E) (Unit {0})
  unfolding reraise_if_exception
  reraise_all [] w = ok tt
  reraise_all (t ∷ ts) w = elim (reraise_if_exception t w) [
    | err e ↦ err e
    | ok _ ↦ reraise_all ts w
  ]

  abbrev pub is_over : Option ℕ → W → Bool
  is_over none w = false
  is_over (some end_time) w = not (ltb (system.time w) end_time)

  -- The body of `_JoinAll`, of a watcher whose timer the system has.
  unfoldable pub join_loop :
      ℕ → Option ℕ → List ℕ → List ℕ → W → Outcome (GroupError E) (Unit {0}) × W
  unfolding join_round reraise_all
  join_loop zero end_time threads alive w = (err unfinished, w)
  join_loop (suc fuel) end_time threads alive w =
      if is_empty alive || is_over end_time w
      then (reraise_all threads w, w)
      else continue (join_round alive alive w) (join_loop fuel end_time threads)

  abbrev pub end_time_of : Option ℕ → W → Option ℕ
  end_time_of none w = none
  end_time_of (some zero) w = none
  end_time_of (some (suc timeout)) w = some (system.time w + suc timeout)

  abbrev pub unblocked :
      {B : Type 0} → Group W → Outcome (GroupError E) B × W → Outcome (GroupError E) B × Group W
  unblocked g (r, w) = (r, record g { blocked_parent_thread_group = none; world = w })

  -- `JoinAll`; that a timeout dumps the stacks is not modelled.
  unfoldable pub join_all : ℕ → Option ℕ → InGroup (Unit {0})
  unfolding join_loop
  join_all fuel timeout g =
      unblocked g (join_loop fuel (end_time_of timeout g.world) g.threads g.threads g.world)

  abbrev pub any_alive : List ℕ → W → Bool
  any_alive [] w = false
  any_alive (t ∷ ts) w = system.is_alive t w || any_alive ts w

  -- `IsAlive`
  abbrev pub is_group_alive : Group W → Bool
  is_group_alive g = any_alive g.threads g.world

  abbrev pub cons_value :
      Outcome (GroupError E) (Option A)
      → Outcome (GroupError E) (List (Option A))
      → Outcome (GroupError E) (List (Option A))
  cons_value (err e) rest = err e
  cons_value (ok a) (err e) = err e
  cons_value (ok a) (ok values) = ok (a ∷ values)

  unfoldable pub return_values : List ℕ → W → Outcome (GroupError E) (List (Option A))
  unfolding get_return_value
  return_values [] w = ok []
  return_values (t ∷ ts) w = cons_value (get_return_value t w) (return_values ts w)

  abbrev pub join_if : Bool → ℕ → InGroup (Unit {0})
  join_if false fuel = pure tt
  join_if true fuel = join_all fuel none

  -- `GetAllReturnValues`
  unfoldable pub get_all_return_values : ℕ → InGroup (List (Option A))
  unfolding join_all return_values
  get_all_return_values fuel g =
      continue (join_if (is_group_alive g) fuel g) (λ _ g'. (return_values g'.threads g'.world, g'))

  abbrev pub new_group : W → Group W
  new_group w = record { threads = []; blocked_parent_thread_group = none; owned = []; world = w }

  -- `RunAsync`, of one new thread for each function.
  unfoldable pub run_async :
      ℕ → Option ℕ → List ℕ → W → Outcome (GroupError E) (List (Option A)) × Group W
  unfolding add_all start_all get_all_return_values
  run_async fuel current threads w =
      (do add_all threads; start_all true current; get_all_return_values fuel) (new_group w)
