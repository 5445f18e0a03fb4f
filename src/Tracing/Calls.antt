-- ===== src/Tracing/Calls.antt =====
-- Which agents a controller starts and stops, and in which order.
use udroid.Prelude.{
  Bool, true, false, ◌&&◌, ◌||◌, text_eq_refl, Option, none, some, List, [], ◌∷◌, ◌++◌, map, Text,
  if◌then◌else◌, ◌≡◌, ◌≢◌, refl, ap, ◌∙◌, sym, arith, append_assoc, append-nil, inl, inr,
  Bool-cases, is_some, text_eq,
}
use udroid.Tracing.{
  Call, start_agent, start_controller, Answer, agrees, refuses, raises, Failure, assertion_error,
  type_error, Returned, returned, raised, Log, Agents, TracingController, kept, collected, ask_all,
  started, controller_started, start_tracing, stop_children, stop_tracing, called,
}

abbrev pub is_returned : {A : Type 0} → Returned A → Bool
is_returned (returned a) = true
is_returned (raised e) = false

abbrev pub given : Returned (List Text) → List Text
given (returned names) = names
given (raised e) = []

abbrev pub children : Option (List Text) → List Text
children none = []
children (some names) = names

abbrev pub filter : (Text → Bool) → List Text → List Text
filter test [] = []
filter test (x ∷ xs) = if test x then x ∷ filter test xs else filter test xs

-- The list is what is left of another when some elements are taken out.
abbrev pub is_sublist : List Text → List Text → Bool
is_sublist [] ys = true
is_sublist (x ∷ xs) [] = false
is_sublist (x ∷ xs) (y ∷ ys) = text_eq x y && is_sublist xs ys || is_sublist (x ∷ xs) ys

pub is_sublist_refl : (xs : List Text) → is_sublist xs xs ≡ true
is_sublist_refl [] = refl
is_sublist_refl (x ∷ xs) = ground (arith, text_eq_refl x, is_sublist_refl xs)

is_sublist-cons :
    (ys xs : List Text) (x : Text) → is_sublist ys xs ≡ true → is_sublist ys (x ∷ xs) ≡ true
is_sublist-cons [] xs x h = refl
is_sublist-cons (y ∷ ys) xs x h = ground arith

module _ (agents : Agents) where
  -- A loop that ends without an exception has made every call of its list, in order.
  pub ask_all_log :
      {A : Type 0} (make : A → Call) (xs : List A) (l : Log)
      → is_returned (ask_all agents make xs l).0 ≡ true
      → (ask_all agents make xs l).1 ≡ l ++ map make xs
  unfolding ask_all
  ask_all_log make [] l h = sym (append-nil l)
  ask_all_log make (x ∷ xs) l h =
      go (agents.answer (make x) l) h (ask_all_log make xs (l ++ make x ∷ []))
      ∙ append_assoc l (make x ∷ []) (map make xs)
    where
      kept_log :
          (m : Returned (List _) × Log)
          → is_returned (kept agents x m).0 ≡ true
          → (is_returned m.0 ≡ true → m.1 ≡ (l ++ make x ∷ []) ++ map make xs)
          → (kept agents x m).1 ≡ (l ++ make x ∷ []) ++ map make xs
      kept_log (returned ys, l') h' ih = ih refl
      kept_log (raised e, l') h' ih = cc

      go :
          (a : Answer)
          → is_returned
              (collected agents (make x) x a (ask_all agents make xs) (l ++ make x ∷ [])).0
            ≡ true
          → (is_returned (ask_all agents make xs (l ++ make x ∷ [])).0 ≡ true
              → (ask_all agents make xs (l ++ make x ∷ [])).1 ≡ (l ++ make x ∷ []) ++ map make xs)
          → (collected agents (make x) x a (ask_all agents make xs) (l ++ make x ∷ [])).1
            ≡ (l ++ make x ∷ []) ++ map make xs
      go agrees h' ih = kept_log (ask_all agents make xs (l ++ make x ∷ [])) h' ih
      go refuses h' ih = ih h'
      go raises h' ih = cc

  pub ask_all_sublist :
      (make : Text → Call) (xs : List Text) (l : Log)
      → is_sublist (given (ask_all agents make xs l).0) xs ≡ true
  unfolding ask_all
  ask_all_sublist make [] l = refl
  ask_all_sublist make (x ∷ xs) l =
      go (agents.answer (make x) l) (ask_all_sublist make xs (l ++ make x ∷ []))
    where
      kept_sublist :
          (m : Returned (List Text) × Log)
          → is_sublist (given m.0) xs ≡ true
          → is_sublist (given (kept agents x m).0) (x ∷ xs) ≡ true
      kept_sublist (returned ys, l') h = ground (arith, text_eq_refl x)
      kept_sublist (raised e, l') h = refl

      go :
          (a : Answer)
          → is_sublist (given (ask_all agents make xs (l ++ make x ∷ [])).0) xs ≡ true
          → is_sublist
              (given (collected agents (make x) x a (ask_all agents make xs) (l ++ make x ∷ [])).0)
              (x ∷ xs)
            ≡ true
      go agrees h = kept_sublist (ask_all agents make xs (l ++ make x ∷ [])) h
      go refuses h = is_sublist-cons (given (ask_all agents make xs (l ++ make x ∷ [])).0) xs x h
      go raises h = refl

  abbrev Started : TracingController → TracingController → Type 0
  Started s t =
      (t.log ≡ s.log ++ start_controller ∷ map start_agent s.child_agents_with_config)
      × (t.trace_in_progress ≡ true)
      × (is_some t.child_agents ≡ true)
      × (is_sublist (children t.child_agents) s.child_agents_with_config ≡ true)

  start_busy :
      (s : TracingController)
      → s.trace_in_progress ≡ true
      → start_tracing agents s ≡ (raised assertion_error, s)
  unfolding start_tracing
  start_busy s h = ground arith

  start_idle :
      (s : TracingController)
      → s.trace_in_progress ≡ false
      → start_tracing agents s
        ≡ controller_started agents
            (record s { trace_in_progress = true })
            (agents.answer start_controller s.log)
            (called agents start_controller s.log)
  unfolding start_tracing
  start_idle s h = ground arith

  started_facts :
      (s t : TracingController) (m : Returned (List Text) × Log)
      → t.trace_in_progress ≡ true
      → (is_returned m.0 ≡ true
          → m.1 ≡ s.log ++ start_controller ∷ map start_agent s.child_agents_with_config)
      → is_sublist (given m.0) s.child_agents_with_config ≡ true
      → (started agents t m).0 ≡ returned true
      → Started s (started agents t m).1
  started_facts s t (returned succ_agents, l) busy logged sub h = (logged refl, busy, refl, sub)
  started_facts s t (raised e, l) busy logged sub h = cc

  -- A StartTracing that returns True has called the controller's agent and then every child agent,
  -- once and in order; a trace is in progress, and the child agents are some of those given.
  pub start_tracing_calls :
      (s : TracingController)
      → (start_tracing agents s).0 ≡ returned true
      → ((start_tracing agents s).1.log
          ≡ s.log ++ start_controller ∷ map start_agent s.child_agents_with_config)
        × ((start_tracing agents s).1.trace_in_progress ≡ true)
        × (is_some (start_tracing agents s).1.child_agents ≡ true)
        × (is_sublist (children (start_tracing agents s).1.child_agents) s.child_agents_with_config
            ≡ true)
  start_tracing_calls s h = elim (Bool-cases s.trace_in_progress) [
    | inl busy ↦ absurd (
        is_not_raised
          (ap (λ (m : Returned Bool × TracingController). m.0) (sym (start_busy s busy)) ∙ h))
    | inr idle ↦ rw (start_idle s idle) (
        go (agents.answer start_controller s.log)
          (ap (λ (m : Returned Bool × TracingController). m.0) (sym (start_idle s idle)) ∙ h))
  ]
    where
      busy_state : TracingController
      busy_state = record s { trace_in_progress = true }

      is_not_raised : {e : Failure} → raised e ≢ returned true
      is_not_raised h' = cc

      go :
          (a : Answer)
          → (controller_started agents busy_state a (called agents start_controller s.log)).0
            ≡ returned true
          → Started s
              (controller_started agents busy_state a (called agents start_controller s.log)).1
      go agrees h' =
          started_facts s busy_state
            (ask_all agents start_agent s.child_agents_with_config
              (called agents start_controller s.log))
            refl
            (λ r.
              ask_all_log start_agent s.child_agents_with_config
                (called agents start_controller s.log) r
              ∙ append_assoc s.log (start_controller ∷ [])
                  (map start_agent s.child_agents_with_config))
            (ask_all_sublist start_agent s.child_agents_with_config
              (called agents start_controller s.log))
            h'
      go refuses h' = cc
      go raises h' = cc

  refused_facts :
      (s : TracingController)
      → (start_tracing agents s).0 ≡ returned false
      → s.child_agents ≡ none
      → ((start_tracing agents s).1.trace_in_progress ≡ true)
        × ((start_tracing agents s).1.child_agents ≡ none)
  refused_facts s h empty = elim (Bool-cases s.trace_in_progress) [
    | inl busy ↦ absurd (
        is_not_raised
          (ap (λ (m : Returned Bool × TracingController). m.0) (sym (start_busy s busy)) ∙ h))
    | inr idle ↦ rw (start_idle s idle) (
        go (agents.answer start_controller s.log)
          (ap (λ (m : Returned Bool × TracingController). m.0) (sym (start_idle s idle)) ∙ h))
  ]
    where
      busy_state : TracingController
      busy_state = record s { trace_in_progress = true }

      is_not_raised : {e : Failure} → raised e ≢ returned false
      is_not_raised h' = cc

      not_started :
          (m : Returned (List Text) × Log) → (started agents busy_state m).0 ≢ returned false
      not_started (returned succ_agents, l) h' = cc
      not_started (raised e, l) h' = cc

      go :
          (a : Answer)
          → (controller_started agents busy_state a (called agents start_controller s.log)).0
            ≡ returned false
          → ((controller_started agents busy_state a
                (called agents start_controller s.log)).1.trace_in_progress
              ≡ true)
            × ((controller_started agents busy_state a
                  (called agents start_controller s.log)).1.child_agents
                ≡ none)
      go agrees h' = absurd (
          not_started
            (ask_all agents start_agent s.child_agents_with_config
              (called agents start_controller s.log))
            h')
      go refuses h' = (refl, empty)
      go raises h' = cc

  pub stop_busy :
      (s : TracingController)
      → s.trace_in_progress ≡ true
      → stop_tracing agents s
        ≡ stop_children agents (record s { trace_in_progress = false }) s.child_agents
  unfolding stop_tracing
  stop_busy s h = ground arith

  -- Where no child agents are set, a StartTracing that returns False leaves a trace in progress
  -- with no child agents set: another StartTracing then raises an AssertionError, and StopTracing
  -- raises a TypeError.
  pub start_tracing_stuck :
      (s : TracingController)
      → (start_tracing agents s).0 ≡ returned false
      → s.child_agents ≡ none
      → ((start_tracing agents s).1.trace_in_progress ≡ true)
        × ((start_tracing agents s).1.child_agents ≡ none)
        × ((start_tracing agents (start_tracing agents s).1).0 ≡ raised assertion_error)
        × ((stop_tracing agents (start_tracing agents s).1).0 ≡ raised type_error)
  start_tracing_stuck s h empty =
      let (busy, none_set) = refused_facts s h empty in
      (
        busy,
        none_set,
        ap (λ (m : Returned Bool × TracingController). m.0)
            (start_busy (start_tracing agents s).1 busy),
        ap (λ (m : Returned (Option (List Call)) × TracingController). m.0)
              (stop_busy (start_tracing agents s).1 busy)
            ∙ ap
                (λ (o : Option (List Text)).
                  (stop_children agents
                    (record ((start_tracing agents s).1) { trace_in_progress = false }) o).0)
                none_set,
      )
