-- ===== src/Tracing/Stopping.antt =====
-- In which order a StopTracing that returns results calls the agents.
use udroid.Prelude.{
  true, false, Option, some, List, [], ◌∷◌, ◌++◌, map, Text, ◌≡◌, ◌≢◌, refl, ap, ◌∙◌, sym, arith,
  append_assoc, append-nil, inl, inr, Bool-cases,
}
use udroid.Tracing.{
  Call, record_clock_sync, stop_agent, stop_controller, Answer, agrees, refuses, raises, Failure,
  assertion_error, Returned, returned, raised, Log, Agents, TracingController, ask_all,
  after_marker, issue_clock_sync_marker, stored, controller_stopped, remaining, stopped, marked,
  stop_children, stop_tracing, result_calls, called,
}
use udroid.Tracing.Calls.{
  is_returned, given, children, filter, is_sublist, is_sublist_refl, ask_all_log, ask_all_sublist,
  stop_busy,
}

map_same : {A : Type 0} (xs : List A) → map (λ x. x) xs ≡ xs
map_same [] = refl
map_same (x ∷ xs) = ap (λ l. x ∷ l) (map_same xs)

remaining_sublist :
    (agents : Agents) (names succ_agents : List Text)
    → is_sublist succ_agents names ≡ true
    → is_sublist (remaining agents names succ_agents) names ≡ true
remaining_sublist agents names succ_agents h = ground (arith, is_sublist_refl names)

module _ (agents : Agents) where
  issue_log :
      (names : List Text) (l : Log)
      → is_returned (issue_clock_sync_marker agents names l).0 ≡ true
      → (issue_clock_sync_marker agents names l).1
        ≡ l ++ map record_clock_sync (filter agents.supports_explicit_clock_sync names)
  unfolding issue_clock_sync_marker
  issue_log [] l h = sym (append-nil l)
  issue_log (a ∷ names) l h = elim (Bool-cases (agents.supports_explicit_clock_sync a)) [
    | inr e ↦ rw e (issue_log names l (rw e at h))
    | inl e ↦ rw e (
        go (agents.answer (record_clock_sync a) l)
          (issue_log names (called agents (record_clock_sync a) l)) (rw e at h))
  ]
    where
      go :
          (ans : Answer)
          → (is_returned
                  (issue_clock_sync_marker agents names (called agents (record_clock_sync a) l)).0
                ≡ true
              → (issue_clock_sync_marker agents names (called agents (record_clock_sync a) l)).1
                ≡ l
                  ++ record_clock_sync a ∷ []
                  ++ map record_clock_sync (filter agents.supports_explicit_clock_sync names))
          → is_returned
              (after_marker agents a ans
                (issue_clock_sync_marker agents names)
                (called agents (record_clock_sync a) l)).0
            ≡ true
          → (after_marker agents a ans
              (issue_clock_sync_marker agents names)
              (called agents (record_clock_sync a) l)).1
            ≡ l
              ++ record_clock_sync a
                ∷ map record_clock_sync (filter agents.supports_explicit_clock_sync names)
      go agrees ih h' = ih h' ∙ append_assoc l (record_clock_sync a ∷ []) _
      go refuses ih h' = ih h' ∙ append_assoc l (record_clock_sync a ∷ []) _
      go raises ih h' = cc

  -- What a StopTracing has done at its end, from a controller with the agents `names`.
  abbrev Stopped : Log → List Text → List Call → TracingController → Type 0
  Stopped before names results t =
      (t.log
        ≡ before
          ++ map stop_agent names
          ++ stop_controller ∷ result_calls agents (children t.child_agents))
      × (t.trace_in_progress ≡ false)
      × (t.all_results ≡ some results)
      × (is_sublist (children t.child_agents) names ≡ true)

  stored_facts :
      (t : TracingController) (m : Returned (List Call) × Log) (want : Log) (results : List Call)
      → (is_returned m.0 ≡ true → m.1 ≡ want)
      → (stored agents t m).0 ≡ returned (some results)
      → ((stored agents t m).1.log ≡ want)
        × ((stored agents t m).1.trace_in_progress ≡ t.trace_in_progress)
        × ((stored agents t m).1.all_results ≡ some results)
        × ((stored agents t m).1.child_agents ≡ t.child_agents)
  stored_facts t (returned rs, l) want results w h = (w refl, refl, ground arith, refl)
  stored_facts t (raised e, l) want results w h = cc

  controller_stopped_facts :
      (t : TracingController) (names left : List Text) (a : Answer) (before : Log)
      (results : List Call)
      → t.trace_in_progress ≡ false
      → is_sublist left names ≡ true
      → (controller_stopped agents t left a
          (called agents stop_controller (before ++ map stop_agent names))).0
        ≡ returned (some results)
      → Stopped before names results
          (controller_stopped agents t left a
            (called agents stop_controller (before ++ map stop_agent names))).1
  controller_stopped_facts t names left agrees before results idle sub h =
      let l : Log = called agents stop_controller (before ++ map stop_agent names) in
      let calls : List Call = result_calls agents left in
      let (logged, still, res, kids) =
        stored_facts (record t { child_agents = some left }) (ask_all agents (λ call. call) calls l)
          (before ++ map stop_agent names ++ stop_controller ∷ calls) results
          (λ r.
            ask_all_log agents (λ call. call) calls l r
            ∙ ap (λ c. l ++ c) (map_same calls)
            ∙ append_assoc (before ++ map stop_agent names) (stop_controller ∷ []) calls)
          h in
      (
        logged
            ∙ ap
                (λ (o : Option (List Text)).
                  before
                  ++ map stop_agent names
                  ++ stop_controller ∷ result_calls agents (children o))
                (sym kids),
        still ∙ idle,
        res,
        ap (λ (o : Option (List Text)). is_sublist (children o) names) kids ∙ sub,
      )
  controller_stopped_facts t names left refuses before results idle sub h = ground arith
  controller_stopped_facts t names left raises before results idle sub h = cc

  stopped_facts :
      (t : TracingController) (names : List Text) (m : Returned (List Text) × Log) (before : Log)
      (results : List Call)
      → t.trace_in_progress ≡ false
      → (is_returned m.0 ≡ true → m.1 ≡ before ++ map stop_agent names)
      → is_sublist (given m.0) names ≡ true
      → (stopped agents t names m).0 ≡ returned (some results)
      → Stopped before names results (stopped agents t names m).1
  stopped_facts t names (returned succ_agents, l) before results idle logged sub h =
      rw (logged refl) (
        controller_stopped_facts t names (remaining agents names succ_agents)
          (agents.answer stop_controller (before ++ map stop_agent names)) before results idle
          (remaining_sublist agents names succ_agents sub) (rw (logged refl) at h))
  stopped_facts t names (raised e, l) before results idle logged sub h = cc

  marked_facts :
      (t : TracingController) (names : List Text) (m : Returned (Unit {0}) × Log) (before : Log)
      (results : List Call)
      → t.trace_in_progress ≡ false
      → (is_returned m.0 ≡ true → m.1 ≡ before)
      → (marked agents t names m).0 ≡ returned (some results)
      → Stopped before names results (marked agents t names m).1
  marked_facts t names (returned _, l) before results idle logged h =
      stopped_facts t names (ask_all agents stop_agent names l) before results idle
        (λ r.
          ask_all_log agents stop_agent names l r
          ∙ ap (λ (x : Log). x ++ map stop_agent names) (logged refl))
        (ask_all_sublist agents stop_agent names l) h
  marked_facts t names (raised e, l) before results idle logged h = cc

  stop_idle :
      (s : TracingController)
      → s.trace_in_progress ≡ false
      → stop_tracing agents s ≡ (raised assertion_error, s)
  unfolding stop_tracing
  stop_idle s h = ground arith

  -- A StopTracing that returns results has, after the clock sync markers of the agents that record
  -- them, stopped every child agent once and in order, then the controller's agent, and then asked for
  -- the results of the child agents that it leaves, which are some of those from before, and of
  -- the controller's. No trace is in progress.
  pub stop_tracing_calls :
      (s : TracingController) (names : List Text) (results : List Call)
      → s.child_agents ≡ some names
      → (stop_tracing agents s).0 ≡ returned (some results)
      → ((stop_tracing agents s).1.log
          ≡ s.log
            ++ map record_clock_sync (filter agents.supports_explicit_clock_sync names)
            ++ map stop_agent names
            ++ stop_controller
              ∷ result_calls agents (children (stop_tracing agents s).1.child_agents))
        × ((stop_tracing agents s).1.trace_in_progress ≡ false)
        × ((stop_tracing agents s).1.all_results ≡ some results)
        × (is_sublist (children (stop_tracing agents s).1.child_agents) names ≡ true)
  stop_tracing_calls s names results e h = elim (Bool-cases s.trace_in_progress) [
    | inr idle ↦ absurd (
        is_not_raised (
          ap (λ (m : Returned (Option (List Call)) × TracingController). m.0)
            (sym (stop_idle s idle))
          ∙ h))
    | inl busy ↦ rw (stopping busy) (
        marked_facts idle_state names (issue_clock_sync_marker agents names s.log)
          (s.log ++ map record_clock_sync (filter agents.supports_explicit_clock_sync names))
          results refl (issue_log names s.log)
          (ap (λ (m : Returned (Option (List Call)) × TracingController). m.0) (sym (stopping busy))
            ∙ h))
  ]
    where
      idle_state : TracingController
      idle_state = record s { trace_in_progress = false }

      is_not_raised : {x : Failure} → raised x ≢ returned (some results)
      is_not_raised h' = cc

      stopping :
          s.trace_in_progress ≡ true
          → stop_tracing agents s
            ≡ marked agents idle_state names (issue_clock_sync_marker agents names s.log)
      stopping busy = stop_busy agents s busy ∙ ap (stop_children agents idle_state) e
