-- ===== src/Tracing/Samples.antt =====
-- The theorems about the controller with two agents, of which one records clock sync markers and
-- the other refuses to stop.
use udroid.Prelude.{
  true, false, none, some, [], ◌∷◌, Text, codes, text_eq, is_some, ◌≡◌, refl, if◌then◌else◌,
}
use udroid.Tracing.{
  Call, start_agent, record_clock_sync, stop_agent, get_results, start_controller, stop_controller,
  get_controller_results, Answer, agrees, refuses, raised, assertion_error, type_error, Log, Agents,
  TracingController, new_tracing_controller, start_tracing, stop_tracing,
}
use udroid.Tracing.Calls.{children, is_sublist, start_tracing_calls, start_tracing_stuck}
use udroid.Tracing.Stopping.{stop_tracing_calls}

abbrev atrace : Text
atrace = codes "atrace"

abbrev battor : Text
battor = codes "battor"

abbrev answer : Call → Log → Answer
answer (stop_agent a) l = if text_eq a battor then refuses else agrees
answer _ l = agrees

abbrev agents : Agents
agents = record { answer = answer; supports_explicit_clock_sync = λ a. text_eq a atrace }

-- Agents whose controller cannot be started.
abbrev unwilling : Agents
unwilling = record { answer = λ call l. refuses; supports_explicit_clock_sync = λ a. false }

abbrev fresh : TracingController
fresh = new_tracing_controller (atrace ∷ battor ∷ [])

abbrev tracing : TracingController
tracing = record {
  child_agents = some (atrace ∷ battor ∷ []);
  child_agents_with_config = atrace ∷ battor ∷ [];
  trace_in_progress = true;
  all_results = none;
  log = [];
}

start_tracing_calls_example :
    ((start_tracing agents fresh).1.log
      ≡ start_controller ∷ start_agent atrace ∷ start_agent battor ∷ [])
    × ((start_tracing agents fresh).1.trace_in_progress ≡ true)
    × (is_some (start_tracing agents fresh).1.child_agents ≡ true)
    × (is_sublist (children (start_tracing agents fresh).1.child_agents) (atrace ∷ battor ∷ [])
        ≡ true)
unfolding start_tracing new_tracing_controller
start_tracing_calls_example = start_tracing_calls agents fresh refl

start_tracing_stuck_example :
    ((start_tracing unwilling fresh).1.trace_in_progress ≡ true)
    × ((start_tracing unwilling fresh).1.child_agents ≡ none)
    × ((start_tracing unwilling (start_tracing unwilling fresh).1).0 ≡ raised assertion_error)
    × ((stop_tracing unwilling (start_tracing unwilling fresh).1).0 ≡ raised type_error)
unfolding start_tracing new_tracing_controller
start_tracing_stuck_example = start_tracing_stuck unwilling fresh refl refl

stop_tracing_calls_example :
    ((stop_tracing agents tracing).1.log
      ≡ record_clock_sync atrace
        ∷ stop_agent atrace
        ∷ stop_agent battor
        ∷ stop_controller
        ∷ get_results atrace
        ∷ get_controller_results
        ∷ [])
    × ((stop_tracing agents tracing).1.trace_in_progress ≡ false)
    × ((stop_tracing agents tracing).1.all_results
        ≡ some (get_results atrace ∷ get_controller_results ∷ []))
    × (is_sublist (children (stop_tracing agents tracing).1.child_agents) (atrace ∷ battor ∷ [])
        ≡ true)
unfolding stop_tracing
stop_tracing_calls_example =
    stop_tracing_calls agents tracing (atrace ∷ battor ∷ [])
      (get_results atrace ∷ get_controller_results ∷ []) refl refl
