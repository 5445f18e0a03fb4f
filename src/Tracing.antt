-- ===== src/Tracing.antt =====
-- systrace/systrace/tracing_controller.py: class TracingController. An agent is its name; the calls
-- of agents are logged, and what an agent answers is a function of the call and of the log before it.
pub mod Calls
pub mod Stopping
mod Samples
use udroid.Prelude.{
  ℕ, ◌+◌, Bool, true, false, not, ◌&&◌, Option, none, some, List, [], ◌∷◌, ◌++◌, map, Text,
  if◌then◌else◌, ltb, contains,
}

-- A call of a child agent, or of the controller's own agent.
pub data Call : Type 0 where
  start_agent record_clock_sync stop_agent get_results : Text → Call
  start_controller stop_controller get_controller_results : Call

-- True or a result, False or a timeout, or an exception.
pub data Answer : Type 0 where
  agrees refuses raises : Answer

pub data Failure : Type 0 where
  assertion_error type_error : Failure
  agent_error : Call → Failure

-- The type of a result of a call that may raise.
pub data Returned (A : Type 0) : Type 0 where
  returned : A → Returned A
  raised : Failure → Returned A

abbrev pub Log : Type 0
Log = List Call

-- The agents: what they answer, and which of them record clock sync markers.
pub record Agents : Type 0 where
  pub answer : Call → Log → Answer
  pub supports_explicit_clock_sync : Text → Bool

-- A result is known by the call that gave it.
pub record TracingController : Type 0 where
  pub child_agents : Option (List Text)
  pub child_agents_with_config : List Text
  pub trace_in_progress : Bool
  pub all_results : Option (List Call)
  pub log : Log

-- `__init__`
unfoldable pub new_tracing_controller : List Text → TracingController
new_tracing_controller agents = record {
  child_agents = none;
  child_agents_with_config = agents;
  trace_in_progress = false;
  all_results = none;
  log = [];
}

abbrev pub size : {A : Type 0} → List A → ℕ
size [] = 0
size (x ∷ xs) = size xs + 1

abbrev pub with_log :
    {A : Type 0} → TracingController → Returned A × Log → Returned A × TracingController
with_log s (r, l) = (r, record s { log = l })

module _ (agents : Agents) where
  abbrev pub called : Call → Log → Log
  called call l = l ++ call ∷ []

  abbrev pub kept : {A : Type 0} → A → Returned (List A) × Log → Returned (List A) × Log
  kept a (returned names, l) = (returned (a ∷ names), l)
  kept a (raised e, l) = (raised e, l)

  abbrev pub collected :
      {A : Type 0}
      → Call
      → A
      → Answer
      → (Log → Returned (List A) × Log)
      → Log
      → Returned (List A) × Log
  collected call a agrees rest l = kept a (rest l)
  collected call a refuses rest l = rest l
  collected call a raises rest l = (raised (agent_error call), l)

  -- The loops that keep, of a list, what answers its call with a true value.
  unfoldable pub ask_all : {A : Type 0} → (A → Call) → List A → Log → Returned (List A) × Log
  ask_all make [] l = (returned [], l)
  ask_all make (a ∷ names) l =
      collected (make a) a (agents.answer (make a) l) (ask_all make names) (called (make a) l)

  abbrev pub started :
      TracingController → Returned (List Text) × Log → Returned Bool × TracingController
  started s (returned succ_agents, l) =
      (returned true, record s { child_agents = some succ_agents; log = l })
  started s (raised e, l) = (raised e, record s { log = l })

  abbrev pub controller_started :
      TracingController → Answer → Log → Returned Bool × TracingController
  controller_started s agrees l = started s (ask_all start_agent s.child_agents_with_config l)
  controller_started s refuses l = (returned false, record s { log = l })
  controller_started s raises l = (raised (agent_error start_controller), record s { log = l })

  unfoldable pub start_tracing : TracingController → Returned Bool × TracingController
  unfolding ask_all
  start_tracing s =
      if s.trace_in_progress
      then (raised assertion_error, s)
      else controller_started (record s { trace_in_progress = true })
          (agents.answer start_controller s.log) (called start_controller s.log)

  abbrev pub after_marker :
      Text → Answer → (Log → Returned (Unit {0}) × Log) → Log → Returned (Unit {0}) × Log
  after_marker a raises rest l = (raised (agent_error (record_clock_sync a)), l)
  after_marker a _ rest l = rest l

  -- `_IssueClockSyncMarker`
  unfoldable pub issue_clock_sync_marker : List Text → Log → Returned (Unit {0}) × Log
  issue_clock_sync_marker [] l = (returned tt, l)
  issue_clock_sync_marker (a ∷ names) l =
      if agents.supports_explicit_clock_sync a
      then after_marker a (agents.answer (record_clock_sync a) l) (issue_clock_sync_marker names)
          (called (record_clock_sync a) l)
      else issue_clock_sync_marker names l

  abbrev pub stored :
      TracingController
      → Returned (List Call) × Log
      → Returned (Option (List Call)) × TracingController
  stored s (returned results, l) =
      (returned (some results), record s { all_results = some results; log = l })
  stored s (raised e, l) = (raised e, record s { log = l })

  abbrev pub result_calls : List Text → List Call
  result_calls names = map get_results names ++ get_controller_results ∷ []

  -- The results of `self._child_agents + [self._controller_agent]`; none is False.
  abbrev pub controller_stopped :
      TracingController
      → List Text
      → Answer
      → Log
      → Returned (Option (List Call)) × TracingController
  controller_stopped s names agrees l =
      stored (record s { child_agents = some names })
        (ask_all (λ call. call) (result_calls names) l)
  controller_stopped s names refuses l = (returned none, record s { log = l })
  controller_stopped s names raises l = (raised (agent_error stop_controller), record s { log = l })

  -- `self._child_agents = succ_agents` where fewer agents stopped.
  abbrev pub remaining : List Text → List Text → List Text
  remaining names succ_agents = if ltb (size succ_agents) (size names) then succ_agents else names

  abbrev pub stopped :
      TracingController
      → List Text
      → Returned (List Text) × Log
      → Returned (Option (List Call)) × TracingController
  stopped s names (raised e, l) = (raised e, record s { log = l })
  stopped s names (returned succ_agents, l) =
      controller_stopped s (remaining names succ_agents) (agents.answer stop_controller l)
        (called stop_controller l)

  abbrev pub marked :
      TracingController
      → List Text
      → Returned (Unit {0}) × Log
      → Returned (Option (List Call)) × TracingController
  marked s names (raised e, l) = (raised e, record s { log = l })
  marked s names (returned _, l) = stopped s names (ask_all stop_agent names l)

  -- A loop over a list of agents that is None is a TypeError.
  abbrev pub stop_children :
      TracingController → Option (List Text) → Returned (Option (List Call)) × TracingController
  stop_children s none = (raised type_error, s)
  stop_children s (some names) = marked s names (issue_clock_sync_marker names s.log)

  unfoldable pub stop_tracing :
      TracingController → Returned (Option (List Call)) × TracingController
  unfolding ask_all issue_clock_sync_marker
  stop_tracing s =
      if not s.trace_in_progress
      then (raised assertion_error, s)
      else stop_children (record s { trace_in_progress = false }) s.child_agents
