-- ===== src/Correlation/State.antt =====
-- The registry's state and the operations on its process index.
use braintrust_coding_agent.Prelude.{
  String, Bool, List, [], ◌∷◌, none, some, if◌then◌else◌, is_empty, unwrap_or,
}
use braintrust_coding_agent.Collections.{string_key}
use braintrust_coding_agent.Collections.Set
use braintrust_coding_agent.Collections.Map
use braintrust_coding_agent.Wire.{
  ProcessIdentity, process_key, CaptureContext, SpanComponents, SessionRoute,
}

-- A span that may become a parent, with the route of its session.
pub record ActiveTool (V O T : Type 0) : Type 0 where
  pub components : SpanComponents O T
  pub route : SessionRoute V O T
  pub active : Bool

pub record State (V O T : Type 0) : Type 0 where
  pub process_sessions : List (ProcessIdentity × List String)
  pub session_processes : List (String × List ProcessIdentity)
  pub unconfirmed_processes : List (String × CaptureContext)
  pub open_generations : List String
  pub retired : List String
  pub active_tools : List (String × List (String × ActiveTool V O T))
  pub session_spans : List (String × ActiveTool V O T)
  pub live_sessions : List String

abbrev pub initial : {V O T : Type 0} → State V O T
initial = record {
  process_sessions = [];
  session_processes = [];
  unconfirmed_processes = [];
  open_generations = [];
  retired = [];
  active_tools = [];
  session_spans = [];
  live_sessions = [];
}

-- the sets that the two directions of the process index hold, empty where there is none
abbrev pub sessions_of : ProcessIdentity → List (ProcessIdentity × List String) → List String
sessions_of p m = unwrap_or (Map.get p m) []

abbrev pub processes_of : String → List (String × List ProcessIdentity) → List ProcessIdentity
processes_of k m = unwrap_or (Map.get k m) []

-- one round of the loop of `remove_process_mapping`; an empty set is removed
unfoldable pub forget_session :
    String
    → ProcessIdentity
    → List (ProcessIdentity × List String)
    → List (ProcessIdentity × List String)
forget_session key process m = elim (Map.get process m) [
  | none ↦ m
  | some sessions ↦
      if is_empty (Set.remove key sessions)
      then Map.remove process m
      else Map.insert process (Set.remove key sessions) m
]

unfoldable pub forget_sessions :
    String
    → List ProcessIdentity
    → List (ProcessIdentity × List String)
    → List (ProcessIdentity × List String)
unfolding forget_session
forget_sessions key [] m = m
forget_sessions key (p ∷ ps) m = forget_sessions key ps (forget_session key p m)

module _ {V O T : Type 0} where
  unfoldable pub remove_process_mapping : String → State V O T → State V O T
  remove_process_mapping key s = elim (Map.get key s.session_processes) [
    | none ↦ s
    | some processes ↦ record s {
      session_processes = Map.remove key s.session_processes;
      process_sessions = forget_sessions key processes s.process_sessions;
    }
  ]

  -- `entry(..).or_default().insert(..)` in both directions
  unfoldable pub add_process_mapping : String → ProcessIdentity → State V O T → State V O T
  add_process_mapping key p s = record s {
    session_processes =
        Map.insert key (Set.insert p (processes_of key s.session_processes)) s.session_processes;
    process_sessions =
        Map.insert p (Set.insert key (sessions_of p s.process_sessions)) s.process_sessions;
  }

  unfoldable pub forget_spans : String → State V O T → State V O T
  forget_spans key s = record s {
    live_sessions = Set.remove key s.live_sessions;
    unconfirmed_processes = Map.remove key s.unconfirmed_processes;
    open_generations = Set.remove key s.open_generations;
    active_tools = Map.remove key s.active_tools;
    session_spans = Map.remove key s.session_spans;
  }
