-- ===== src/Correlation/Sessions.antt =====
-- How sessions come, learn their agent process, go idle and go away. Each method holds the lock, so
-- it is one step; `prune_retired` holds it twice and looks at the processes in between.
use braintrust_coding_agent.Prelude.{
  String, Bool, false, not, ◌&&◌, ◌||◌, List, [], ◌∷◌, Option, none, some, if◌then◌else◌,
}
use braintrust_coding_agent.Collections.{string_key}
use braintrust_coding_agent.Collections.Set
use braintrust_coding_agent.Collections.Map
use braintrust_coding_agent.Wire.{ProcessIdentity, process_key, CaptureContext}
use braintrust_coding_agent.Correlation.State.{
  State, remove_process_mapping, add_process_mapping, forget_spans, processes_of,
}
use braintrust_coding_agent.Correlation.Agents.{uses_command_hook, session_agent_process}

unfoldable pub any_alive : (ProcessIdentity → Bool) → List ProcessIdentity → Bool
any_alive alive [] = false
any_alive alive (p ∷ ps) = alive p || any_alive alive ps

module _ {V O T : Type 0} where
  -- the end of `observe_session`: the agent is known
  unfoldable pub confirm : String → ProcessIdentity → State V O T → State V O T
  confirm key agent s = add_process_mapping key agent (
      remove_process_mapping key (record s {
        unconfirmed_processes = Map.remove key s.unconfirmed_processes;
        open_generations = Set.remove key s.open_generations;
      }))

  unfoldable pub remember_capture : String → CaptureContext → State V O T → State V O T
  remember_capture key capture s = record s {
    unconfirmed_processes = Map.insert key capture s.unconfirmed_processes;
  }

  unfoldable pub settle :
      String → String → CaptureContext → Option ProcessIdentity → State V O T → State V O T
  settle key source capture (some agent) s = confirm key agent s
  settle key source capture none s =
      if uses_command_hook source then remember_capture key capture s else s

  -- from `let Some(capture) = capture` on
  unfoldable pub learn : String → String → Option CaptureContext → State V O T → State V O T
  learn key source none s = s
  learn key source (some capture) s =
      if uses_command_hook source
      then elim (Map.get key s.unconfirmed_processes) [
        | none ↦ remember_capture key capture s
        | some previous ↦
            settle key source capture (session_agent_process source previous (some capture)) s
      ]
      else settle key source capture (session_agent_process source capture none) s

  unfoldable pub open_generation : String → State V O T → State V O T
  open_generation key s = record s {
    unconfirmed_processes = Map.remove key s.unconfirmed_processes;
    open_generations = Set.insert key s.open_generations;
  }

  unfoldable pub mark_live : String → State V O T → State V O T
  mark_live key s = record s {
    live_sessions = Set.insert key s.live_sessions;
    retired = Set.remove key s.retired;
  }

  -- an ordinary hook of a session whose agent is known
  abbrev pub is_settled : String → State V O T → Bool
  is_settled key s =
      Map.contains_key key s.session_processes && not (Set.contains key s.open_generations)

  unfoldable pub observe_session :
      String → String → Option CaptureContext → Bool → State V O T → State V O T
  unfolding confirm remember_capture settle learn open_generation mark_live
  observe_session key source capture session_start s =
      let live = mark_live key s in
      if session_start
      then learn key source capture (open_generation key live)
      else if is_settled key live
      then live
      else learn key source capture live

  unfoldable pub retire_session : String → State V O T → State V O T
  retire_session key s =
      let spanless = forget_spans key s in
      if Map.contains_key key spanless.session_processes
      then record spanless { retired = Set.insert key spanless.retired }
      else spanless

  module _ (alive : ProcessIdentity → Bool) where
    -- the retired sessions none of whose processes is alive, in a snapshot of the registry
    unfoldable pub exited : List String → State V O T → List String
    exited [] s = []
    exited (key ∷ keys) s =
        let rest = exited keys s in
        if any_alive alive (processes_of key s.session_processes) then rest else key ∷ rest

  -- the second half of `prune_retired`: a session that was revived meanwhile is left alone
  unfoldable pub forget_exited : List String → State V O T → State V O T
  forget_exited [] s = s
  forget_exited (key ∷ keys) s = forget_exited keys (
      if Set.contains key s.retired
      then remove_process_mapping key (record s { retired = Set.remove key s.retired })
      else s)

  -- `seen` is the registry when the method reads it, `s` when it writes
  unfoldable pub prune_retired : (ProcessIdentity → Bool) → State V O T → State V O T → State V O T
  prune_retired alive seen s = forget_exited (exited alive seen.retired seen) s
