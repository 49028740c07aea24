-- ===== src/Correlation/Snapshot.antt =====
-- What survives a restart: the open parents of a session and its process.
pub mod Restored
use braintrust_coding_agent.Prelude.{
  ℕ, String, Bool, true, false, not, ◌&&◌, ◌||◌, List, [], ◌∷◌, map, Option, none, some,
  if◌then◌else◌, is_some, is_empty, unwrap_or, eqb, length,
}
use braintrust_coding_agent.Collections.{string_key}
use braintrust_coding_agent.Collections.Map
use braintrust_coding_agent.Wire.{ProcessIdentity, SpanComponents, SessionRoute}
use braintrust_coding_agent.Correlation.State.{ActiveTool, State, add_process_mapping, processes_of}
use braintrust_coding_agent.Correlation.Agents.{valid_process}
use braintrust_coding_agent.Correlation.Resolve.{active_tools_of, only_active}

pub record ActiveToolSnapshot (V O T : Type 0) : Type 0 where
  pub components : SpanComponents O T
  pub route : SessionRoute V O T

pub record ActiveParentSnapshot (V O T : Type 0) : Type 0 where
  pub version : ℕ
  pub dirty : Bool
  pub correlation_key : String
  pub processes : List ProcessIdentity
  pub session_span : Option (ActiveToolSnapshot V O T)
  pub tools : List (ActiveToolSnapshot V O T)

module _ {V O T : Type 0} where
  abbrev to_snapshot : ActiveTool V O T → ActiveToolSnapshot V O T
  to_snapshot t = record { components = t.components; route = t.route }

  abbrev pub from_snapshot : ActiveToolSnapshot V O T → ActiveTool V O T
  from_snapshot t = record { components = t.components; route = t.route; active = true }

  abbrev option_snapshot : Option (ActiveTool V O T) → Option (ActiveToolSnapshot V O T)
  option_snapshot none = none
  option_snapshot (some t) = some (to_snapshot t)

  unfoldable pub active_parent_snapshot : String → State V O T → Option (ActiveParentSnapshot V O T)
  active_parent_snapshot key s =
      let tools = active_tools_of key s in
      let span = option_snapshot (only_active (Map.get key s.session_spans)) in
      if is_empty tools && not (is_some span)
      then none
      else some (record {
        version = 4;
        dirty = false;
        correlation_key = key;
        processes = processes_of key s.session_processes;
        session_span = span;
        tools = map to_snapshot tools;
      })

  abbrev mark_dirty : Option (ActiveParentSnapshot V O T) → Option (ActiveParentSnapshot V O T)
  mark_dirty none = none
  mark_dirty (some snapshot) = some (record snapshot { dirty = true })

  unfoldable pub dirty_active_parent_snapshot :
      String → State V O T → Option (ActiveParentSnapshot V O T)
  dirty_active_parent_snapshot key s = mark_dirty (active_parent_snapshot key s)

  -- `.filter(|tool| tool.components.span_id.is_some())`
  pub named_tools : List (ActiveToolSnapshot V O T) → List (ActiveToolSnapshot V O T)
  named_tools [] = []
  named_tools (t ∷ ts) =
      let rest = named_tools ts in if is_some t.components.span_id then t ∷ rest else rest

  -- the loop over the processes of the snapshot
  add_processes : String → List ProcessIdentity → State V O T → State V O T
  add_processes key [] s = s
  add_processes key (p ∷ ps) s =
      add_processes key ps (if valid_process p then add_process_mapping key p s else s)

  add_tool :
      ActiveToolSnapshot V O T
      → Option String
      → List (String × ActiveTool V O T)
      → List (String × ActiveTool V O T)
  add_tool t none m = m
  add_tool t (some span_id) m = Map.insert span_id (from_snapshot t) m

  add_tools :
      List (ActiveToolSnapshot V O T)
      → List (String × ActiveTool V O T)
      → List (String × ActiveTool V O T)
  add_tools [] m = m
  add_tools (t ∷ ts) m = add_tools ts (add_tool t t.components.span_id m)

  add_session_span :
      String
      → Option (ActiveToolSnapshot V O T)
      → List (String × ActiveTool V O T)
      → List (String × ActiveTool V O T)
  add_session_span key none m = m
  add_session_span key (some t) m = Map.insert key (from_snapshot t) m

  abbrev pub is_refused : ActiveParentSnapshot V O T → Bool
  is_refused x =
      not (eqb x.version 4)
      || (x.dirty
          || (not (eqb (length x.processes) 1)
              || (is_empty (named_tools x.tools) && not (is_some x.session_span))))

  -- the spans of the snapshot, once its process is known
  restore_spans : ActiveParentSnapshot V O T → State V O T → State V O T × Bool
  restore_spans x s =
      let key = x.correlation_key in
      let tools = add_tools (named_tools x.tools) (unwrap_or (Map.get key s.active_tools) []) in
      let spans = add_session_span key x.session_span s.session_spans in
      (
        record s { active_tools = Map.insert key tools s.active_tools; session_spans = spans },
        Map.contains_key key spans || not (is_empty tools),
      )

  unfoldable pub restore_active_parent :
      ActiveParentSnapshot V O T → State V O T → State V O T × Bool
  unfolding named_tools add_processes add_tool add_tools add_session_span restore_spans
  restore_active_parent x s =
      let known = add_processes x.correlation_key x.processes s in
      if is_refused x
      then (s, false)
      else if not (Map.contains_key x.correlation_key known.session_processes)
      then (known, false)
      else restore_spans x known
