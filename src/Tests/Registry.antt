-- ===== src/Tests/Registry.antt =====
-- The registry of sessions.
use braintrust_coding_agent.Prelude.{
  ℕ, String, ◌≡◌, refl, true, false, List, [], ◌∷◌, map, Option, none, some, ◌⊎◌, inr, pos,
}
use braintrust_coding_agent.Collections.{string_key, string_dec}
use braintrust_coding_agent.Collections.Set
use braintrust_coding_agent.Collections.Map
use braintrust_coding_agent.Span.{SpanType, SpanOp, insert, merge}
use braintrust_coding_agent.Wire
use braintrust_coding_agent.Wire.{
  ProcessIdentity, process_key, CaptureContext, SessionRoute, SessionConfig, SpanComponents,
}
use braintrust_coding_agent.Correlation.State
use braintrust_coding_agent.Correlation.State.{ActiveTool, initial}
use braintrust_coding_agent.Correlation.Index.{IsIndexed}
use braintrust_coding_agent.Correlation.Agents
use braintrust_coding_agent.Correlation.Sessions
use braintrust_coding_agent.Correlation.Assignment
use braintrust_coding_agent.Correlation.Spans
use braintrust_coding_agent.Correlation.Spans.{ObjectTypes, St}
use braintrust_coding_agent.Correlation.Spans.Tools
use braintrust_coding_agent.Correlation.Snapshot
use braintrust_coding_agent.Correlation.Snapshot.{ActiveParentSnapshot}
use braintrust_coding_agent.Correlation.Snapshot.Restored
use braintrust_coding_agent.Correlation.Resolve
use braintrust_coding_agent.Correlation.Resolve.{Resolution, standalone, parent}
use braintrust_coding_agent.Correlation.Resolve.Owner
use braintrust_coding_agent.Correlation.Resolve.Confirm
use braintrust_coding_agent.Correlation.Lifecycle
use braintrust_coding_agent.Tests.JsonValue.{Value, Object, plain_json}
use braintrust_coding_agent.Tests.Spans.{span}

abbrev types : ObjectTypes ℕ
types = record { project_logs = 0; experiment = 1 }

abbrev process : ℕ → ProcessIdentity
process n = record { pid = n; start_time_secs = 1 }

abbrev chain : List ℕ → CaptureContext
chain pids = record { process_chain = map process pids; truncated = false }

abbrev route : SessionRoute Value Object ℕ
route = record {
  auth = record {
    source = Wire.AuthSource.auto;
    profile_id = none;
    profile = none;
    org_name = none;
  };
  destination = none;
  flush_mode = Wire.FlushMode.fire_and_forget;
  additional_metadata = none;
  tags = [];
  span_plugins = [];
}

abbrev config : SessionConfig Value Object ℕ
config = record {
  auth = record { token = "test"; api_url = none; app_url = none; org_name = none; org_id = none };
  destination = none;
  flush_mode = Wire.FlushMode.fire_and_forget;
  additional_metadata = none;
  tags = [];
  span_plugins = [];
}

program : Unit {0}
unfolding Agents.session_agent_process Agents.common_agent Agents.uses_command_hook Agents.find_in
    Agents.strictly_above Agents.ancestors Sessions.observe_session Sessions.prune_retired
    Sessions.retire_session Sessions.forget_exited Sessions.exited Spans.observe_op
    Spans.observe_ops Spans.span_components Spans.strings_dec Spans.update_session_span
    Spans.add_session_span Spans.update_tools Snapshot.restore_active_parent Resolve.resolve
    Resolve.resolve_among Resolve.decide Resolve.select Resolve.open_among Resolve.any_other_native
    Resolve.native_session_key Resolve.session_is_open Resolve.parent_of Resolve.has_active_tools
    Resolve.active_tools_of Resolve.active_values State.remove_process_mapping
    State.add_process_mapping State.forget_sessions State.forget_spans Wire.attached_span_ids
    Set.contains Set.insert Set.remove Map.get Map.insert Map.remove Wire.ProcessIdentity-discrete
    string_dec native.Mathlib.Decide.ℕ_discrete
program = tt

abbrev key : String
key = "codex|parent|route"

abbrev root : SpanOp Value
root = insert (span "root" [] none)

abbrev tool : SpanOp Value
tool = insert (record (span "tool" ("root" ∷ []) none) { span_type = SpanType.tool })

-- Two hooks of one agent, 20, below a shell, 30; then a root span and a tool.
abbrev calls : List (Lifecycle.Call plain_json types)
calls =
    Lifecycle.Call.observe key "codex" (some (chain (11 ∷ 20 ∷ 30 ∷ []))) true
    ∷ Lifecycle.Call.observe key "codex" (some (chain (12 ∷ 20 ∷ 30 ∷ []))) false
    ∷ Lifecycle.Call.spans key route config (root ∷ tool ∷ [])
    ∷ []

-- The registry after these calls.
abbrev opened : ActiveTool Value Object ℕ
opened =
    Spans.opened plain_json types key route config
      (record (span "tool" ("root" ∷ []) none) { span_type = SpanType.tool })

abbrev root_span : ActiveTool Value Object ℕ
root_span = Spans.opened plain_json types key route config (span "root" [] none)

abbrev registry : St plain_json types
registry = record {
  process_sessions = (process 20, key ∷ []) ∷ [];
  session_processes = (key, process 20 ∷ []) ∷ [];
  unconfirmed_processes = [];
  open_generations = [];
  retired = [];
  active_tools = (key, ("tool", opened) ∷ []) ∷ [];
  session_spans = (key, root_span) ∷ [];
  live_sessions = key ∷ [];
}

calls_run : Lifecycle.apply_calls plain_json types calls initial ≡ registry
unfolding program Lifecycle.apply_calls Lifecycle.apply_call
calls_run = refl

apply_calls-IsIndexed_example : IsIndexed (Lifecycle.apply_calls plain_json types calls initial)
apply_calls-IsIndexed_example = Lifecycle.apply_calls-IsIndexed plain_json types calls

observe_session-Change_example :
    Assignment.Change key "codex"
      (some (chain (13 ∷ 20 ∷ [])))
      registry
      (Sessions.observe_session key "codex" (some (chain (13 ∷ 20 ∷ []))) false registry)
    × (false ≡ false
        → Sessions.is_settled key registry ≡ true
        → Assignment.agents_of key
            (Sessions.observe_session key "codex" (some (chain (13 ∷ 20 ∷ []))) false registry)
          ≡ Assignment.agents_of key registry)
observe_session-Change_example =
    Assignment.observe_session-Change key "codex" (some (chain (13 ∷ 20 ∷ []))) false registry

abbrev end_tool : SpanOp Value
end_tool = merge (record (span "tool" [] none) { end_ms = some (pos 5) })

get-observe_ops_example :
    Map.get "tool" (
      Spans.tools_of plain_json types key route config
        (Spans.observe_ops plain_json types key route config (end_tool ∷ []) registry).0)
    ≡ Tools.tool_after_all plain_json types key route config
        (end_tool ∷ [])
        "tool"
        (Map.get "tool" (Spans.tools_of plain_json types key route config registry))
get-observe_ops_example =
    Tools.get-observe_ops plain_json types key route config (end_tool ∷ []) "tool" registry

-- a child, 40, that the tool of the session started
abbrev parent_route : SessionRoute Value Object ℕ → Option (SessionRoute Value Object ℕ)
parent_route = some

tool_is_parent :
    Resolve.resolve parent_route registry
      (some "claude-code|child")
      (some (chain (41 ∷ 40 ∷ 20 ∷ [])))
      (some (process 40))
    ≡ parent (Resolve.to_link opened)
unfolding program
tool_is_parent = refl

resolve-IsOwner_example :
    Owner.IsOwner parent_route registry (process 20 ∷ []) (Resolve.to_link opened)
unfolding program
resolve-IsOwner_example =
    Owner.resolve-IsOwner parent_route registry (some "claude-code|child")
      (chain (41 ∷ 40 ∷ 20 ∷ [])) (some (process 40)) (process 20 ∷ []) (Resolve.to_link opened)
      refl refl

resolve_among-nearest_example :
    Resolve.resolve_among parent_route registry none true
      (process 40 ∷ process 20 ∷ process 30 ∷ [])
    ≡ Resolve.decide parent_route registry none true
        (process 20)
        (Resolve.open_among registry (key ∷ []))
unfolding program
resolve_among-nearest_example =
    Owner.resolve_among-nearest parent_route registry none true (process 40 ∷ []) (process 30 ∷ [])
      (process 20) (key ∷ []) (inr refl, tt) refl refl

confirm_parent-IsAncestor_example :
    (Resolve.confirm_parent (process 20) route (chain (41 ∷ 40 ∷ 20 ∷ [])) (process 40)
      ≡ standalone)
    ⊎ ((Resolve.confirm_parent (process 20) route (chain (41 ∷ 40 ∷ 20 ∷ [])) (process 40)
          ≡ parent route)
        × Confirm.IsAncestor (process 20) (process 40) (map process (41 ∷ 40 ∷ 20 ∷ [])))
confirm_parent-IsAncestor_example =
    Confirm.confirm_parent-IsAncestor (process 20) route (chain (41 ∷ 40 ∷ 20 ∷ [])) (process 40)

abbrev snapshot : ActiveParentSnapshot Value Object ℕ
snapshot = record {
  version = 4;
  dirty = false;
  correlation_key = key;
  processes = process 20 ∷ [];
  session_span = none;
  tools = record { components = opened.components; route = route } ∷ [];
}

restore_all_or_nothing_example :
    ((Snapshot.restore_active_parent snapshot initial).1 ≡ false
      → (Snapshot.restore_active_parent snapshot initial).0 ≡ initial)
    × ((Snapshot.restore_active_parent snapshot initial).1 ≡ true
        → (Snapshot.is_refused snapshot ≡ false)
          × Restored.IsRestored key (Snapshot.restore_active_parent snapshot initial).0)
restore_all_or_nothing_example = Restored.restore_all_or_nothing snapshot initial

snapshot_restores : (Snapshot.restore_active_parent snapshot initial).1 ≡ true
unfolding program
snapshot_restores = refl
