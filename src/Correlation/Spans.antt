-- ===== src/Correlation/Spans.antt =====
-- Which spans of a session are open, from the operations that its translator emits.
pub mod Changes
pub mod Tools
use braintrust_coding_agent.Prelude.{
  ℕ, String, Bool, true, false, not, ◌&&◌, ◌||◌, List, [], ◌∷◌, Option, none, some, if◌then◌else◌,
  is_some, is_empty, or_else, unwrap_or,
}
use braintrust_coding_agent.Collections.{Key, string_key, string_dec, same}
use braintrust_coding_agent.Collections.Set
use braintrust_coding_agent.Collections.Map
use braintrust_coding_agent.Json.{Json}
use braintrust_coding_agent.Span.{SpanType, SpanRow, SpanOp, row_of, is_insert}
use braintrust_coding_agent.Wire.{
  SpanComponents, TraceDestination, SessionRoute, SessionConfig, attached_span_ids,
}
use braintrust_coding_agent.Correlation.State.{ActiveTool, State}

strings_eq_dec : Discrete (List String)
strings_eq_dec = hlevel string_dec

unfoldable pub strings_dec : Discrete (List String)
unfolding strings_eq_dec
strings_dec = strings_eq_dec

instance abbrev pub strings_key : Key (List String)
strings_key = record { dec = strings_dec }

abbrev pub is_task : SpanType → Bool
is_task SpanType.task = true
is_task _ = false

abbrev pub is_tool : SpanType → Bool
is_tool SpanType.tool = true
is_tool _ = false

-- the values of `SpanObjectType` that the daemon names
pub record ObjectTypes (T : Type 0) : Type 0 where
  pub project_logs : T
  pub experiment : T

abbrev xor : Bool → Bool → Bool
xor true b = not b
xor false b = b

-- `external_parent.into_iter().collect::<Vec<_>>()`
abbrev pub to_list : Option String → List String
to_list none = []
to_list (some k) = k ∷ []

module _ (json : Json) {T : Type 0} (types : ObjectTypes T) where
  open json use {Value, Object, string}

  abbrev insert_some : String → Option String → Object → Object
  insert_some k none o = o
  insert_some k (some v) o = json.insert k (string v) o

  -- the arguments that name a project; none if it has neither id nor name
  abbrev project_args : Option String → Option String → Option Object
  project_args none none = none
  project_args id name =
      some (insert_some "project_name" name (insert_some "project_id" id json.empty))

  -- what the destination decides: the object, its arguments, the event, and a root of its own
  pub record Target : Type 0 where
    pub object_type : T
    pub object_id : Option String
    pub args : Option Object
    pub event : Option Object
    pub root : Option String

  target : Option (TraceDestination Object T) → Target
  target none = record {
    object_type = types.project_logs;
    object_id = none;
    args = none;
    event = none;
    root = none;
  }
  target (some (TraceDestination.project_logs id name)) = record {
    object_type = types.project_logs;
    object_id = id;
    args = project_args id name;
    event = none;
    root = none;
  }
  target (some (TraceDestination.experiment id)) = record {
    object_type = types.experiment;
    object_id = some id;
    args = none;
    event = none;
    root = none;
  }
  target (some (TraceDestination.parent_span c)) = record {
    object_type = c.object_type;
    object_id = c.object_id;
    args = c.compute_object_metadata_args;
    event = c.propagated_event;
    root = c.root_span_id;
  }

  unfoldable pub span_components :
      SessionConfig Value Object T → SpanRow Value → SpanComponents Object T
  unfolding target
  span_components config row =
      let t = target config.destination in
      record {
        object_type = t.object_type;
        object_id = t.object_id;
        compute_object_metadata_args = t.args;
        row_id = some row.span_id;
        span_id = some row.span_id;
        root_span_id = some (unwrap_or t.root row.root_span_id);
        span_parents = if is_empty row.parent_span_ids then none else some row.parent_span_ids;
        propagated_event = t.event;
      }

  abbrev pub St : Type 0
  St = State Value Object T

  module _ (key : String) (route : SessionRoute Value Object T)
      (config : SessionConfig Value Object T) where
    abbrev pub opened : SpanRow Value → ActiveTool Value Object T
    opened row = record { components = span_components config row; route = route; active = true }

    -- a terminal update of the session's span closes it, and a later one can reopen it
    unfoldable pub update_session_span : SpanRow Value → St → St × Bool
    update_session_span row s = elim (Map.get key s.session_spans) [
      | none ↦ (s, false)
      | some span ↦
          if same row.span_id (unwrap_or span.components.span_id "")
            && xor span.active (not (is_some row.end_ms))
          then (
            record s {
              session_spans =
                  Map.insert key (record span { active = not (is_some row.end_ms) })
                    s.session_spans;
            },
            true,
          )
          else (s, false)
    ]

    -- the first top-level task, under the external parent if there is one
    abbrev pub is_session_span : SpanRow Value → Bool
    is_session_span row =
        is_task row.span_type && same row.parent_span_ids (to_list (attached_span_ids config).0)

    unfoldable pub add_session_span : SpanOp Value → St → St × Bool
    add_session_span op s =
        if is_insert op && is_session_span (row_of op) && not (Map.contains_key key s.session_spans)
        then (
          record s { session_spans = Map.insert key (opened (row_of op)) s.session_spans },
          true,
        )
        else (s, false)

    abbrev pub tools_of : St → List (String × ActiveTool Value Object T)
    tools_of s = unwrap_or (Map.get key s.active_tools) []

    close_tool : SpanRow Value → St → St × Bool
    close_tool row s =
        if is_some (Map.get row.span_id (tools_of s))
        then (
          record s {
            active_tools = Map.insert key (Map.remove row.span_id (tools_of s)) s.active_tools;
          },
          true,
        )
        else (s, false)

    open_tool : SpanRow Value → St → St × Bool
    open_tool row s = (
      record s {
        active_tools =
            Map.insert key (Map.insert row.span_id (opened row) (tools_of s)) s.active_tools;
      },
      true,
    )

    unfoldable pub update_tools : SpanOp Value → St → St × Bool
    unfolding close_tool open_tool
    update_tools op s =
        if is_some (row_of op).end_ms
        then close_tool (row_of op) s
        else if is_tool (row_of op).span_type && is_insert op
        then open_tool (row_of op) s
        else (s, false)

    -- a step after another, `changed` being set if either sets it
    abbrev after : St × Bool → (St → St × Bool) → St × Bool
    after (s, changed) f = let (s', changed') = f s in (s', changed || changed')

    -- one round of the loop
    unfoldable pub observe_op : SpanOp Value → St → St × Bool
    observe_op op s =
        if same (row_of op).span_id ""
        then (s, false)
        else after (after (update_session_span (row_of op) s) (add_session_span op))
            (update_tools op)

    unfoldable pub observe_ops : List (SpanOp Value) → St → St × Bool
    observe_ops [] s = (s, false)
    observe_ops (op ∷ ops) s = after (observe_op op s) (observe_ops ops)
