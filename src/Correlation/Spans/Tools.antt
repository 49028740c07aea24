-- ===== src/Correlation/Spans/Tools.antt =====
-- The open tools of a session after an observation.
use braintrust_coding_agent.Prelude.{
  String, ◌≡◌, refl, ap, ◌∙◌, false, not, ◌&&◌, ◌||◌, List, [], ◌∷◌, Option, none, some, arith,
  if◌then◌else◌, is_some, inl, inr, Bool-cases,
}
use braintrust_coding_agent.Collections.{string_key, same}
use braintrust_coding_agent.Collections.Map
use braintrust_coding_agent.Json.{Json}
use braintrust_coding_agent.Span.{SpanRow, SpanOp, row_of, is_insert}
use braintrust_coding_agent.Wire.{SessionRoute, SessionConfig}
use braintrust_coding_agent.Correlation.State.{ActiveTool}
use braintrust_coding_agent.Correlation.Spans.{
  ObjectTypes, St, is_tool, opened, observe_op, observe_ops, update_session_span, add_session_span,
  update_tools, close_tool, open_tool, tools_of,
}

module _ (json : Json) {T : Type 0} (types : ObjectTypes T) (key : String)
    (route : SessionRoute json.Value json.Object T)
    (config : SessionConfig json.Value json.Object T) where
  open json use {Value, Object}

  -- a tool after one operation: gone if the operation ends its span, open if it inserts it as a
  -- tool, and otherwise as before
  abbrev pub tool_after :
      SpanOp Value
      → String
      → Option (ActiveTool Value Object T)
      → Option (ActiveTool Value Object T)
  tool_after op j old =
      if same (row_of op).span_id "" || not (same (row_of op).span_id j)
      then old
      else if is_some (row_of op).end_ms
      then none
      else if is_tool (row_of op).span_type && is_insert op
      then some (opened json types key route config (row_of op))
      else old

  tools_update_session_span :
      (row : SpanRow Value) (s : St json types)
      → (update_session_span json types key route config row s).0.active_tools ≡ s.active_tools
  unfolding update_session_span
  tools_update_session_span row s = ground arith

  tools_add_session_span :
      (op : SpanOp Value) (s : St json types)
      → (add_session_span json types key route config op s).0.active_tools ≡ s.active_tools
  unfolding add_session_span
  tools_add_session_span op s = ground arith

  get-update_tools :
      (op : SpanOp Value) (j : String) (s : St json types)
      → same (row_of op).span_id "" ≡ false
      → Map.get j
          (tools_of json types key route config (update_tools json types key route config op s).0)
        ≡ tool_after op j (Map.get j (tools_of json types key route config s))
  unfolding update_tools close_tool open_tool
  get-update_tools op j s named =
      let row = row_of op in
      let tools = tools_of json types key route config s in
      ground (
        arith,
        named,
        Map.get-remove j row.span_id tools,
        Map.get-insert j row.span_id (opened json types key route config row) tools,
        Map.get-insert key key (Map.remove row.span_id tools) s.active_tools,
        Map.get-insert key key
            (Map.insert row.span_id (opened json types key route config row) tools) s.active_tools,
      )

  -- After one operation every tool of the session is as the operation says: a terminal operation
  -- closes the tool of its span, the insertion of a tool opens it with the session's route, and
  -- all other tools stay.
  pub get-observe_op :
      (op : SpanOp Value) (j : String) (s : St json types)
      → Map.get j
          (tools_of json types key route config (observe_op json types key route config op s).0)
        ≡ tool_after op j (Map.get j (tools_of json types key route config s))
  unfolding observe_op
  get-observe_op op j s = elim (Bool-cases (same (row_of op).span_id "")) [
    | inl unnamed ↦ ground (arith, unnamed)
    | inr named ↦ ground (
      arith,
      named,
      tools_update_session_span (row_of op) s,
      tools_add_session_span op (update_session_span json types key route config (row_of op) s).0,
      get-update_tools op j
          (add_session_span json types key route config op
            (update_session_span json types key route config (row_of op) s).0).0
          named,
    )
  ]

  -- the tool after all the operations, from the left
  abbrev pub tool_after_all :
      List (SpanOp Value)
      → String
      → Option (ActiveTool Value Object T)
      → Option (ActiveTool Value Object T)
  tool_after_all [] j old = old
  tool_after_all (op ∷ ops) j old = tool_after_all ops j (tool_after op j old)

  -- After a batch of operations the open tools of a session are what the operations say one after
  -- another.
  pub get-observe_ops :
      (ops : List (SpanOp Value)) (j : String) (s : St json types)
      → Map.get j
          (tools_of json types key route config (observe_ops json types key route config ops s).0)
        ≡ tool_after_all ops j (Map.get j (tools_of json types key route config s))
  unfolding observe_ops
  get-observe_ops [] j s = refl
  get-observe_ops (op ∷ ops) j s =
      get-observe_ops ops j (observe_op json types key route config op s).0
      ∙ ap (tool_after_all ops j) (get-observe_op op j s)
