-- ===== src/Correlation/Spans/Changes.antt =====
-- What an observation changes, and what its answer says about it.
use braintrust_coding_agent.Prelude.{String, ◌≡◌, refl, Bool, false, List, [], ◌∷◌, arith}
use braintrust_coding_agent.Collections.{string_key}
use braintrust_coding_agent.Json.{Json}
use braintrust_coding_agent.Span.{SpanRow, SpanOp, row_of}
use braintrust_coding_agent.Wire.{SessionRoute, SessionConfig}
use braintrust_coding_agent.Correlation.Spans.{
  ObjectTypes, St, observe_op, observe_ops, update_session_span, add_session_span, update_tools,
  close_tool, open_tool,
}

module _ (json : Json) {T : Type 0} (types : ObjectTypes T) (key : String)
    (route : SessionRoute json.Value json.Object T)
    (config : SessionConfig json.Value json.Object T) where
  open json use {Value}

  -- A step that reports no change has made none.
  abbrev Honest : (St json types → St json types × Bool) → Type 0
  Honest f = (s : St json types) → (f s).1 ≡ false → (f s).0 ≡ s

  update_session_span-Honest :
      (row : SpanRow Value) → Honest (update_session_span json types key route config row)
  unfolding update_session_span
  update_session_span-Honest row s h = ground arith

  add_session_span-Honest :
      (op : SpanOp Value) → Honest (add_session_span json types key route config op)
  unfolding add_session_span
  add_session_span-Honest op s h = ground arith

  update_tools-Honest : (op : SpanOp Value) → Honest (update_tools json types key route config op)
  unfolding update_tools close_tool open_tool
  update_tools-Honest op s h = ground arith

  observe_op-Honest : (op : SpanOp Value) → Honest (observe_op json types key route config op)
  unfolding observe_op
  observe_op-Honest op s h = ground (
    arith,
    update_session_span-Honest (row_of op) s,
    add_session_span-Honest op s,
    add_session_span-Honest op (update_session_span json types key route config (row_of op) s).0,
    update_tools-Honest op s,
    update_tools-Honest op
        (add_session_span json types key route config op
          (update_session_span json types key route config (row_of op) s).0).0,
  )

  -- When `observe_ops` answers that nothing changed, the registry is as it was.
  observe_ops-honest :
      (ops : List (SpanOp Value)) (s : St json types)
      → (observe_ops json types key route config ops s).1 ≡ false
      → (observe_ops json types key route config ops s).0 ≡ s
  unfolding observe_ops
  observe_ops-honest [] s h = refl
  observe_ops-honest (op ∷ ops) s h = ground (
    arith,
    observe_op-Honest op s,
    observe_ops-honest ops (observe_op json types key route config op s).0,
    observe_ops-honest ops s,
  )

  -- Observations leave the process index alone.
  pub observe_op_processes :
      (op : SpanOp Value) (s : St json types)
      → ((observe_op json types key route config op s).0.process_sessions ≡ s.process_sessions)
        × ((observe_op json types key route config op s).0.session_processes ≡ s.session_processes)
  unfolding observe_op update_session_span add_session_span update_tools close_tool open_tool
  observe_op_processes op s = (ground arith, ground arith)
