-- ===== src/Correlation/Lifecycle.antt =====
-- The registry over time: any sequence of its calls, from an empty registry.
use braintrust_coding_agent.Prelude.{
  String, Bool, true, false, List, [], ◌∷◌, Option, none, some, arith, Bool-cases, Option-cases,
  inl, inr,
}
use braintrust_coding_agent.Collections.{string_key}
use braintrust_coding_agent.Collections.Set
use braintrust_coding_agent.Collections.Map
use braintrust_coding_agent.Json.{Json}
use braintrust_coding_agent.Span.{SpanOp}
use braintrust_coding_agent.Wire.{ProcessIdentity, CaptureContext, SessionRoute, SessionConfig}
use braintrust_coding_agent.Correlation.State.{State, initial, forget_spans}
use braintrust_coding_agent.Correlation.Agents.{uses_command_hook}
use braintrust_coding_agent.Correlation.Sessions.{
  confirm, remember_capture, settle, learn, mark_live, is_settled, observe_session, retire_session,
  forget_exited, prune_retired,
}
use braintrust_coding_agent.Correlation.Spans.{ObjectTypes, observe_ops}
use braintrust_coding_agent.Correlation.Spans.Changes.{observe_op_processes}
use braintrust_coding_agent.Correlation.Snapshot.{ActiveParentSnapshot, restore_active_parent}
use braintrust_coding_agent.Correlation.Snapshot.Restored.{restore-IsIndexed}
use braintrust_coding_agent.Correlation.Index.{
  IsIndexed, Agree-initial, Agree-moved, remove_process_mapping-IsIndexed,
  add_process_mapping-IsIndexed,
}

module _ {V O T : Type 0} where
  settle-IsIndexed :
      (key source : String) (capture : CaptureContext) (agent : Option ProcessIdentity)
      (s : State V O T)
      → IsIndexed s
      → IsIndexed (settle key source capture agent s)
  unfolding settle confirm remember_capture
  settle-IsIndexed key source capture (some agent) s v =
      add_process_mapping-IsIndexed key agent _ (remove_process_mapping-IsIndexed key _ v)
  settle-IsIndexed key source capture none s v = elim (Bool-cases (uses_command_hook source)) [
    | inl hook ↦ rw (hook, settle) v
    | inr direct ↦ rw (direct, settle) v
  ]

  learn-IsIndexed :
      (key source : String) (capture : Option CaptureContext) (s : State V O T)
      → IsIndexed s
      → IsIndexed (learn key source capture s)
  unfolding learn remember_capture
  learn-IsIndexed key source none s v = v
  learn-IsIndexed key source (some capture) s v = elim (Bool-cases (uses_command_hook source)) [
    | inr direct ↦ rw (direct, learn) (settle-IsIndexed key source capture _ s v)
    | inl hook ↦ elim (Option-cases (Map.get key s.unconfirmed_processes)) [
      | inl first ↦ rw (hook, first, learn) v
      | inr (previous, e) ↦ rw (hook, e, learn) (settle-IsIndexed key source capture _ s v)
    ]
  ]

  pub observe_session-IsIndexed :
      (key source : String) (capture : Option CaptureContext) (start : Bool) (s : State V O T)
      → IsIndexed s
      → IsIndexed (observe_session key source capture start s)
  unfolding observe_session
  observe_session-IsIndexed key source capture true s v = learn-IsIndexed key source capture _ v
  observe_session-IsIndexed key source capture false s v =
      elim (Bool-cases (is_settled key (mark_live key s))) [
        | inl settled ↦ Agree-moved v (ground (arith, settled)) (ground (arith, settled))
        | inr unsettled ↦
            Agree-moved (learn-IsIndexed key source capture (mark_live key s) v)
              (ground (arith, unsettled)) (ground (arith, unsettled))
      ]

  retire_session-IsIndexed :
      (key : String) (s : State V O T) → IsIndexed s → IsIndexed (retire_session key s)
  unfolding retire_session forget_spans
  retire_session-IsIndexed key s v = Agree-moved v (ground arith) (ground arith)

  forget_exited-IsIndexed :
      (keys : List String) (s : State V O T) → IsIndexed s → IsIndexed (forget_exited keys s)
  unfolding forget_exited
  forget_exited-IsIndexed [] s v = v
  forget_exited-IsIndexed (key ∷ keys) s v = elim (Bool-cases (Set.contains key s.retired)) [
    | inl here ↦
        rw (here, forget_exited)
          (forget_exited-IsIndexed keys _ (remove_process_mapping-IsIndexed key _ v))
    | inr revived ↦ rw (revived, forget_exited) (forget_exited-IsIndexed keys s v)
  ]

module _ (json : Json) {T : Type 0} (types : ObjectTypes T) where
  open json use {Value, Object}

  observe_ops-IsIndexed :
      (key : String) (route : SessionRoute Value Object T) (config : SessionConfig Value Object T)
      (ops : List (SpanOp Value)) (s : State Value Object T)
      → IsIndexed s
      → IsIndexed (observe_ops json types key route config ops s).0
  unfolding observe_ops
  observe_ops-IsIndexed key route config [] s v = v
  observe_ops-IsIndexed key route config (op ∷ ops) s v =
      let (e, e') = observe_op_processes json types key route config op s in
      observe_ops-IsIndexed key route config ops _ (Agree-moved v e e')

  -- One call of the registry. `prune` looks at the registry as it was at some earlier time.
  pub data Call : Type 0 where
    observe : String → String → Option CaptureContext → Bool → Call
    retire : String → Call
    prune : (ProcessIdentity → Bool) → State Value Object T → Call
    restore : ActiveParentSnapshot Value Object T → Call
    spans :
        String
        → SessionRoute Value Object T
        → SessionConfig Value Object T
        → List (SpanOp Value)
        → Call

  unfoldable pub apply_call : Call → State Value Object T → State Value Object T
  apply_call (observe key source capture start) s = observe_session key source capture start s
  apply_call (retire key) s = retire_session key s
  apply_call (prune alive seen) s = prune_retired alive seen s
  apply_call (restore x) s = (restore_active_parent x s).0
  apply_call (spans key route config ops) s = (observe_ops json types key route config ops s).0

  unfoldable pub apply_calls : List Call → State Value Object T → State Value Object T
  apply_calls [] s = s
  apply_calls (c ∷ cs) s = apply_calls cs (apply_call c s)

  apply_call-IsIndexed :
      (c : Call) (s : State Value Object T) → IsIndexed s → IsIndexed (apply_call c s)
  unfolding apply_call prune_retired
  apply_call-IsIndexed (observe key source capture start) s v =
      observe_session-IsIndexed key source capture start s v
  apply_call-IsIndexed (retire key) s v = retire_session-IsIndexed key s v
  apply_call-IsIndexed (prune alive seen) s v = forget_exited-IsIndexed _ s v
  apply_call-IsIndexed (restore x) s v = restore-IsIndexed x s v
  apply_call-IsIndexed (spans key route config ops) s v =
      observe_ops-IsIndexed key route config ops s v

  apply_calls-from :
      (cs : List Call) (s : State Value Object T) → IsIndexed s → IsIndexed (apply_calls cs s)
  unfolding apply_calls
  apply_calls-from [] s v = v
  apply_calls-from (c ∷ cs) s v = apply_calls-from cs (apply_call c s) (apply_call-IsIndexed c s v)

  -- After any calls on an empty registry `process_sessions` and `session_processes` agree in both
  -- directions, and no process is listed without a session.
  pub apply_calls-IsIndexed : (cs : List Call) → IsIndexed (apply_calls cs initial)
  apply_calls-IsIndexed cs = apply_calls-from cs initial Agree-initial
