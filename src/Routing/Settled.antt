-- ===== src/Routing/Settled.antt =====
-- What an acknowledgement means to the sink behind a route.
use braintrust_coding_agent.Prelude.{
  ℕ, ◌≡◌, sym, ap, ◌∙◌, false, List, Option, arith, inl, inr, Option-cases,
}
use braintrust_coding_agent.Collections.{Key}
use braintrust_coding_agent.Json.{Json}
use braintrust_coding_agent.Span.{SpanOp}
use braintrust_coding_agent.Translator.{ok, Result-cases}
use braintrust_coding_agent.Wire.{SessionConfig}
use braintrust_coding_agent.Processor.{Scripts, Engine}
use braintrust_coding_agent.Submission.{Sink, SdkErrors, submit}
use braintrust_coding_agent.Routing
use braintrust_coding_agent.Routing.{RouteErrors, Routing}
use braintrust_coding_agent.Routing.Actor.{RoutingSink, Errors, request, flush}

module _ {S E D T : Type 0} (json : Json) (route_errors : RouteErrors E D) (sdk : SdkErrors E)
    (scripts : Scripts D json.Value)
    (sink : Sink S E (SessionConfig json.Value json.Object T) (SpanOp json.Value))
    ⦃key : Key (Option D)⦄ (errors : Errors E D)
    (workers : List (SpanOp json.Value) → Routing S D → ℕ → Option (Engine D)) where
  abbrev Route : Type 0
  Route = RoutingSink S (SessionConfig json.Value json.Object T) D

  -- the inner sink has been flushed with success, and has nothing pending
  pub record IsFlushed (r : Route) : Type 0 where
    pub inner : S
    pub accepted : sink.flush inner ≡ (ok tt, r.task.sink)
    pub nothing_pending : sink.has_pending_delivery r.task.sink ≡ false

  pub flush-IsFlushed :
      (before r : Route)
      → flush json route_errors sdk scripts sink errors workers before ≡ (ok tt, r)
      → r.pending ≡ false
      → IsFlushed r
  unfolding flush request Routing.flush submit
  flush-IsFlushed before r h clear = elim (Option-cases before.config) [
    | inl unset ↦ absurd (ground (arith, h, unset))
    | inr (config, set) ↦
        let sent = sink.flush (sink.configure config before.task.sink) in
        elim (Result-cases sent.0) [
          | inl (e, failed) ↦ absurd (ground (arith, h, set, failed))
          | inr (_, accepted) ↦
              let same_sink : sent.1 ≡ r.task.sink = ground (arith, h, set, accepted) in
              let same_pending : r.pending ≡ sink.has_pending_delivery sent.1 =
                ground (arith, h, set, accepted) in
              record {
                inner = sink.configure config before.task.sink;
                accepted = ap (λ s. (sent.0, s)) same_sink ∙ ap (λ a. (a, r.task.sink)) accepted;
                nothing_pending =
                    ap sink.has_pending_delivery (sym same_sink) ∙ sym same_pending ∙ clear;
              }
        ]
  ]
