-- ===== src/Routing/Actor.antt =====
-- `RoutingSink` of bt-daemon/src/pipeline/routing.rs: the task of a route as a sink. A request is
-- answered before the next one is sent.
use braintrust_coding_agent.Prelude.{ℕ, String, Bool, List, Option, none, some}
use braintrust_coding_agent.Collections.{Key}
use braintrust_coding_agent.Json.{Json}
use braintrust_coding_agent.Span.{SpanOp}
use braintrust_coding_agent.Translator.{Result, ok, err, map_ok}
use braintrust_coding_agent.Wire.{SessionConfig}
use braintrust_coding_agent.Processor.{Scripts, Engine}
use braintrust_coding_agent.Recovery.{RouteFailure}
use braintrust_coding_agent.Submission.{Sink, SdkErrors}
use braintrust_coding_agent.Routing
use braintrust_coding_agent.Routing.{RouteErrors, Routing, Response}

pub record RoutingSink (S Config D : Type 0) : Type 0 where
  pub task : Routing S D
  pub config : Option Config
  pub pending : Bool
  pub permalink : Option String

-- How an error is made of a failure of the route, and of a text.
pub record Errors (E D : Type 0) : Type 0 where
  pub failed : RouteFailure E D → E
  pub anyhow : String → E

module _ {E D : Type 0} (errors : Errors E D) where
  abbrev pub as_error : {A : Type 0} → Result (RouteFailure E D) A → Result E A
  as_error (ok a) = ok a
  as_error (err failure) = err (errors.failed failure)

module _ {S Config E D : Type 0} (errors : Errors E D) where
  -- the reply of the task
  abbrev pub responded :
      Response E D × Routing S D → RoutingSink S Config D → Result E ℕ × RoutingSink S Config D
  responded (none, task) r =
      (err (errors.anyhow "routing actor dropped its reply"), record r { task = task })
  responded (some (result, state), task) r = (
    as_error errors result,
    record r { task = task; pending = state.pending; permalink = state.permalink },
  )

  unfoldable pub request :
      (Config → Routing S D → Response E D × Routing S D)
      → RoutingSink S Config D
      → Result E ℕ × RoutingSink S Config D
  request operation r = elim r.config [
    | none ↦ (err (errors.anyhow "route is not configured"), r)
    | some config ↦ responded (operation config r.task) r
  ]

module _ {S E D T : Type 0} (json : Json) (route_errors : RouteErrors E D) (sdk : SdkErrors E)
    (scripts : Scripts D json.Value)
    (sink : Sink S E (SessionConfig json.Value json.Object T) (SpanOp json.Value))
    ⦃key : Key (Option D)⦄ (errors : Errors E D)
    (workers : List (SpanOp json.Value) → Routing S D → ℕ → Option (Engine D)) where
  abbrev Route : Type 0
  Route = RoutingSink S (SessionConfig json.Value json.Object T) D

  unfoldable pub emit_shared : List (SpanOp json.Value) → Route → Result E ℕ × Route
  emit_shared ops r =
      request errors
        (λ config task.
          Routing.emit json route_errors sdk scripts sink (workers ops task) config ops task)
        r

  unfoldable pub flush : Route → Result E Unit × Route
  flush r =
      let (result, r') = request errors (Routing.flush json route_errors sdk scripts sink) r in
      (map_ok (λ n. tt) result, r')

  -- `impl Sink for RoutingSink`
  abbrev pub routing_sink :
      Sink Route E (SessionConfig json.Value json.Object T) (SpanOp json.Value)
  routing_sink = record {
    configure = λ config r. record r { config = some config };
    emit_shared = emit_shared;
    flush = flush;
    has_pending_delivery = λ r. r.pending;
    permalink = λ r. r.permalink;
  }
