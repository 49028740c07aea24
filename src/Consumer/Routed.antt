-- ===== src/Consumer/Routed.antt =====
-- The task with a route as its sink.
use braintrust_coding_agent.Prelude.{ℕ, ◌≡◌, List, [], ◌∷◌, ◌++◌, Option, some, ◌⊎◌, inl, inr, All}
use braintrust_coding_agent.Collections.{Key}
use braintrust_coding_agent.Json.{Json}
use braintrust_coding_agent.Span.{SpanOp}
use braintrust_coding_agent.Wire.{SessionConfig}
use braintrust_coding_agent.Recovery.{Failure}
use braintrust_coding_agent.Processor.{Scripts, Engine}
use braintrust_coding_agent.Submission.{Sink, SdkErrors}
use braintrust_coding_agent.Routing.{RouteErrors, Routing}
use braintrust_coding_agent.Routing.Actor.{RoutingSink, Errors, routing_sink}
use braintrust_coding_agent.Routing.Settled.{IsFlushed, flush-IsFlushed}
use braintrust_coding_agent.Consumer.{Completion, Options}
use braintrust_coding_agent.Consumer.Loop.{Moment, Turn, turns, spawned}
use braintrust_coding_agent.Consumer.Settled.{names, Holds}
use braintrust_coding_agent.Consumer.Turns.{IsAcknowledged, CarriesOps, turns-IsAcknowledged}

module _ {S E D T : Type 0} (json : Json) (route_errors : RouteErrors E D) (sdk : SdkErrors E)
    (scripts : Scripts D json.Value)
    (sink : Sink S E (SessionConfig json.Value json.Object T) (SpanOp json.Value))
    ⦃digests : Key (Option D)⦄ (errors : Errors E D)
    (workers : List (SpanOp json.Value) → Routing S D → ℕ → Option (Engine D)) where
  abbrev Config : Type 0
  Config = SessionConfig json.Value json.Object T

  abbrev Route : Type 0
  Route = RoutingSink S Config D

  abbrev pub route_sink : Sink Route E Config (SpanOp json.Value)
  route_sink = routing_sink json route_errors sdk scripts sink errors workers

  module _ {W C : Type 0} (options : Options Route json.Value json.Object T E D)
      (completion : Completion W C E D) (ops_of : C → List (SpanOp json.Value)) where
    -- A turn that completes obligations leaves a route that took their operations, with an inner
    -- sink that is flushed.
    abbrev pub IsDelivered : Turn Route W C Config D → Type 0
    IsDelivered r =
        (r.completed ≡ [])
        ⊎ ((s : Route) × (r.task.sink ≡ some s)
            × IsFlushed json route_errors sdk scripts sink errors workers s
            × Holds options route_sink ops_of s (r.completed ++ names r.task.pending))

    acknowledged-IsDelivered :
        (r : Turn Route W C Config D)
        → IsAcknowledged options route_sink completion ops_of r
        → IsDelivered r
    acknowledged-IsDelivered r (inl nothing) = inl nothing
    acknowledged-IsDelivered r (inr (s, there, settled, holds)) = inr (
      s,
      there,
      flush-IsFlushed json route_errors sdk scripts sink errors workers settled.before s
          settled.accepted settled.nothing_pending,
      holds,
    )

    each-IsDelivered :
        (rs : List (Turn Route W C Config D))
        → All (IsAcknowledged options route_sink completion ops_of) rs
        → All IsDelivered rs
    each-IsDelivered [] h = tt
    each-IsDelivered (r ∷ rs) (here, later) =
        (acknowledged-IsDelivered r here, each-IsDelivered rs later)

    -- With a route as its sink, each turn of the task, from its start on, that completes
    -- obligations leaves it with a route that took their operations and, right after them and as
    -- the last, those of the obligations still pending, and whose inner sink has just been flushed
    -- with success and has nothing pending; if what the source hands over carries the operations
    -- `ops_of` its obligation.
    pub turns-IsDelivered :
        ⦃failures : Key (Option (Failure D))⦄ ⦃lists : Key (List (Option D))⦄
        → (config : Config) (moments : List (Moment (List (SpanOp json.Value)) C Config E D))
          (w : W)
        → All (CarriesOps options route_sink completion ops_of) moments
        → All IsDelivered (turns options route_sink completion moments (spawned config) w)
    turns-IsDelivered config moments w carry =
        each-IsDelivered _
          (turns-IsAcknowledged options route_sink completion ops_of config moments w carry)
