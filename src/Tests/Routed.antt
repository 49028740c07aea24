-- ===== src/Tests/Routed.antt =====
-- A delivery that is acknowledged once its route has delivered it.
use braintrust_coding_agent.Prelude.{ℕ, String, ◌≡◌, refl, false, List, [], ◌∷◌, none, map, All}
use braintrust_coding_agent.Collections.{string_key, string_dec}
use braintrust_coding_agent.Span.{SpanOp}
use braintrust_coding_agent.Translator.{ok}
use braintrust_coding_agent.Wire.{SessionConfig}
use braintrust_coding_agent.Plugins
use braintrust_coding_agent.Processor
use braintrust_coding_agent.Submission
use braintrust_coding_agent.Wire
use braintrust_coding_agent.Collections.Set
use braintrust_coding_agent.Collections.Map
use braintrust_coding_agent.Consumer.Finish
use braintrust_coding_agent.Prepare
use braintrust_coding_agent.Routing
use braintrust_coding_agent.Routing.Actor
use braintrust_coding_agent.Routing.Actor.{RoutingSink, Errors}
use braintrust_coding_agent.Consumer
use braintrust_coding_agent.Consumer.{Delivery, Completion, Options}
use braintrust_coding_agent.Consumer.Loop
use braintrust_coding_agent.Consumer.Loop.{Moment, Turn}
use braintrust_coding_agent.Consumer.Routed
use braintrust_coding_agent.Tests.JsonValue.{Value, Object, plain_json}
use braintrust_coding_agent.Tests.Delivery.{config, errors, world, route, digest_key, digests_key}
use braintrust_coding_agent.Tests.Routing.{Received, sink, scripts, route_errors}
use braintrust_coding_agent.Tests.Ledger.{finished}
use braintrust_coding_agent.Tests.Consumer.{failure_key}

abbrev task : Routing.Routing Received ℕ
task = record { prepare = Prepare.new "codex"; plugins = Plugins.new; sink = []; last_error = none }

abbrev Route : Type 0
Route = RoutingSink Received (SessionConfig Value Object ℕ) ℕ

abbrev actor_errors : Errors String ℕ
actor_errors = record { failed = λ failure. failure.cause; anyhow = λ text. text }

abbrev options : Options Route Value Object ℕ String ℕ
options = record {
  version = "1.0";
  route = route;
  world = world;
  create = λ c. ok (record { task = task; config = none; pending = false; permalink = none });
  route_failure = λ e. none;
  is_commit = λ e. false;
  is_store = λ e. false;
  anyhow = λ text. text;
  message = λ failure. failure.reason;
}

-- the acknowledged inputs
abbrev completion : Completion (List ℕ) ℕ String ℕ
completion = record {
  complete = λ c w. (ok tt, c ∷ w);
  failed = λ failure c w. (ok tt, failure, w);
}

abbrev ops_of : ℕ → List (SpanOp Value)
ops_of c = finished "a" ∷ []

abbrev moments : List (Moment (List (SpanOp Value)) ℕ (SessionConfig Value Object ℕ) String ℕ)
moments =
    record {
      lease = none;
      clock = λ k. 0;
      event = Loop.delivered (record { value = finished "a" ∷ []; completion = 1 });
    }
    ∷ []

turns-IsDelivered_example :
    All
      (Routed.IsDelivered plain_json route_errors errors scripts sink actor_errors
        (λ ops t k. none)
        options
        completion
        ops_of)
      (Loop.turns options
        (Routed.route_sink plain_json route_errors errors scripts sink actor_errors
          (λ ops t k. none))
        completion
        moments
        (Loop.spawned config)
        [])
turns-IsDelivered_example =
    Routed.turns-IsDelivered plain_json route_errors errors scripts sink actor_errors
      (λ ops t k. none) options completion ops_of config moments [] (refl, tt)

acknowledged-once :
    map
      (λ (r : Turn Route (List ℕ) ℕ (SessionConfig Value Object ℕ) ℕ). r.completed)
      (Loop.turns options
        (Routed.route_sink plain_json route_errors errors scripts sink actor_errors
          (λ ops t k. none))
        completion
        moments
        (Loop.spawned config)
        [])
    ≡ (1 ∷ []) ∷ []
unfolding string_dec Consumer.into_completed Consumer.complete_all Finish.finish_pending
    Finish.finish_flush Finish.finish Finish.settle Finish.after_flush Loop.emit Loop.deliver
    Loop.attempt Loop.turn Loop.turns Actor.request Actor.emit_shared Actor.flush Routing.emit
    Routing.flush Submission.submit Routing.answer Routing.prepared_batch Routing.prepare_ops
    Routing.prepare_op Routing.collect Plugins.configure Plugins.process_unblocked Plugins.process
    Processor.judge Processor.turn Processor.chain Processor.process_inner
    Processor.process_isolated Prepare.apply_shared Prepare.apply_shared_op Prepare.needs_overlay
    Prepare.new Wire.attached_span_ids Set.contains Set.insert Map.get Map.insert Map.remove
acknowledged-once = refl
