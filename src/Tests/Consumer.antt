-- ===== src/Tests/Consumer.antt =====
-- A delivery that is refused once, by a sink without credentials.
use native.Mathlib.Decide.{ℕ_discrete}
use braintrust_coding_agent.Prelude.{
  ℕ, ◌+◌, String, ◌≡◌, refl, false, List, [], ◌∷◌, map, Option, none, some, All, eqb, if◌then◌else◌,
}
use braintrust_coding_agent.Collections.{Key, string_key, string_dec, same}
use braintrust_coding_agent.Translator.{Result, ok, err}
use braintrust_coding_agent.Wire.{SessionConfig}
use braintrust_coding_agent.Recovery
use braintrust_coding_agent.Recovery.{Failure, RetryCondition, RouteFailure}
use braintrust_coding_agent.Submission.{Sink}
use braintrust_coding_agent.Consumer
use braintrust_coding_agent.Consumer.{Delivery, Completion, Options, Work}
use braintrust_coding_agent.Consumer.Finish
use braintrust_coding_agent.Consumer.Loop
use braintrust_coding_agent.Consumer.Loop.{Event, Moment, Turn}
use braintrust_coding_agent.Consumer.Turns
use braintrust_coding_agent.Consumer.Order
use braintrust_coding_agent.Tests.JsonValue.{Value, Object}
use braintrust_coding_agent.Tests.Delivery.{config, world, route, digest_key, digests_key}

pub failure_eq_dec : Discrete (Option (Failure ℕ))
failure_eq_dec = hlevel (ℕ_discrete, string_dec)

instance abbrev pub failure_key : Key (Option (Failure ℕ))
failure_key = record { dec = failure_eq_dec }

-- The token that the sink has, and the number of batches that it has not delivered.
record RouteSink : Type 0 where
  token : String
  batches : ℕ

abbrev take_batch : List ℕ → RouteSink → Result String ℕ × RouteSink
take_batch ops s = (ok 1, record s { batches = s.batches + 1 })

abbrev send_all : RouteSink → Result String Unit × RouteSink
send_all s =
    if same s.token "fresh"
    then (ok tt, record s { batches = 0 })
    else (err "unauthorized", record s { batches = 0 })

abbrev sink : Sink RouteSink String (SessionConfig Value Object ℕ) ℕ
sink = record {
  configure = λ c s. record s { token = c.auth.token };
  emit_shared = take_batch;
  flush = send_all;
  has_pending_delivery = λ s. false;
  permalink = λ s. none;
}

-- the writes that are still to fail, and what was acknowledged
record Sources : Type 0 where
  failures : ℕ
  acknowledged : List ℕ

abbrev acknowledge : ℕ → Sources → Result String Unit × Sources
acknowledge c w =
    if eqb w.failures 0
    then (ok tt, record w { acknowledged = c ∷ w.acknowledged })
    else (err "disk full", record w { failures = 0 })

abbrev completion : Completion Sources ℕ String ℕ
completion = record { complete = acknowledge; failed = λ failure c w. (ok tt, failure, w) }

abbrev refused : RouteFailure String ℕ
refused = record {
  cause = "unauthorized";
  retry = RetryCondition.credentials;
  emitted = 0;
  report = false;
}

abbrev options : Options RouteSink Value Object ℕ String ℕ
options = record {
  version = "1.0";
  route = route;
  world = world;
  create = λ c. ok (record { token = ""; batches = 0 });
  route_failure = λ e. if same e "unauthorized" then some refused else none;
  is_commit = λ e. false;
  is_store = λ e. false;
  anyhow = λ text. text;
  message = λ failure. failure.reason;
}

abbrev moment :
    ℕ
    → Event (List ℕ) ℕ (SessionConfig Value Object ℕ) String ℕ
    → Moment (List ℕ) ℕ (SessionConfig Value Object ℕ) String ℕ
moment millis event = record {
  lease = some (
      ok (record {
        profile_id = route.auth.profile_id;
        auth = record config.auth { token = "fresh" };
      }));
  clock = λ k. millis;
  event = event;
}

abbrev input : Delivery (List ℕ) ℕ
input = record { value = 5 ∷ []; completion = 1 }

abbrev ops_of : ℕ → List ℕ
ops_of c = 5 ∷ []

-- refused, then with another token; a completion that fails is the only thing that is tried again
abbrev moments : List (Moment (List ℕ) ℕ (SessionConfig Value Object ℕ) String ℕ)
moments =
    moment 0 (Loop.delivered input)
    ∷ moment 5000 Loop.woke
    ∷ moment 6000 (Loop.delivered input)
    ∷ moment 20000 Loop.woke
    ∷ []

abbrev sources : Sources
sources = record { failures = 1; acknowledged = [] }

abbrev run : List (Turn RouteSink Sources ℕ (SessionConfig Value Object ℕ) ℕ)
run = Loop.turns options sink completion moments (Loop.spawned config) sources

consumer_program : Unit {0}
unfolding string_dec failure_eq_dec Consumer.into_completed Consumer.credentials Consumer.storage
    Consumer.routing Consumer.complete_all Finish.finish_pending Finish.flush_failed
    Finish.finish_flush Finish.finish Finish.hold Finish.settle Finish.after_flush Loop.retry
    Loop.report Loop.turn_held Loop.no_sink Loop.emit Loop.deliver Loop.attempt Loop.turn Loop.turns
    Recovery.delayed Recovery.backoff Recovery.routing Recovery.storage Recovery.is_ready
    Recovery.process Recovery.credentials_failure
consumer_program = tt

acknowledged-late :
    map (λ (r : Turn RouteSink Sources ℕ (SessionConfig Value Object ℕ) ℕ). r.completed) run
    ≡ [] ∷ [] ∷ [] ∷ (1 ∷ []) ∷ []
unfolding consumer_program ℕ_discrete
acknowledged-late = refl

turns-IsAcknowledged_example : All (Turns.IsAcknowledged options sink completion ops_of) run
turns-IsAcknowledged_example =
    Turns.turns-IsAcknowledged options sink completion ops_of config moments sources
      (refl, (tt, (refl, (tt, tt))))

turn-Keeps_example :
    (let r =
        Loop.turn options sink completion
          (λ k. 0)
          none
          (Loop.delivered input)
          (Loop.spawned config)
          sources in
      Order.Keeps options sink completion (1 ∷ []) r.completed r.task)
turn-Keeps_example =
    Order.turn-Keeps options sink completion (λ k. 0) none (Loop.delivered input)
      (Loop.spawned config) sources
