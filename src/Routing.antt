-- ===== src/Routing.antt =====
-- bt-daemon/src/pipeline/routing.rs: what the task of a route does with one request, between its
-- receipt and its reply. The channels are not modelled.
pub mod Complete
pub mod Delivers
pub mod Actor
pub mod Settled
use braintrust_coding_agent.Prelude.{
  ℕ, suc, String, Bool, true, false, ◌||◌, List, [], ◌∷◌, ◌++◌, Option, none, some, if◌then◌else◌,
  is_empty,
}
use braintrust_coding_agent.Collections.{Key}
use braintrust_coding_agent.Json.{Json}
use braintrust_coding_agent.Span.{SpanOp}
use braintrust_coding_agent.Translator.{Result, ok, err}
use braintrust_coding_agent.Wire.{SessionConfig}
use braintrust_coding_agent.Processor.{Scripts, Engine}
use braintrust_coding_agent.Plugins
use braintrust_coding_agent.Plugins.{Plugins, PluginRejected, PluginOutcome}
use braintrust_coding_agent.Prepare
use braintrust_coding_agent.Prepare.{Prepare}
use braintrust_coding_agent.Recovery.{RetryCondition, RouteFailure}
use braintrust_coding_agent.Submission
use braintrust_coding_agent.Submission.{
  Sink, SdkErrors, SubmissionFailure, Outcome, Report, as_route_failure, submit,
}

-- the errors that plugins make of what went wrong, and the text of a route's failure
pub record RouteErrors (E D : Type 0) : Type 0 where
  pub rejected : PluginRejected D → E
  pub unavailable : String → E
  pub describe : RouteFailure E D → String

-- `prepared`, `failure` and `report`, and the plugins
pub record Batch (E D V : Type 0) : Type 0 where
  pub prepared : List (SpanOp V)
  pub failure : Option (E × RetryCondition D)
  pub report : Bool
  pub plugins : Plugins D

module _ {D : Type 0} where
  abbrev pub plugin_retry : PluginRejected D → RetryCondition D
  plugin_retry rejected =
      RetryCondition.plugin rejected.failure.timed_out rejected.failure.path rejected.digest
        rejected.processors

module _ {E D V : Type 0} (errors : RouteErrors E D) where
  unfoldable pub collect : PluginOutcome D V → Batch E D V → Batch E D V
  collect (PluginOutcome.prepared op) b = record b { prepared = b.prepared ++ op ∷ [] }
  collect PluginOutcome.filtered b = b
  collect (PluginOutcome.failed rejected) b = record b {
    report = b.report || rejected.failure.newly_seen;
    failure = some (errors.rejected rejected, plugin_retry rejected);
  }
  collect (PluginOutcome.unavailable error) b = record b {
    report = true;
    failure = some (errors.unavailable error, RetryCondition.transient);
  }

  module _ (scripts : Scripts D V) ⦃key : Key (Option D)⦄ where
    -- `slot` is the engine of the worker that runs the call
    unfoldable pub prepare_op :
        List String → Option (Engine D) → SpanOp V → Batch E D V → Batch E D V
    prepare_op [] slot op b = record b { prepared = b.prepared ++ op ∷ [] }
    prepare_op (path ∷ paths) slot op b =
        let (outcome, plugins, _) = Plugins.process scripts op b.plugins slot in
        collect outcome (record b { plugins = plugins })

    -- the loop over the operations; the `k`-th call runs on a worker with the engine `workers k`
    unfoldable pub prepare_ops :
        List String → (ℕ → Option (Engine D)) → ℕ → List (SpanOp V) → Batch E D V → Batch E D V
    prepare_ops paths workers k [] b = b
    prepare_ops paths workers k (op ∷ ops) b =
        prepare_ops paths workers (suc k) ops (prepare_op paths (workers k) op b)

module _ {E D : Type 0} where
  unfoldable pub answer :
      Result (SubmissionFailure E D) ℕ
      → Option (E × RetryCondition D)
      → Bool
      → Result (RouteFailure E D) ℕ
  answer (err e) failure report = err (as_route_failure e)
  answer (ok n) (some (cause, retry)) report =
      err (record { cause = cause; retry = retry; emitted = n; report = report })
  answer (ok n) none report = ok n

-- the state of the task, and the error that it shares
pub record Routing (S D : Type 0) : Type 0 where
  pub prepare : Prepare
  pub plugins : Plugins D
  pub sink : S
  pub last_error : Option String

-- None where the code says `unreachable!`
abbrev pub Response : Type 0 → Type 0 → Type 0
Response E D = Option (Result (RouteFailure E D) ℕ × Report)

module _ {E D : Type 0} where
  abbrev pub emit_response : Option (E × RetryCondition D) → Bool → Outcome E D → Response E D
  emit_response failure report (Outcome.emitted result state) =
      some (answer result failure report, state)
  emit_response failure report (Outcome.flushed _ state) = none

  abbrev pub flush_response : Outcome E D → Response E D
  flush_response (Outcome.flushed (ok _) state) = some (ok 0, state)
  flush_response (Outcome.flushed (err e) state) = some (err (as_route_failure e), state)
  flush_response (Outcome.emitted _ state) = none

module _ {E D : Type 0} (errors : RouteErrors E D) where
  abbrev pub noted : Response E D → Option String → Option String
  noted none last_error = last_error
  noted (some (ok _, _)) last_error = last_error
  noted (some (err e, _)) last_error = some (errors.describe e)

module _ {S E D : Type 0} (errors : RouteErrors E D) where
  abbrev pub reply : Response E D → Routing S D → Response E D × Routing S D
  reply response s = (response, record s { last_error = noted errors response s.last_error })

module _ {S E D T : Type 0} (json : Json) (errors : RouteErrors E D) (sdk : SdkErrors E)
    (scripts : Scripts D json.Value)
    (sink : Sink S E (SessionConfig json.Value json.Object T) (SpanOp json.Value))
    ⦃key : Key (Option D)⦄ where
  abbrev Config : Type 0
  Config = SessionConfig json.Value json.Object T

  -- the operations with what the route adds, through the plugins
  unfoldable pub prepared_batch :
      (ℕ → Option (Engine D))
      → Config
      → List (SpanOp json.Value)
      → Routing S D
      → Batch E D json.Value
  prepared_batch workers config ops s =
      prepare_ops errors scripts config.span_plugins workers 0 ops (record {
        prepared = [];
        failure = none;
        report = false;
        plugins = Plugins.configure config.span_plugins s.plugins;
      })

  unfoldable pub emit :
      (ℕ → Option (Engine D))
      → Config
      → List (SpanOp json.Value)
      → Routing S D
      → Response E D × Routing S D
  emit workers config ops s =
      let (ops', prepare) = Prepare.apply_shared json config ops s.prepare in
      let b = prepared_batch workers config ops' s in
      let (outcome, inner) =
        submit sdk sink (record { config = config; operation = Submission.emit b.prepared })
          s.sink in
      reply errors (emit_response b.failure b.report outcome)
        (record s { prepare = prepare; plugins = b.plugins; sink = inner })

  unfoldable pub flush : Config → Routing S D → Response E D × Routing S D
  flush config s =
      let (outcome, inner) =
        submit sdk sink (record { config = config; operation = Submission.flush }) s.sink in
      reply errors (flush_response outcome) (record s { sink = inner })
