-- ===== src/Tests/Routing.antt =====
-- The plugins of a route and its task.
use braintrust_coding_agent.Prelude.{
  ℕ, String, ◌≡◌, refl, Bool, true, false, List, [], ◌∷◌, Option, none, some, length, if◌then◌else◌,
}
use braintrust_coding_agent.Collections.{string_key, string_dec, same}
use braintrust_coding_agent.Collections.Map
use braintrust_coding_agent.Collections.Set
use braintrust_coding_agent.Span.{SpanRow, SpanOp, insert}
use braintrust_coding_agent.Translator.{Result, ok, err}
use braintrust_coding_agent.Wire
use braintrust_coding_agent.Wire.{SessionConfig}
use braintrust_coding_agent.Processor
use braintrust_coding_agent.Processor.{Scripts, Engine, CallError, PluginFailure, ProcessResult}
use braintrust_coding_agent.Processor.Identity
use braintrust_coding_agent.Plugins
use braintrust_coding_agent.Plugins.{PluginRejected, PluginOutcome}
use braintrust_coding_agent.Plugins.Held
use braintrust_coding_agent.Prepare
use braintrust_coding_agent.Submission
use braintrust_coding_agent.Submission.{Sink, Report}
use braintrust_coding_agent.Routing
use braintrust_coding_agent.Routing.{RouteErrors}
use braintrust_coding_agent.Routing.Complete
use braintrust_coding_agent.Tests.JsonValue.{Value, Object, plain_json}
use braintrust_coding_agent.Tests.Spans.{span}
use braintrust_coding_agent.Tests.Delivery.{config, errors, digest_key}

-- a script that renames a row, and fails on one of the name "bad"
abbrev pub rename :
    String → SpanRow Value → Bool → Engine ℕ → Result CallError (SpanRow Value) × Engine ℕ
rename path row inserts e =
    let e' = record e { last_fingerprint = some 7; modules = (path, 7) ∷ [] } in
    if same row.name "bad"
    then (err (record { message = "thrown"; timed_out = false }), e')
    else (ok (record row { name = "renamed" }), e')

abbrev pub scripts : Scripts ℕ Value
scripts = record { file_digest = λ path. some 7; runtime = ok tt; call = rename }

abbrev good : SpanOp Value
good = insert (span "a" [] none)

abbrev bad : SpanOp Value
bad = insert (record (span "b" [] none) { name = "bad" })

plugin_program : Unit {0}
unfolding Map.get Map.insert Map.remove string_dec Processor.judge Processor.turn Processor.chain
    Processor.process_inner Processor.process_isolated Processor.failed_digest
    Processor.chain_digests Plugins.configure Plugins.process_unblocked Plugins.process
plugin_program = tt

abbrev renamed : ProcessResult Value
renamed = record {
  op = some (insert (record (span "a" [] none) { name = "renamed" }));
  failure = none;
}

good-renamed : (Processor.process_inner scripts false ("plugin.mjs" ∷ []) good none).0 ≡ ok renamed
unfolding plugin_program
good-renamed = refl

process_inner-keeps_example : Identity.IsKept good renamed
process_inner-keeps_example =
    Identity.process_inner-keeps scripts false ("plugin.mjs" ∷ []) good none renamed good-renamed

abbrev stage : Plugins.Plugins ℕ
stage = record { paths = "plugin.mjs" ∷ []; blocked = none }

abbrev rejected : PluginRejected ℕ
rejected = record {
  failure = record {
    path = "plugin.mjs";
    message = "thrown";
    timed_out = false;
    newly_seen = true;
  };
  digest = some 7;
  processors = some 7 ∷ [];
}

bad_rejected : (Plugins.process scripts bad stage none).0 ≡ PluginOutcome.failed rejected
unfolding plugin_program
bad_rejected = refl

process-held_example :
    (let s = (Plugins.process scripts bad stage none).1 in
      Plugins.process scripts good s none
      ≡ (PluginOutcome.failed (Plugins.seen_before rejected), s, none))
process-held_example =
    Held.process-held scripts bad good stage none none rejected bad_rejected
      (Held.same_all_self {K = Option ℕ} (some 7 ∷ []))

abbrev pub Received : Type 0
Received = List (SpanOp Value)

abbrev pub sink : Sink Received String (SessionConfig Value Object ℕ) (SpanOp Value)
sink = record {
  configure = λ config sent. sent;
  emit_shared = λ ops sent. (ok (length ops), ops);
  flush = λ sent. (ok tt, sent);
  has_pending_delivery = λ sent. false;
  permalink = λ sent. none;
}

abbrev pub route_errors : RouteErrors String ℕ
route_errors = record {
  rejected = λ r. r.failure.message;
  unavailable = λ e. e;
  describe = λ f. f.cause;
}

abbrev route : Routing.Routing Received ℕ
route = record {
  prepare = Prepare.new "codex";
  plugins = Plugins.new;
  sink = [];
  last_error = none;
}

abbrev pub state : Report
state = record { pending = false; permalink = none }

abbrev sent : Routing.Response String ℕ × Routing.Routing Received ℕ
sent = Routing.emit plain_json route_errors errors scripts sink (λ k. none) config (good ∷ []) route

good_sent : sent.0 ≡ some (ok 1, state)
unfolding plugin_program Routing.emit Submission.submit Routing.answer Routing.prepared_batch
    Routing.prepare_ops Prepare.apply_shared Routing.prepare_op Routing.collect
    Prepare.apply_shared_op Prepare.needs_overlay Wire.attached_span_ids Set.contains Prepare.new
    Prepare.apply_op Prepare.apply_row Set.insert
good_sent = refl

emit_complete_example :
    (out : List (SpanOp Value)) × Complete.Matches out
      (Prepare.apply_shared plain_json config (good ∷ []) route.prepare).0
    × (Submission.submit {D = ℕ} errors sink
          (record { config = config; operation = Submission.emit out })
          route.sink
        ≡ (Submission.Outcome.emitted (ok 1) state, sent.1.sink))
emit_complete_example =
    Complete.emit_complete plain_json route_errors errors scripts sink (λ k. none) config
      (good ∷ []) route 1 state good_sent
