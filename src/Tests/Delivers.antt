-- ===== src/Tests/Delivers.antt =====
-- A request from a route to the sink behind the ledger.
use braintrust_coding_agent.Prelude.{ℕ, String, ◌≡◌, refl, true, false, List, [], ◌∷◌, none, some}
use braintrust_coding_agent.Collections.{string_key, string_dec}
use braintrust_coding_agent.Collections.Map
use braintrust_coding_agent.Collections.Set
use braintrust_coding_agent.Span.{SpanOp}
use braintrust_coding_agent.Translator.{ok}
use braintrust_coding_agent.Wire
use braintrust_coding_agent.Processor
use braintrust_coding_agent.Plugins
use braintrust_coding_agent.Prepare
use braintrust_coding_agent.Submission
use braintrust_coding_agent.Routing
use braintrust_coding_agent.Routing.Delivers
use braintrust_coding_agent.Ledger.{Disk}
use braintrust_coding_agent.Ledger.Index
use braintrust_coding_agent.Ledger.Versions
use braintrust_coding_agent.Ledger.WeakOrigins
use braintrust_coding_agent.Ledger.Journal
use braintrust_coding_agent.Ledger.Journal.{written}
use braintrust_coding_agent.Ledger.Delivered
use braintrust_coding_agent.Ledger.Sink.{
  LedgerSink, configure, settle_saved, forget_known, cached, passes, filtered, remember_origins,
  born, births,
}
use braintrust_coding_agent.Ledger.Emission
use braintrust_coding_agent.Ledger.Stage.{ledger_sink}
use braintrust_coding_agent.Ledger.Sent.{is_known}
use braintrust_coding_agent.Ledger.Fresh.{asks}
use braintrust_coding_agent.Tests.JsonValue.{Value, plain_json}
use braintrust_coding_agent.Tests.Delivery.{config, errors, digest_key}
use braintrust_coding_agent.Tests.Routing.{Received, sink, scripts, route_errors, state}
use braintrust_coding_agent.Tests.Ledger.{alive, writer, sink_of, empty_disk, finished}

abbrev route : Routing.Routing (LedgerSink Received × Disk) ℕ
route = record {
  prepare = Prepare.new "codex";
  plugins = Plugins.new;
  sink = (sink_of (writer []), empty_disk);
  last_error = none;
}

abbrev answered : Routing.Response String ℕ × Routing.Routing (LedgerSink Received × Disk) ℕ
answered =
    Routing.emit plain_json route_errors errors scripts (ledger_sink sink alive written) (λ k. none)
      config (finished "a" ∷ []) route

a_accepted : answered.0 ≡ some (ok 1, state)
unfolding Set.contains Set.insert Set.remove Map.get Map.insert Map.remove string_dec Index.add_all
    Index.remember_completed Index.completed Index.remember Index.add_origins Index.find
    Versions.remember_versions WeakOrigins.get WeakOrigins.insert Journal.read_line
    Journal.read_lines Journal.refresh Journal.append Delivered.should_emit Delivered.record_op
    Delivered.record_emitted settle_saved forget_known cached passes filtered remember_origins born
    births configure Emission.passing Emission.settled Emission.deliver Emission.persist
    Emission.send Emission.emit_locked Emission.emit_ledger Emission.emit_shared Processor.judge
    Processor.turn Processor.chain Processor.process_inner Processor.process_isolated
    Plugins.configure Plugins.process_unblocked Plugins.process Routing.emit Submission.submit
    Routing.answer Routing.prepared_batch Routing.prepare_ops Prepare.apply_shared
    Routing.prepare_op Routing.collect Prepare.apply_shared_op Prepare.needs_overlay
    Wire.attached_span_ids Prepare.new
a_accepted = refl

a_asked :
    asks "a" (Prepare.apply_shared plain_json config (finished "a" ∷ []) route.prepare).0 ≡ true
unfolding Set.contains string_dec Prepare.apply_shared Prepare.apply_shared_op Prepare.needs_overlay
    Wire.attached_span_ids Prepare.new Set.insert
a_asked = refl

a_new : is_known "a" (writer []) empty_disk ≡ false
unfolding Set.contains
a_new = refl

route_delivers_example :
    (out : List (SpanOp Value)) × (asks "a" out ≡ true)
    × (sink.emit_shared out [] ≡ (ok 1, answered.1.sink.0.inner))
route_delivers_example =
    Delivers.route_delivers plain_json route_errors errors scripts sink alive written (λ k. none)
      config (finished "a" ∷ []) route (writer []) 1 state "a" a_accepted refl a_new a_asked
