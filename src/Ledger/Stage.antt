-- ===== src/Ledger/Stage.antt =====
-- `impl Sink for LedgerSink`: the sink that a route submits to. `outcome` is how its write of a line
-- ends, if it writes one.
use braintrust_coding_agent.Prelude.{String, Bool}
use braintrust_coding_agent.Span.{SpanOp}
use braintrust_coding_agent.Wire.{SessionConfig}
use braintrust_coding_agent.Submission.{Sink}
use braintrust_coding_agent.Ledger.{Disk}
use braintrust_coding_agent.Ledger.Journal.{Write}
use braintrust_coding_agent.Ledger.Sink.{LedgerSink, configure}
use braintrust_coding_agent.Ledger.Emission.{emit_shared, flush}

module _ {S V O T : Type 0} (sink : Sink S String (SessionConfig V O T) (SpanOp V))
    (alive : String → Bool) (outcome : Write) where
  abbrev pub ledger_sink : Sink (LedgerSink S × Disk) String (SessionConfig V O T) (SpanOp V)
  ledger_sink = record {
    configure = λ config state. (configure sink.configure config state.0, state.1);
    emit_shared = λ ops state.
        let (result, s, d) = emit_shared sink alive outcome ops state.0 state.1 in (result, (s, d));
    flush = λ state. let (result, s, d) = flush sink outcome state.0 state.1 in (result, (s, d));
    has_pending_delivery = λ state. sink.has_pending_delivery state.0.inner;
    permalink = λ state. sink.permalink state.0.inner;
  }
