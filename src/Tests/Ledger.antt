-- ===== src/Tests/Ledger.antt =====
-- The delivery ledger: two writers of one destination.
use braintrust_coding_agent.Prelude.{
  ℕ, String, ◌≡◌, refl, Bool, true, false, List, [], ◌∷◌, ◌++◌, none, some, All, pos, length,
}
use braintrust_coding_agent.Collections.{string_key, string_dec}
use braintrust_coding_agent.Collections.Set
use braintrust_coding_agent.Collections.Map
use braintrust_coding_agent.Span.{SpanOp, merge}
use braintrust_coding_agent.Translator.{ok}
use braintrust_coding_agent.Ledger.{empty_file, Disk, DeliveryLedger}
use braintrust_coding_agent.Submission.{Sink}
use braintrust_coding_agent.Ledger.Index
use braintrust_coding_agent.Ledger.Versions
use braintrust_coding_agent.Ledger.WeakOrigins
use braintrust_coding_agent.Ledger.Journal
use braintrust_coding_agent.Ledger.Journal.{Write, written, torn}
use braintrust_coding_agent.Ledger.Delivered
use braintrust_coding_agent.Ledger.Sink.{
  LedgerSink, settle_saved, forget_known, cached, passes, filtered, remember_origins, born, births,
}
use braintrust_coding_agent.Ledger.Emission
use braintrust_coding_agent.Ledger.Growth.{IsCovered, Grows}
use braintrust_coding_agent.Ledger.Steps
use braintrust_coding_agent.Ledger.Steps.{Reach, here, next, flushes}
use braintrust_coding_agent.Ledger.Suppressed.{IsOther}
use braintrust_coding_agent.Ledger.Sent
use braintrust_coding_agent.Ledger.Sent.{EmissionSends}
use braintrust_coding_agent.Ledger.Once
use braintrust_coding_agent.Ledger.Fresh
use braintrust_coding_agent.Ledger.Settled
use braintrust_coding_agent.Ledger.Held
use braintrust_coding_agent.Ledger.Rebuild
use braintrust_coding_agent.Tests.JsonValue.{Value}
use braintrust_coding_agent.Tests.Spans.{span}

abbrev pub Received : Type 0
Received = List (SpanOp Value)

-- a sink that keeps what it is handed
abbrev pub recorder : Sink Received String ℕ (SpanOp Value)
recorder = record {
  configure = λ config sent. sent;
  emit_shared = λ ops sent. (ok (length ops), sent ++ ops);
  flush = λ sent. (ok tt, sent);
  has_pending_delivery = λ sent. false;
  permalink = λ sent. none;
}

abbrev pub alive : String → Bool
alive id = true

abbrev pub finished : String → SpanOp Value
finished id = merge (record (span id [] none) { end_ms = some (pos 5) })

abbrev pub writer : List String → DeliveryLedger
writer pending = record {
  journal_len = 0;
  pending = pending;
  pending_late_merges = [];
  known_versions = [];
  pending_versions = [];
}

abbrev pub sink_of : DeliveryLedger → LedgerSink Received
sink_of l = record {
  inner = [];
  ledger = some l;
  span_origins = [];
  pending_origins = [];
  plugin_version = none;
  source_version = none;
  bt_version = "1";
  attached_parent = none;
}

abbrev pub empty_disk : Disk
empty_disk = record {
  checkpoint = empty_file;
  lines = [];
  torn = false;
  index = record { spans = []; late_merges = []; origins = [] };
}

ledger_program : Unit {0}
unfolding Set.contains Set.insert Set.remove Map.get Map.insert Map.remove string_dec Index.add_all
    Index.remember_completed Index.completed Index.remember Index.add_origins Index.find
    Versions.remember_versions WeakOrigins.get WeakOrigins.insert Journal.read_line
    Journal.read_lines Journal.refresh Journal.append Journal.commit_rest Journal.commit
    Delivered.should_emit Delivered.record_op Delivered.record_emitted settle_saved forget_known
    cached passes filtered remember_origins born births Emission.flush_ledger Emission.passing
    Emission.settled Emission.deliver Emission.persist Emission.send Emission.emit_locked
    Emission.emit_ledger Emission.emit_shared Emission.flush
ledger_program = tt

abbrev first : Emission.Emission recorder alive
first =
    Emission.emit_shared recorder alive written (finished "a" ∷ []) (sink_of (writer [])) empty_disk

abbrev flushed : Emission.Flush Received
flushed = Emission.flush recorder written first.1 first.2

abbrev second : Emission.Emission recorder alive
second =
    Emission.emit_shared recorder alive written (finished "a" ∷ finished "b" ∷ [])
      (sink_of (writer [])) flushed.2

-- the first writer sends the span, and once it has flushed, the second does not
sent_once :
    (first.0 ≡ ok 1)
    × (Held.pending_of first.1 ≡ "a" ∷ [])
    × (flushed.0 ≡ ok tt)
    × (second.1.inner ≡ finished "b" ∷ [])
unfolding ledger_program
sent_once = (refl, refl, refl, refl)

empty-IsCovered : IsCovered empty_disk
unfolding Set.contains
empty-IsCovered k h = h

first_pending : Set.contains "a" (Held.pending_of first.1) ≡ true
unfolding ledger_program
first_pending = refl

-- another writer flushes after the first
abbrev after : Disk
after = (Emission.flush recorder torn (sink_of (writer ("b" ∷ []))) flushed.2).2

after-Reach : Reach recorder flushed.2 after
after-Reach = next here (flushes torn (sink_of (writer ("b" ∷ []))) refl)

flushed_ok : flushed.0 ≡ ok tt
unfolding ledger_program
flushed_ok = refl

first-IsCovered : IsCovered first.2
unfolding ledger_program
first-IsCovered k h = h

flush-Once_example :
    EmissionSends recorder alive
      (All (IsOther "a"))
      (sink_of (writer []))
      (Emission.emit_shared recorder alive written (finished "a" ∷ []) (sink_of (writer [])) after)
flush-Once_example =
    Once.flush-Once recorder written written first.1 first.2 after "a" alive (finished "a" ∷ [])
      (sink_of (writer [])) (writer []) first-IsCovered first_pending flushed_ok after-Reach refl

flushed-IsCovered : IsCovered flushed.2
flushed-IsCovered = (Steps.flush-Grows recorder written first.1 first.2).covered first-IsCovered

a_known : Sent.is_known "a" (writer []) flushed.2 ≡ true
unfolding ledger_program
a_known = refl

b_fresh : Sent.is_known "b" (writer []) flushed.2 ≡ false
unfolding ledger_program
b_fresh = refl

emit_shared-Fresh_example :
    EmissionSends recorder alive
      (λ out. Fresh.asks "b" out ≡ Fresh.asks "b" (finished "a" ∷ finished "b" ∷ []))
      (sink_of (writer []))
      second
emit_shared-Fresh_example =
    Fresh.emit_shared-Fresh recorder alive written (finished "a" ∷ finished "b" ∷ [])
      (sink_of (writer [])) (writer []) flushed.2 "b" refl b_fresh

flush-settled_example :
    (let r = Emission.flush recorder torn first.1 first.2 in
      Settled.is_settled "a" r.0 (Held.pending_of r.1) r.2 ≡ true)
flush-settled_example = Settled.flush-settled recorder torn first.1 first.2 "a" first_pending

Reach-Grows_example : Grows flushed.2 after
Reach-Grows_example = Steps.Reach-Grows recorder flushed-IsCovered after-Reach

load-Rebuilds_example :
    Rebuild.Leaves
      (Journal.unrefreshed 1)
      flushed.2
      (Journal.load (Journal.unrefreshed 1) flushed.2).1
    × Rebuild.Answers
        (Journal.unrefreshed 1)
        (Journal.load (Journal.unrefreshed 1) flushed.2).0
        (Journal.load (Journal.unrefreshed 1) flushed.2).1
load-Rebuilds_example = Rebuild.load-Rebuilds (Journal.unrefreshed 1) flushed.2

flush-load_example :
    (v : Journal.View) × ((Journal.load Journal.sound
        (record flushed.2 { index = empty_disk.index })).0
      ≡ ok v)
    × (Set.contains "a" v.disk.index.spans ≡ true)
flush-load_example =
    Once.flush-load recorder written first.1 first.2 "a" empty_disk.index first-IsCovered
      first_pending flushed_ok
