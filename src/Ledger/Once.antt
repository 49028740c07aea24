-- ===== src/Ledger/Once.antt =====
-- A span that was delivered is not delivered again, by any writer.
use mathlib.Core.Path.{subst}
use braintrust_coding_agent.Prelude.{◌∙◌, ◌≡◌, String, Bool, true, List, some, All, arith}
use braintrust_coding_agent.Collections.{string_key}
use braintrust_coding_agent.Collections.Set
use braintrust_coding_agent.Span.{SpanOp}
use braintrust_coding_agent.Translator.{ok}
use braintrust_coding_agent.Submission.{Sink}
use braintrust_coding_agent.Ledger.{Disk, DeliveryLedger, OriginIndex}
use braintrust_coding_agent.Ledger.Rebuild.{load-Rebuilds}
use braintrust_coding_agent.Ledger.Journal.{View, Write, sound, load}
use braintrust_coding_agent.Ledger.Sink.{LedgerSink}
use braintrust_coding_agent.Ledger.Emission.{waiting, emit_shared, flush}
use braintrust_coding_agent.Ledger.Growth.{refreshed, IsCovered}
use braintrust_coding_agent.Ledger.Steps.{Reach, Reach-Grows, flush-Grows}
use braintrust_coding_agent.Ledger.Suppressed.{IsOther, passing-IsOther, map-stamped-IsOther}
use braintrust_coding_agent.Ledger.Held.{pending_of}
use braintrust_coding_agent.Ledger.Sent.{
  EmissionSends, is_known, contains-refreshed, emit_shared-Sends,
}
use braintrust_coding_agent.Ledger.Settled.{is_settled, flush-settled}

module _ {S V Config : Type 0} (sink : Sink S String Config (SpanOp V)) where
  -- If a writer holds a span as delivered, or the index or a line that the writer has not read has
  -- it, an emission hands the inner sink no operation of that span without a late-merge key of its
  -- own.
  emit_shared-Once :
      (alive : String → Bool) (outcome : Write) (ops : List (SpanOp V)) (s : LedgerSink S)
      (l : DeliveryLedger) (d : Disk) (id : String)
      → s.ledger ≡ some l
      → is_known id l d ≡ true
      → EmissionSends sink alive (All (IsOther id)) s (emit_shared sink alive outcome ops s d)
  emit_shared-Once alive outcome ops s l d id has known =
      emit_shared-Sends sink alive (All (IsOther id)) outcome ops s l d has (λ found waits stamps.
        let v : View = record { ledger = l; disk = d; origins = found; pending_origins = waits } in
        let v' = refreshed v in
        map-stamped-IsOther id stamps _ (
          passing-IsOther v' ops (waiting v' ops) id
            (ground (arith, known, contains-refreshed id v))))

  flush-indexed :
      (outcome : Write) (s : LedgerSink S) (d : Disk) (id : String)
      → Set.contains id (pending_of s) ≡ true
      → (flush sink outcome s d).0 ≡ ok tt
      → Set.contains id (flush sink outcome s d).2.index.spans ≡ true
  flush-indexed outcome s d id h done =
      subst
        (λ r.
          is_settled id r (pending_of (flush sink outcome s d).1) (flush sink outcome s d).2 ≡ true)
        done (flush-settled sink outcome s d id h)

  -- On files whose index knows no more than their checkpoint and lines, let a flush succeed of a
  -- writer that holds a span as delivered. Whatever emissions, flushes and loads of any writers
  -- follow, failed writes included, an emission by any writer with a ledger hands the inner sink
  -- nothing (the operations that pass are none, or it fails) or one list, whose result is the
  -- emission's and in which every operation of that span has a late-merge key of its own.
  pub flush-Once :
      (outcome later : Write) (s : LedgerSink S) (d e : Disk) (id : String) (alive : String → Bool)
      (ops : List (SpanOp V)) (writer : LedgerSink S) (l : DeliveryLedger)
      → IsCovered d
      → Set.contains id (pending_of s) ≡ true
      → (flush sink outcome s d).0 ≡ ok tt
      → Reach sink (flush sink outcome s d).2 e
      → writer.ledger ≡ some l
      → EmissionSends sink alive
          (All (IsOther id))
          writer
          (emit_shared sink alive later ops writer e)
  flush-Once outcome later s d e id alive ops writer l c h done r has =
      let grown = Reach-Grows sink ((flush-Grows sink outcome s d).covered c) r in
      let indexed = grown.spans id (flush-indexed outcome s d id h done) in
      emit_shared-Once alive later ops writer l e id has (rw indexed (ground arith))

  -- What a flush has written, a load reads back: on files whose index knows no more than their
  -- checkpoint and lines, after a flush that succeeds of a writer that holds a span as delivered, a
  -- load that no failure stops succeeds and has the span in the index, even if the index was
  -- replaced by any other one in between.
  pub flush-load :
      (outcome : Write) (s : LedgerSink S) (d : Disk) (id : String) (lost : OriginIndex)
      → IsCovered d
      → Set.contains id (pending_of s) ≡ true
      → (flush sink outcome s d).0 ≡ ok tt
      → (v : View) × ((load sound (record (flush sink outcome s d).2 { index = lost })).0 ≡ ok v)
        × (Set.contains id v.disk.index.spans ≡ true)
  flush-load outcome s d id lost c h done =
      let e = (flush sink outcome s d).2 in
      let covered =
        (flush-Grows sink outcome s d).covered c id (flush-indexed outcome s d id h done) in
      let ((_, _, rebuilt), (v, loaded, same_disk, _)) =
        load-Rebuilds sound (record e { index = lost }) in
      (v, loaded, rw same_disk (rebuilt id ∙ covered))
