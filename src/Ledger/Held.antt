-- ===== src/Ledger/Held.antt =====
-- What a writer holds after a delivery, and what it passes on.
use braintrust_coding_agent.Prelude.{
  ◌≡◌, ℕ, refl, ap, ◌∙◌, String, Bool, true, false, ◌&&◌, ◌||◌, List, [], ◌∷◌, Option, none, some,
  is_some, ltb, arith, Bool-cases, inl, inr,
}
use braintrust_coding_agent.Collections.{string_key, same}
use braintrust_coding_agent.Collections.Set
use braintrust_coding_agent.Span.{LateMergeVersion, SpanOp, row_of, span_id_of}
use braintrust_coding_agent.Translator.{ok}
use braintrust_coding_agent.Submission.{Sink}
use braintrust_coding_agent.Ledger.{Disk, DeliveryLedger}
use braintrust_coding_agent.Ledger.Delivered.{
  record_version, record_end, record_merge, record_op, record_emitted,
}
use braintrust_coding_agent.Ledger.Sink.{LedgerSink}
use braintrust_coding_agent.Ledger.Emission.{deliver}

abbrev pub held : Option DeliveryLedger → List String
held none = []
held (some l) = l.pending

-- the spans that a writer has delivered, and not yet written as delivered
abbrev pub pending_of : {S : Type 0} → LedgerSink S → List String
pending_of s = held s.ledger

record_version-pending :
    (v : Option LateMergeVersion) (span : String) (l : DeliveryLedger)
    → (record_version v span l).pending ≡ l.pending
record_version-pending none span l = refl
record_version-pending (some v) span l = refl

record_merge-pending :
    (key : Option String) (span : String) (l : DeliveryLedger)
    → (record_merge key span l).pending ≡ l.pending
record_merge-pending none span l = refl
record_merge-pending (some key) span l = refl

record_end-pending :
    (id : String) (ended : Bool) (span : String) (l : DeliveryLedger)
    → Set.contains id (record_end ended span l).pending
      ≡ (Set.contains id l.pending || (ended && same span id))
record_end-pending id true span l = ground (arith, Set.contains-insert id span l.pending)
record_end-pending id false span l = ground arith

module _ {V : Type 0} where
  -- an operation of the list ends the span
  abbrev pub ends : String → List (SpanOp V) → Bool
  ends id [] = false
  ends id (op ∷ ops) = (is_some (row_of op).end_ms && same (span_id_of op) id) || ends id ops

  record_op-pending :
      (id : String) (op : SpanOp V) (l : DeliveryLedger)
      → Set.contains id (record_op op l).pending
        ≡ (Set.contains id l.pending || (is_some (row_of op).end_ms && same (span_id_of op) id))
  unfolding record_op
  record_op-pending id op l =
      let row = row_of op in
      let first = record_version row.late_merge_version row.span_id l in
      ap (Set.contains id) (
        record_merge-pending row.late_merge_key row.span_id
          (record_end (is_some row.end_ms) row.span_id first))
      ∙ ground (
        arith,
        record_end-pending id (is_some row.end_ms) row.span_id first,
        record_version-pending row.late_merge_version row.span_id l,
      )

  record_emitted-pending :
      (id : String) (ops : List (SpanOp V)) (l : DeliveryLedger)
      → Set.contains id (record_emitted ops l).pending ≡ (Set.contains id l.pending || ends id ops)
  unfolding record_emitted
  record_emitted-pending id [] l = ground arith
  record_emitted-pending id (op ∷ ops) l =
      ground (arith, record_emitted-pending id ops (record_op op l), record_op-pending id op l)

module _ {S V Config : Type 0} (sink : Sink S String Config (SpanOp V))
    (alive : String → Bool) where
  -- After a delivery that the inner sink accepts, the writer holds as delivered what it held and,
  -- if the sink counts at least one operation, the spans that the operations end, and no others.
  deliver-pending :
      (ops : List (SpanOp V)) (s : LedgerSink S) (l : DeliveryLedger) (d : Disk) (n : ℕ)
      (id : String)
      → s.ledger ≡ some l
      → (sink.emit_shared ops s.inner).0 ≡ ok n
      → Set.contains id (pending_of (deliver sink alive ops s d).1)
        ≡ (Set.contains id l.pending || (ltb 0 n && ends id ops))
  unfolding deliver
  deliver-pending ops s l d n id has sent =
      rw (has, sent)
        (elim (Bool-cases (ltb 0 n)) [
          | inl some_out ↦ rw some_out (record_emitted-pending id ops l)
          | inr no_out ↦ rw no_out (ground arith)
        ])
