-- ===== src/Ledger/Fresh.antt =====
-- A span that is not known to be delivered is not held back.
use braintrust_coding_agent.Prelude.{
  ◌≡◌, refl, ap, ◌∙◌, String, Bool, true, false, not, ◌&&◌, ◌||◌, List, [], ◌∷◌, map, some, is_some,
  All, arith, Bool-cases, inl, inr,
}
use braintrust_coding_agent.Collections.{string_key, string_dec, same}
use braintrust_coding_agent.Collections.Set
use braintrust_coding_agent.Span.{LateMergeVersion, SpanOp, insert, merge, row_of, span_id_of}
use braintrust_coding_agent.Submission.{Sink}
use braintrust_coding_agent.Ledger.{Disk, DeliveryLedger}
use braintrust_coding_agent.Ledger.Delivered.{should_emit}
use braintrust_coding_agent.Ledger.Journal.{Origins, View, Write}
use braintrust_coding_agent.Ledger.Sink.{LedgerSink, filtered, passes, advance, stamped}
use braintrust_coding_agent.Ledger.Emission.{passing, emit_shared, waiting}
use braintrust_coding_agent.Ledger.Growth.{refreshed}
use braintrust_coding_agent.Ledger.Suppressed.{passing-All}
use braintrust_coding_agent.Ledger.Sent.{
  EmissionSends, is_known, contains-refreshed, emit_shared-Sends,
}

module _ {V : Type 0} where
  -- an update of the span without a key of its own and without a version
  abbrev pub is_plain : String → SpanOp V → Bool
  is_plain id op =
      same (span_id_of op) id
      && not (is_some (row_of op).late_merge_key)
      && not (is_some (row_of op).late_merge_version)

  abbrev pub asks : String → List (SpanOp V) → Bool
  asks id [] = false
  asks id (op ∷ ops) = is_plain id op || asks id ops

  stamped-is_plain :
      (id : String) (origins : Origins) (op : SpanOp V)
      → is_plain id (stamped origins op) ≡ is_plain id op
  stamped-is_plain id origins (insert row) = refl
  stamped-is_plain id origins (merge row) = refl

  asks-map-stamped :
      (id : String) (origins : Origins) (ops : List (SpanOp V))
      → asks id (map (stamped origins) ops) ≡ asks id ops
  asks-map-stamped id origins [] = refl
  asks-map-stamped id origins (op ∷ ops) =
      ground (arith, stamped-is_plain id origins op, asks-map-stamped id origins ops)

  passes-plain :
      (l : DeliveryLedger) (known merges table : List String)
      (versions : List (String × LateMergeVersion)) (id : String) (op : SpanOp V)
      → Set.contains (span_id_of op) known ≡ Set.contains (span_id_of op) table
      → Set.contains id l.pending || Set.contains id table ≡ false
      → is_plain id op ≡ true
      → passes l known merges versions op ≡ true
  unfolding passes should_emit
  passes-plain l known merges table versions id op e k plain =
      elim (string_dec (span_id_of op) id) [
        | no n ↦ absurd (ground (arith, n, plain))
        | yes same_id ↦ ground (arith, e, k, plain, same_id)
      ]

  filtered-asks :
      (l : DeliveryLedger) (known merges table : List String)
      (versions : List (String × LateMergeVersion)) (id : String) (ops : List (SpanOp V))
      → All (λ op. Set.contains (span_id_of op) known ≡ Set.contains (span_id_of op) table) ops
      → Set.contains id l.pending || Set.contains id table ≡ false
      → asks id (filtered l known merges versions ops) ≡ asks id ops
  unfolding filtered
  filtered-asks l known merges table versions id [] e k = refl
  filtered-asks l known merges table versions id (op ∷ ops) e k =
      elim (Bool-cases (passes l known merges versions op)) [
        | inl kept ↦ rw kept (
            ap (λ b. is_plain id op || b)
              (filtered-asks l known merges table
                (advance (span_id_of op) (row_of op).late_merge_version versions) id ops e.1 k))
        | inr dropped ↦ rw dropped (
            ground (
              arith,
              dropped,
              passes-plain l known merges table versions id op e.0 k,
              filtered-asks l known merges table versions id ops e.1 k,
            ))
      ]

  passing-asks :
      (v : View) (ops : List (SpanOp V)) (pending : Origins) (id : String)
      → Set.contains id v.ledger.pending || Set.contains id v.disk.index.spans ≡ false
      → asks id (passing v ops pending) ≡ asks id ops
  unfolding passing
  passing-asks v ops pending id k =
      filtered-asks v.ledger _ _ v.disk.index.spans _ id ops (passing-All v ops pending) k

module _ {S V Config : Type 0} (sink : Sink S String Config (SpanOp V)) where
  -- No span is held back by mistake: if the writer does not hold the span, and neither the index
  -- nor a line that the writer has not read has it, an emission fails before it reaches the inner
  -- sink, or what it hands on has an operation of the span without late-merge key and version
  -- exactly if what it was given has one.
  pub emit_shared-Fresh :
      (alive : String → Bool) (outcome : Write) (ops : List (SpanOp V)) (s : LedgerSink S)
      (l : DeliveryLedger) (d : Disk) (id : String)
      → s.ledger ≡ some l
      → is_known id l d ≡ false
      → EmissionSends sink alive
          (λ out. asks id out ≡ asks id ops)
          s
          (emit_shared sink alive outcome ops s d)
  emit_shared-Fresh alive outcome ops s l d id has fresh =
      emit_shared-Sends sink alive (λ out. asks id out ≡ asks id ops) outcome ops s l d has
        (λ found waits stamps.
          let v : View = record {
            ledger = l;
            disk = d;
            origins = found;
            pending_origins = waits;
          } in
          let v' = refreshed v in
          asks-map-stamped id stamps (passing v' ops (waiting v' ops))
          ∙ passing-asks v' ops (waiting v' ops) id
              (ground (arith, fresh, contains-refreshed id v)))
