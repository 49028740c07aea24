-- ===== src/Ledger/Steps.antt =====
-- The steps that any writers take on shared files, in any order.
use braintrust_coding_agent.Prelude.{
  ◌≡◌, refl, String, Bool, List, [], ◌∷◌, Option, none, some, is_empty, length, Bool-cases, inl,
  inr,
}
use braintrust_coding_agent.Collections.{string_key}
use braintrust_coding_agent.Span.{SpanOp}
use braintrust_coding_agent.Translator.{Result-cases}
use braintrust_coding_agent.Submission.{Sink}
use braintrust_coding_agent.Ledger.{empty_file, Disk, DeliveryLedger}
use braintrust_coding_agent.Ledger.Journal.{Origins, View, Write, Loading, append, load}
use braintrust_coding_agent.Ledger.Sink.{LedgerSink, births}
use braintrust_coding_agent.Ledger.Emission.{
  deliver, persist, send, emit_locked, emit_ledger, emit_born, emit_shared, flush_ledger,
  flush_rest, flush,
}
use braintrust_coding_agent.Ledger.Growth.{
  refreshed, refresh-cases, Grows, Grows-refl, Grows-trans, IsCovered, after_reading-Grows,
  append-Grows, commit-Grows,
}
use braintrust_coding_agent.Ledger.Rebuild.{load-Grows}

module _ {S V Config : Type 0} (sink : Sink S String Config (SpanOp V)) where
  module _ (alive : String → Bool) where
    persist-Grows :
        (outcome : Write) (l : DeliveryLedger) (ops : List (SpanOp V)) (s : LedgerSink S) (d : Disk)
        → l.journal_len ≡ length d.lines
        → Grows d (persist sink alive outcome l ops s d).2
    unfolding persist deliver
    persist-Grows outcome l ops s d e = elim (Bool-cases (is_empty s.pending_origins)) [
      | inl nothing ↦ rw nothing (Grows-refl d)
      | inr births ↦
          let update = record empty_file { span_origins = s.pending_origins } in
          elim (Result-cases (append outcome update l d).0) [
            | inl (_, failed) ↦ rw (births, failed) (append-Grows outcome update l d e)
            | inr (_, done) ↦ rw (births, done) (append-Grows outcome update l d e)
          ]
    ]

    send-Grows :
        (outcome : Write) (v : View) (origins : Origins) (out : List (SpanOp V)) (s : LedgerSink S)
        → v.ledger.journal_len ≡ length v.disk.lines
        → Grows v.disk (send sink alive outcome v origins out s).2
    unfolding send
    send-Grows outcome v origins [] s e = Grows-refl v.disk
    send-Grows outcome v origins (op ∷ out) s e = persist-Grows outcome v.ledger _ s v.disk e

    emit_ledger-Grows :
        (outcome : Write) (l : DeliveryLedger) (ops : List (SpanOp V)) (origins : Origins)
        (s : LedgerSink S) (d : Disk)
        → Grows d (emit_ledger sink alive outcome l ops origins s d).2
    unfolding emit_ledger emit_locked
    emit_ledger-Grows outcome l ops origins s d =
        let v : View = record {
          ledger = l;
          disk = d;
          origins = origins;
          pending_origins = s.pending_origins;
        } in
        elim (refresh-cases v) [
          | inl (_, short) ↦ rw (short, emit_ledger) (Grows-refl d)
          | inr read ↦
              rw (read, emit_ledger)
                (Grows-trans (after_reading-Grows v) (send-Grows outcome (refreshed v) _ _ _ refl))
        ]

    emit_born-Grows :
        (outcome : Write) (l : Option DeliveryLedger) (ops : List (SpanOp V)) (origins : Origins)
        (s : LedgerSink S) (d : Disk)
        → Grows d (emit_born sink alive outcome l ops origins s d).2
    unfolding deliver
    emit_born-Grows outcome none ops origins s d = Grows-refl d
    emit_born-Grows outcome (some l) ops origins s d = emit_ledger-Grows outcome l ops origins s d

    emit_shared-Grows :
        (outcome : Write) (ops : List (SpanOp V)) (s : LedgerSink S) (d : Disk)
        → Grows d (emit_shared sink alive outcome ops s d).2
    unfolding emit_shared
    emit_shared-Grows outcome [] s d = Grows-refl d
    emit_shared-Grows outcome (op ∷ ops) s d = emit_born-Grows outcome _ (op ∷ ops) _ _ d

module _ {S : Type 0} where
  flush_ledger-Grows :
      (outcome : Write) (l : DeliveryLedger) (s : LedgerSink S) (d : Disk)
      → Grows d (flush_ledger outcome l s d).2
  unfolding flush_ledger
  flush_ledger-Grows outcome l s d =
      let v : View = record {
        ledger = l;
        disk = d;
        origins = [];
        pending_origins = s.pending_origins;
      } in
      elim (refresh-cases v) [
        | inl (_, short) ↦ rw (short, flush_ledger) (Grows-refl d)
        | inr read ↦
            rw (read, flush_ledger)
              (Grows-trans (after_reading-Grows v)
                (commit-Grows outcome (refreshed v).ledger (refreshed v).disk refl))
      ]

  flush_rest-Grows :
      (outcome : Write) (l : Option DeliveryLedger) (s : LedgerSink S) (d : Disk)
      → Grows d (flush_rest outcome l s d).2
  flush_rest-Grows outcome none s d = Grows-refl d
  flush_rest-Grows outcome (some l) s d = flush_ledger-Grows outcome l s d

module _ {S V Config : Type 0} (sink : Sink S String Config (SpanOp V)) where
  pub flush-Grows :
      (outcome : Write) (s : LedgerSink S) (d : Disk) → Grows d (flush sink outcome s d).2
  unfolding flush
  flush-Grows outcome s d = elim (Result-cases (sink.flush s.inner).0) [
    | inl (_, failed) ↦ rw (failed, flush) (Grows-refl d)
    | inr (_, done) ↦ rw (done, flush) (flush_rest-Grows outcome s.ledger _ d)
  ]

  -- A step of a writer on the files, the writer being in any state.
  pub data Step (d e : Disk) : Type 0 where
    emits :
        (alive : String → Bool) (outcome : Write) (ops : List (SpanOp V)) (s : LedgerSink S)
        → e ≡ (emit_shared sink alive outcome ops s d).2
        → Step d e
    flushes : (outcome : Write) (s : LedgerSink S) → e ≡ (flush sink outcome s d).2 → Step d e
    loads : (loading : Loading) → e ≡ (load loading d).1 → Step d e

  pub data Reach (d : Disk) : Disk → Type 0 where
    here : Reach d d
    next : {e f : Disk} → Reach d e → Step e f → Reach d f

  Step-Grows : {d e : Disk} → IsCovered d → Step d e → Grows d e
  Step-Grows {d} c (emits alive outcome ops s p) =
      rw p (emit_shared-Grows sink alive outcome ops s d)
  Step-Grows {d} c (flushes outcome s p) = rw p (flush-Grows outcome s d)
  Step-Grows {d} c (loads loading p) = rw p (load-Grows loading d c)

  -- On files whose index knows no more than their checkpoint and lines, emissions, flushes and
  -- loads of any writers, failed writes and loads included, keep that invariant, take no line and
  -- no span of the index away, and leave the checkpoint as it is.
  pub Reach-Grows : {d e : Disk} → IsCovered d → Reach d e → Grows d e
  Reach-Grows {d} c here = Grows-refl d
  Reach-Grows c (next r st) = let g = Reach-Grows c r in Grows-trans g (Step-Grows (g.covered c) st)
