-- ===== src/Ledger/Emission.antt =====
-- `LedgerSink::emit_shared` and `LedgerSink::flush`.
use braintrust_coding_agent.Prelude.{
  ℕ, String, Bool, List, [], ◌++◌, map, Option, none, some, if◌then◌else◌, is_empty, ltb,
}
use braintrust_coding_agent.Collections.{string_key}
use braintrust_coding_agent.Collections.Map.{keys}
use braintrust_coding_agent.Span.{SpanOp, span_id_of}
use braintrust_coding_agent.Translator.{Result, ok, err}
use braintrust_coding_agent.Submission.{Sink}
use braintrust_coding_agent.Ledger.{empty_file, Disk, DeliveryLedger}
use braintrust_coding_agent.Ledger.Index.{find, completed}
use braintrust_coding_agent.Ledger.Versions.{remember_versions}
use braintrust_coding_agent.Ledger.Journal.{Origins, View, Write, refresh, append, commit}
use braintrust_coding_agent.Ledger.Delivered.{record_emitted}
use braintrust_coding_agent.Ledger.Sink.{
  LedgerSink, Births, cached, keys_of, filtered, stamped, remember_origins, births, settle_saved,
  forget_known,
}

abbrev pub Flush : Type 0 → Type 0
Flush S = Result String (Unit {0}) × LedgerSink S × Disk

module _ {S : Type 0} where
  abbrev put : LedgerSink S → DeliveryLedger → Origins → LedgerSink S
  put s l pending = record s { ledger = some l; pending_origins = pending }

  abbrev commit_view : Write → LedgerSink S → View → Result String (Unit {0}) × LedgerSink S × Disk
  commit_view outcome s v =
      let (result, l, d) = commit outcome v.ledger v.disk in (result, put s l v.pending_origins, d)

  unfoldable pub flush_ledger : Write → DeliveryLedger → LedgerSink S → Disk → Flush S
  flush_ledger outcome l s d =
      elim (refresh
        (record { ledger = l; disk = d; origins = []; pending_origins = s.pending_origins })) [
          | err e ↦ (err e, s, d)
          | ok v ↦ commit_view outcome s v
        ]

  abbrev pub flush_rest : Write → Option DeliveryLedger → LedgerSink S → Disk → Flush S
  flush_rest outcome none s d = (ok tt, s, d)
  flush_rest outcome (some l) s d = flush_ledger outcome l s d

module _ {V : Type 0} where
  abbrev pub asked_spans : List (SpanOp V) → Origins → List String
  asked_spans ops pending = map span_id_of ops ++ keys pending

  -- what passes, by the writer's own record and the index that the writers share
  unfoldable pub passing : View → List (SpanOp V) → Origins → List (SpanOp V)
  passing v ops pending =
      filtered v.ledger (completed (asked_spans ops pending) v.disk.index.spans)
        (completed (keys_of ops) v.disk.index.late_merges)
        (remember_versions v.ledger.known_versions v.ledger.pending_versions) ops

  -- the waiting origins that the index is asked about
  abbrev pub waiting : View → List (SpanOp V) → Origins
  waiting v ops =
      (settle_saved (find (map span_id_of ops) v.disk.index) (v.origins, v.pending_origins)).1

module _ {S V : Type 0} where
  unfoldable pub settled : View → List (SpanOp V) → LedgerSink S → Births
  settled v ops s =
      let (origins, pending) =
        settle_saved (find (map span_id_of ops) v.disk.index) (v.origins, v.pending_origins) in
      forget_known (completed (asked_spans ops pending) v.disk.index.spans) pending
        (record { origins = origins; pending = pending; cache = s.span_origins })

  module _ {Config : Type 0} (sink : Sink S String Config (SpanOp V)) (alive : String → Bool) where
    abbrev pub Emission : Type 0
    Emission = Result String ℕ × LedgerSink S × Disk

    abbrev pub map_ledger :
        (DeliveryLedger → DeliveryLedger) → Option DeliveryLedger → Option DeliveryLedger
    map_ledger f none = none
    map_ledger f (some l) = some (f l)

    abbrev pub delivered : List (SpanOp V) → Result String ℕ → LedgerSink S → LedgerSink S
    delivered ops (err e) s = s
    delivered ops (ok emitted) s =
        if ltb 0 emitted then record s { ledger = map_ledger (record_emitted ops) s.ledger } else s

    -- from the release of the lock on
    unfoldable pub deliver : List (SpanOp V) → LedgerSink S → Disk → Emission
    deliver ops s d =
        let (result, inner) = sink.emit_shared ops s.inner in
        (
          result,
          delivered ops result (record s {
            inner = inner;
            span_origins = remember_origins alive ops s.span_origins;
          }),
          d,
        )

    -- births are written before the operations go out
    unfoldable pub persist :
        Write → DeliveryLedger → List (SpanOp V) → LedgerSink S → Disk → Emission
    persist outcome l ops s d =
        if is_empty s.pending_origins
        then deliver ops (record s { ledger = some l }) d
        else let (result, d') =
            append outcome (record empty_file { span_origins = s.pending_origins }) l d in
          elim result [
            | err e ↦ (err e, record s { ledger = some l }, d')
            | ok l' ↦ deliver ops (record s { ledger = some l'; pending_origins = [] }) d'
          ]

    unfoldable pub send : Write → View → Origins → List (SpanOp V) → LedgerSink S → Emission
    send outcome v origins out s =
        if is_empty out
        then (ok 0, s, v.disk)
        else persist outcome v.ledger (map (stamped origins) out) s v.disk

    unfoldable pub emit_locked : Write → View → List (SpanOp V) → LedgerSink S → Emission
    emit_locked outcome v ops s =
        let b = settled v ops s in
        send outcome v b.origins (passing v ops (waiting v ops))
          (record s { ledger = some v.ledger; pending_origins = b.pending; span_origins = b.cache })

    unfoldable pub emit_ledger :
        Write → DeliveryLedger → List (SpanOp V) → Origins → LedgerSink S → Disk → Emission
    emit_ledger outcome l ops origins s d =
        elim (refresh (record {
          ledger = l;
          disk = d;
          origins = origins;
          pending_origins = s.pending_origins;
        })) [ err e ↦ (err e, s, d) | ok v ↦ emit_locked outcome v ops s ]

    abbrev pub emit_born :
        Write → Option DeliveryLedger → List (SpanOp V) → Origins → LedgerSink S → Disk → Emission
    emit_born outcome none ops origins s d =
        deliver (map (stamped origins) ops) (record s { pending_origins = [] }) d
    emit_born outcome (some l) ops origins s d = emit_ledger outcome l ops origins s d

    unfoldable pub emit_shared : Write → List (SpanOp V) → LedgerSink S → Disk → Emission
    emit_shared outcome ops s d =
        let (hits, cache) = cached alive ops s.span_origins [] in
        let (origins, s') = births ops (record s { span_origins = cache }) hits in
        if is_empty ops then (ok 0, s, d) else emit_born outcome s'.ledger ops origins s' d

  unfoldable pub flush :
      {Config : Type 0} → Sink S String Config (SpanOp V) → Write → LedgerSink S → Disk → Flush S
  flush sink outcome s d =
      let (result, inner) = sink.flush s.inner in
      let s' = record s { inner = inner } in
      elim result [ err e ↦ (err e, s', d) | ok _ ↦ flush_rest outcome s.ledger s' d ]
