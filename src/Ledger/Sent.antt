-- ===== src/Ledger/Sent.antt =====
-- What an emission hands to the inner sink.
use mathlib.Core.Path.{subst}
use braintrust_coding_agent.Prelude.{
  ℕ, ◌≡◌, refl, ◌∙◌, String, Bool, ◌||◌, List, [], ◌∷◌, drop, map, Option, some, is_empty, ltb,
  arith, Bool-cases, inl, inr,
}
use braintrust_coding_agent.Collections.{string_key}
use braintrust_coding_agent.Collections.Set
use braintrust_coding_agent.Span.{SpanOp}
use braintrust_coding_agent.Translator.{Result, ok, err}
use braintrust_coding_agent.Submission.{Sink}
use braintrust_coding_agent.Ledger.{empty_file, Disk, DeliveryLedger}
use braintrust_coding_agent.Ledger.Index.{remember}
use braintrust_coding_agent.Ledger.Journal.{start, unread, Origins, View, Write, append}
use braintrust_coding_agent.Ledger.Sink.{
  LedgerSink, filtered, remember_origins, stamped, born, births, cached,
}
use braintrust_coding_agent.Ledger.Emission.{
  Emission, passing, waiting, deliver, delivered, persist, send, emit_locked, emit_ledger,
  emit_born, emit_shared,
}
use braintrust_coding_agent.Ledger.Growth.{completes, contains-read_lines, refreshed, refresh-cases}
use braintrust_coding_agent.Translator.{Result-cases}

-- A writer takes the span for delivered: it holds it, or the index has it, or a line that it has
-- not read.
abbrev pub is_known : String → DeliveryLedger → Disk → Bool
is_known id l d =
    Set.contains id l.pending
    || (Set.contains id d.index.spans || completes id (drop l.journal_len d.lines))

pub contains-refreshed :
    (id : String) (v : View)
    → Set.contains id (refreshed v).disk.index.spans ≡ (
        Set.contains id v.disk.index.spans || completes id (drop v.ledger.journal_len v.disk.lines))
unfolding remember
contains-refreshed id v = contains-read_lines id (unread v) (start v)

module _ {S V : Type 0} where
  born-ledger :
      (op : SpanOp V) (s : LedgerSink S) (origins : Origins)
      → ((born op s origins).1.inner ≡ s.inner) × ((born op s origins).1.ledger ≡ s.ledger)
  unfolding born
  born-ledger op s origins = (ground arith, ground arith)

  births-ledger :
      (ops : List (SpanOp V)) (s : LedgerSink S) (origins : Origins)
      → ((births ops s origins).1.inner ≡ s.inner) × ((births ops s origins).1.ledger ≡ s.ledger)
  unfolding births
  births-ledger [] s origins = (refl, refl)
  births-ledger (op ∷ ops) s origins =
      let r = born op s origins in
      let h = births-ledger ops r.1 r.0 in
      let one = born-ledger op s origins in (h.0 ∙ one.0, h.1 ∙ one.1)

module _ {S V Config : Type 0} (sink : Sink S String Config (SpanOp V)) where
  -- What an emission has done to the inner sink: nothing, for a failure or for want of operations,
  -- or one call with operations of which `R` holds, whose result is the emission's.
  pub data Sends (R : List (SpanOp V) → Type 0) (before : S) (r : Result String ℕ) (after : S)
      : Type 0 where
    failed : (e : String) → r ≡ err e → after ≡ before → Sends R before r after
    idle : R [] → r ≡ ok 0 → after ≡ before → Sends R before r after
    sent :
        (out : List (SpanOp V))
        → R out
        → r ≡ (sink.emit_shared out before).0
        → after ≡ (sink.emit_shared out before).1
        → Sends R before r after

  module _ (alive : String → Bool) where
    delivered-inner :
        (ops : List (SpanOp V)) (r : Result String ℕ) (s : LedgerSink S)
        → (delivered sink alive ops r s).inner ≡ s.inner
    delivered-inner ops (err e) s = refl
    delivered-inner ops (ok n) s = elim (Bool-cases (ltb 0 n)) [
      | inl some_out ↦ rw some_out refl
      | inr no_out ↦ rw no_out refl
    ]

    module _ (R : List (SpanOp V) → Type 0) where
      -- what `Sends` says of an emission by the writer `s`
      abbrev pub EmissionSends : LedgerSink S → Emission sink alive → Type 0
      EmissionSends s r = Sends R s.inner r.0 r.1.inner

      deliver-Sends :
          (ops : List (SpanOp V)) (s : LedgerSink S) (d : Disk)
          → R ops
          → EmissionSends s (deliver sink alive ops s d)
      unfolding deliver
      deliver-Sends ops s d h =
          let out = sink.emit_shared ops s.inner in
          sent ops h refl (
            delivered-inner ops out.0 (record s {
              inner = out.1;
              span_origins = remember_origins alive ops s.span_origins;
            }))

      persist-Sends :
          (outcome : Write) (l : DeliveryLedger) (ops : List (SpanOp V)) (s : LedgerSink S)
          (d : Disk)
          → R ops
          → EmissionSends s (persist sink alive outcome l ops s d)
      unfolding persist
      persist-Sends outcome l ops s d h = elim (Bool-cases (is_empty s.pending_origins)) [
        | inl nothing ↦ rw nothing (deliver-Sends ops (record s { ledger = some l }) d h)
        | inr births ↦
            let update = record empty_file { span_origins = s.pending_origins } in
            elim (Result-cases (append outcome update l d).0) [
              | inl (e, refused) ↦ rw (births, refused) (failed e refl refl)
              | inr (l', done) ↦
                  rw (births, done)
                    (deliver-Sends ops (record s { ledger = some l'; pending_origins = [] }) _ h)
            ]
      ]

      send-Sends :
          (outcome : Write) (v : View) (origins : Origins) (out : List (SpanOp V))
          (s : LedgerSink S)
          → R (map (stamped origins) out)
          → EmissionSends s (send sink alive outcome v origins out s)
      unfolding send
      send-Sends outcome v origins [] s h = idle h refl refl
      send-Sends outcome v origins (op ∷ out) s h = persist-Sends outcome v.ledger _ s v.disk h

      -- `R` of what the writer `l` passes on of the operations once it has read the journal
      abbrev pub Selects : DeliveryLedger → Disk → List (SpanOp V) → Type 0
      Selects l d ops =
          (found waits stamps : Origins)
          → (let v : View =
                refreshed
                  (record { ledger = l; disk = d; origins = found; pending_origins = waits }) in
              R (map (stamped stamps) (passing v ops (waiting v ops))))

      emit_ledger-Sends :
          (outcome : Write) (l : DeliveryLedger) (ops : List (SpanOp V)) (origins : Origins)
          (s : LedgerSink S) (d : Disk)
          → Selects l d ops
          → EmissionSends s (emit_ledger sink alive outcome l ops origins s d)
      unfolding emit_ledger emit_locked
      emit_ledger-Sends outcome l ops origins s d h =
          let v : View = record {
            ledger = l;
            disk = d;
            origins = origins;
            pending_origins = s.pending_origins;
          } in
          elim (refresh-cases v) [
            | inl (e, short) ↦ rw (short, emit_ledger) (failed e refl refl)
            | inr read ↦
                let v' = refreshed v in
                rw (read, emit_ledger)
                  (send-Sends outcome v' _ (passing v' ops (waiting v' ops)) _
                    (h origins s.pending_origins _))
          ]

      emit_born-Sends :
          (outcome : Write) (lo : Option DeliveryLedger) (l : DeliveryLedger)
          (ops : List (SpanOp V)) (origins : Origins) (before : S) (s : LedgerSink S) (d : Disk)
          → lo ≡ some l
          → s.inner ≡ before
          → Selects l d ops
          → (let r = emit_born sink alive outcome lo ops origins s d in
              Sends R before r.0 r.1.inner)
      emit_born-Sends outcome lo l ops origins before s d has at_first h =
          subst
            (λ b.
              let r = emit_born sink alive outcome lo ops origins s d in Sends R b r.0 r.1.inner)
            at_first (rw has (emit_ledger-Sends outcome l ops origins s d h))

      pub emit_shared-Sends :
          (outcome : Write) (ops : List (SpanOp V)) (s : LedgerSink S) (l : DeliveryLedger)
          (d : Disk)
          → s.ledger ≡ some l
          → Selects l d ops
          → EmissionSends s (emit_shared sink alive outcome ops s d)
      unfolding emit_shared passing filtered
      emit_shared-Sends outcome [] s l d has h = idle (h [] [] []) refl refl
      emit_shared-Sends outcome (op ∷ ops) s l d has h =
          let found = cached alive (op ∷ ops) s.span_origins [] in
          let same_state = births-ledger (op ∷ ops) (record s { span_origins = found.1 }) found.0 in
          emit_born-Sends outcome _ l (op ∷ ops) _ s.inner _ d (same_state.1 ∙ has) same_state.0 h
