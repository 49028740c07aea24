-- ===== src/Routing/Delivers.antt =====
-- The whole way of a request, from a route to the sink behind its ledger.
use braintrust_coding_agent.Prelude.{
  ℕ, ◌≡◌, refl, ap, ◌∙◌, String, Bool, true, false, List, [], ◌∷◌, Option, some, arith,
}
use braintrust_coding_agent.Collections.{Key, string_key}
use braintrust_coding_agent.Json.{Json}
use braintrust_coding_agent.Span.{SpanOp, row_of}
use braintrust_coding_agent.Translator.{Result, ok, err}
use braintrust_coding_agent.Wire.{SessionConfig}
use braintrust_coding_agent.Processor.{Scripts, Engine}
use braintrust_coding_agent.Processor.Identity.{IsSameSpan}
use braintrust_coding_agent.Prepare
use braintrust_coding_agent.Submission
use braintrust_coding_agent.Submission.{
  Sink, SdkErrors, SubmissionFailure, Outcome, Report, submit, map_err,
}
use braintrust_coding_agent.Routing.{RouteErrors, Routing, emit}
use braintrust_coding_agent.Routing.Complete.{Matches, emit_complete}
use braintrust_coding_agent.Ledger.{Disk, DeliveryLedger}
use braintrust_coding_agent.Ledger.Journal.{Write}
use braintrust_coding_agent.Ledger.Sink.{LedgerSink, configure}
use braintrust_coding_agent.Ledger.Emission.{emit_shared}
use braintrust_coding_agent.Ledger.Stage.{ledger_sink}
use braintrust_coding_agent.Ledger.Sent.{Sends, is_known, failed, idle, sent}
use braintrust_coding_agent.Ledger.Fresh.{asks, is_plain, emit_shared-Fresh}

module _ {V : Type 0} where
  is_plain-same :
      (id : String) (x y : SpanOp V)
      → IsSameSpan (row_of x) (row_of y)
      → is_plain id x ≡ is_plain id y
  is_plain-same id x y kept = rw (kept.span_id, kept.late_merge_key, kept.late_merge_version) refl

  Matches-asks : (id : String) (xs ys : List (SpanOp V)) → Matches xs ys → asks id xs ≡ asks id ys
  Matches-asks id [] [] m = refl
  Matches-asks id (x ∷ xs) (y ∷ ys) m =
      ground (arith, is_plain-same id x y m.1, Matches-asks id xs ys m.2)
  Matches-asks id [] (y ∷ ys) m = absurd m
  Matches-asks id (x ∷ xs) [] m = absurd m

module _ {E D : Type 0} (sdk : SdkErrors E) where
  map_err-ok :
      {A : Type 0} (r : Result E A) (a : A)
      → ◌≡◌ {A = Result (SubmissionFailure E D) A} (map_err sdk r) (ok a)
      → r ≡ ok a
  map_err-ok (ok b) a h = cc h
  map_err-ok (err e) a h = absurd (cc h)

  module _ {S Config Op : Type 0} (sink : Sink S E Config Op) where
    -- what the stage reports as emitted, the sink has accepted
    submit_taken :
        (config : Config) (op : Op) (ops : List Op) (s after : S) (n : ℕ) (state : Report)
        → submit {D = D} sdk sink
            (record { config = config; operation = Submission.emit (op ∷ ops) })
            s
          ≡ (Outcome.emitted (ok n) state, after)
        → sink.emit_shared (op ∷ ops) (sink.configure config s) ≡ (ok n, after)
    unfolding submit
    submit_taken config op ops s after n state h =
        let r = sink.emit_shared (op ∷ ops) (sink.configure config s) in
        let first : Outcome.emitted (map_err sdk r.0) _ ≡ Outcome.emitted (ok n) state =
          ap (λ p. p.0) h in
        let result : r.0 ≡ ok n = map_err-ok r.0 n (cc first) in
        let state_after : r.1 ≡ after = ap (λ p. p.1) h in cc (result, state_after)

module _ {S V Config : Type 0} (sink : Sink S String Config (SpanOp V)) where
  -- an emission that succeeds and was asked for a span has handed it on
  asked_sent :
      (id : String) (ops : List (SpanOp V)) (before after : S) (r : Result String ℕ) (n : ℕ)
      → Sends sink (λ out. asks id out ≡ asks id ops) before r after
      → asks id ops ≡ true
      → r ≡ ok n
      → (out : List (SpanOp V)) × (asks id out ≡ true)
        × (sink.emit_shared out before ≡ (ok n, after))
  asked_sent id ops before after r n (failed e f _) a done = absurd (cc (f, done))
  asked_sent id ops before after r n (idle none_asked _ _) a done = absurd (cc (none_asked, a))
  asked_sent id ops before after r n (sent out same_asks f g) a done =
      (out, same_asks ∙ a, cc (f, g, done))

module _ {S D T : Type 0} (json : Json) (errors : RouteErrors String D) (sdk : SdkErrors String)
    (scripts : Scripts D json.Value)
    (sink : Sink S String (SessionConfig json.Value json.Object T) (SpanOp json.Value))
    ⦃key : Key (Option D)⦄ (alive : String → Bool) (outcome : Write) where
  ledger_delivers :
      (config : SessionConfig json.Value json.Object T) (ops : List (SpanOp json.Value))
      (s after : LedgerSink S × Disk) (l : DeliveryLedger) (n : ℕ) (state : Report) (id : String)
      → s.0.ledger ≡ some l
      → is_known id l s.1 ≡ false
      → asks id ops ≡ true
      → submit {D = D} sdk
          (ledger_sink sink alive outcome)
          (record { config = config; operation = Submission.emit ops })
          s
        ≡ (Outcome.emitted (ok n) state, after)
      → (out : List (SpanOp json.Value)) × (asks id out ≡ true)
        × (sink.emit_shared out (sink.configure config s.0.inner) ≡ (ok n, after.0.inner))
  unfolding configure
  ledger_delivers config [] s after l n state id has fresh a h = absurd (ground (arith, a))
  ledger_delivers config (op ∷ ops) s after l n state id has fresh a h =
      let configured = configure sink.configure config s.0 in
      let r = emit_shared sink alive outcome (op ∷ ops) configured s.1 in
      let taken =
        submit_taken sdk (ledger_sink sink alive outcome) config op ops s after n state h in
      let delivered =
        asked_sent sink id (op ∷ ops) configured.inner r.1.inner r.0 n
          (emit_shared-Fresh sink alive outcome (op ∷ ops) configured l s.1 id has fresh) a
          (ap (λ p. p.0) taken) in
      (delivered.0, delivered.1, delivered.2 ∙ ap (λ p. (ok n, p.1.0.inner)) taken)

  -- A route whose sink has a ledger, and which answers an emission with success, has delivered: if
  -- the prepared operations have one of a span without late-merge key and version, and the writer
  -- does not hold that span, and neither the index nor a line that the writer has not read has it,
  -- the inner sink was called with a list that has such an operation, and its acceptance is the
  -- route's answer.
  pub route_delivers :
      (workers : ℕ → Option (Engine D)) (config : SessionConfig json.Value json.Object T)
      (ops : List (SpanOp json.Value)) (s : Routing (LedgerSink S × Disk) D) (l : DeliveryLedger)
      (n : ℕ) (state : Report) (id : String)
      → (emit json errors sdk scripts (ledger_sink sink alive outcome) workers config ops s).0
        ≡ some (ok n, state)
      → s.sink.0.ledger ≡ some l
      → is_known id l s.sink.1 ≡ false
      → asks id (Prepare.apply_shared json config ops s.prepare).0 ≡ true
      → (let after =
            (emit json errors sdk scripts
              (ledger_sink sink alive outcome)
              workers
              config
              ops
              s).1 in
          (out : List (SpanOp json.Value)) × (asks id out ≡ true)
          × (sink.emit_shared out (sink.configure config s.sink.0.inner)
              ≡ (ok n, after.sink.0.inner)))
  route_delivers workers config ops s l n state id h has fresh a =
      let whole =
        emit_complete json errors sdk scripts (ledger_sink sink alive outcome) workers config ops s
          n state h in
      ledger_delivers config whole.0 s.sink _ l n state id has fresh
        (Matches-asks id whole.0 (Prepare.apply_shared json config ops s.prepare).0 whole.1 ∙ a)
        whole.2
