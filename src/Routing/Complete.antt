-- ===== src/Routing/Complete.antt =====
-- A request that a route reports as emitted has reached the sink in full.
use mathlib.Core.Path.{subst}
use braintrust_coding_agent.Prelude.{
  ℕ, suc, ◌≡◌, refl, ap, String, Bool, List, [], ◌∷◌, ◌++◌, Option, none, some,
}
use mathlib.Core.List.{append-nil, append_assoc}
use braintrust_coding_agent.Collections.{Key}
use braintrust_coding_agent.Json.{Json}
use braintrust_coding_agent.Span.{SpanOp, row_of, is_insert}
use braintrust_coding_agent.Translator.{Result, ok, err}
use braintrust_coding_agent.Wire.{SessionConfig}
use braintrust_coding_agent.Processor.{Scripts, Engine}
use braintrust_coding_agent.Processor.Identity.{IsSameSpan, IsSameSpan-refl}
use braintrust_coding_agent.Plugins
use braintrust_coding_agent.Plugins.{
  Plugins, PluginOutcome, prepared, filtered, failed, unavailable,
}
use braintrust_coding_agent.Plugins.Held.{Answers, process-Answers}
use braintrust_coding_agent.Prepare
use braintrust_coding_agent.Recovery.{RetryCondition, RouteFailure}
use braintrust_coding_agent.Submission
use braintrust_coding_agent.Submission.{Sink, SdkErrors, SubmissionFailure, Outcome, Report, submit}
use braintrust_coding_agent.Routing.{
  RouteErrors, Batch, Routing, collect, prepare_op, prepare_ops, prepared_batch, answer,
  emit_response, emit,
}

module _ {V : Type 0} where
  -- the same operations in the same order, but for what plugins may change of their rows
  abbrev pub Matches : List (SpanOp V) → List (SpanOp V) → Type 0
  Matches [] [] = Unit
  Matches (x ∷ xs) (y ∷ ys) =
      (is_insert x ≡ is_insert y) × IsSameSpan (row_of x) (row_of y) × Matches xs ys
  Matches _ _ = ⊥

  Matches-append :
      (xs ys : List (SpanOp V)) (x y : SpanOp V)
      → Matches xs ys
      → is_insert x ≡ is_insert y
      → IsSameSpan (row_of x) (row_of y)
      → Matches (xs ++ x ∷ []) (ys ++ y ∷ [])
  Matches-append [] [] x y h i kept = (i, kept, tt)
  Matches-append (a ∷ xs) (b ∷ ys) x y h i kept = (h.0, h.1, Matches-append xs ys x y h.2 i kept)
  Matches-append [] (b ∷ ys) x y h i kept = absurd h
  Matches-append (a ∷ xs) [] x y h i kept = absurd h

-- `T`, unless there is a failure
abbrev Unless : {X : Type 0} → Option X → Type 0 → Type 0
Unless none T = T
Unless (some _) T = Unit

unless_pair : {X S T : Type 0} (o : Option X) → Unless o S → (S → T) → Unless o T
unless_pair none s f = f s
unless_pair (some _) s f = tt

module _ {E D V : Type 0} (errors : RouteErrors E D) where
  collect-Matches :
      (op : SpanOp V) (outcome : PluginOutcome D V) (done : List (SpanOp V)) (b : Batch E D V)
      → Answers op outcome
      → Unless b.failure (Matches b.prepared done)
      → (let c = collect errors outcome b in
          Unless c.failure (Matches c.prepared (done ++ op ∷ [])))
  unfolding collect
  collect-Matches op (prepared op') done b (i, kept) h =
      unless_pair b.failure h (λ m. Matches-append b.prepared done op' op m i kept)
  collect-Matches op filtered done b never h = absurd never
  collect-Matches op (failed rejected) done b _ h = tt
  collect-Matches op (unavailable error) done b _ h = tt

  module _ (scripts : Scripts D V) ⦃key : Key (Option D)⦄ where
    prepare_op-Matches :
        (paths : List String) (slot : Option (Engine D)) (op : SpanOp V) (done : List (SpanOp V))
        (b : Batch E D V)
        → Unless b.failure (Matches b.prepared done)
        → (let c = prepare_op errors scripts paths slot op b in
            Unless c.failure (Matches c.prepared (done ++ op ∷ [])))
    unfolding prepare_op
    prepare_op-Matches [] slot op done b h =
        unless_pair b.failure h
          (λ m. Matches-append b.prepared done op op m refl (IsSameSpan-refl (row_of op)))
    prepare_op-Matches (path ∷ paths) slot op done b h =
        let run = Plugins.process scripts op b.plugins slot in
        collect-Matches op run.0 done (record b { plugins = run.1 })
          (process-Answers scripts op b.plugins slot) h

    prepare_ops-Matches :
        (paths : List String) (workers : ℕ → Option (Engine D)) (k : ℕ) (ops done : List (SpanOp V))
        (b : Batch E D V)
        → Unless b.failure (Matches b.prepared done)
        → (let c = prepare_ops errors scripts paths workers k ops b in
            Unless c.failure (Matches c.prepared (done ++ ops)))
    unfolding prepare_ops
    prepare_ops-Matches paths workers k [] done b h = rw (append-nil done) h
    prepare_ops-Matches paths workers k (op ∷ ops) done b h =
        subst
          (λ all.
            let c =
              prepare_ops errors scripts paths workers (suc k) ops
                (prepare_op errors scripts paths (workers k) op b) in
            Unless c.failure (Matches c.prepared all))
          (append_assoc done (op ∷ []) ops)
          (prepare_ops-Matches paths workers (suc k) ops (done ++ op ∷ [])
            (prepare_op errors scripts paths (workers k) op b)
            (prepare_op-Matches paths (workers k) op done b h))

module _ {E D : Type 0} where
  -- a request succeeds only if the sink has taken the operations and no plugin has failed
  answer-ok :
      (r : Result (SubmissionFailure E D) ℕ) (failure : Option (E × RetryCondition D))
      (report : Bool) (n : ℕ)
      → answer r failure report ≡ ok n
      → (r ≡ ok n) × (failure ≡ none)
  unfolding answer
  answer-ok (err e) failure report n h = absurd (cc h)
  answer-ok (ok m) (some (cause, retry)) report n h = absurd (cc h)
  answer-ok (ok m) none report n h = (cc h, refl)

  response-ok :
      (failure : Option (E × RetryCondition D)) (report : Bool) (o : Outcome E D) (n : ℕ)
      (state : Report)
      → emit_response failure report o ≡ some (ok n, state)
      → (o ≡ Outcome.emitted (ok n) state) × (failure ≡ none)
  response-ok failure report (Outcome.flushed _ seen) n state h = absurd (cc h)
  response-ok failure report (Outcome.emitted r seen) n state h =
      let parts : ◌≡◌ {A = Result (RouteFailure E D) ℕ × Report} (answer r failure report, seen)
          (ok n, state) =
        cc h in
      let both = answer-ok r failure report n (ap (λ p. p.0) parts) in
      let same_state : seen ≡ state = ap (λ p. p.1) parts in (rw (both.0, same_state) refl, both.1)

module _ {S E D T : Type 0} (json : Json) (errors : RouteErrors E D) (sdk : SdkErrors E)
    (scripts : Scripts D json.Value)
    (sink : Sink S E (SessionConfig json.Value json.Object T) (SpanOp json.Value))
    ⦃key : Key (Option D)⦄ where
  prepared_batch-Matches :
      (workers : ℕ → Option (Engine D)) (config : SessionConfig json.Value json.Object T)
      (ops : List (SpanOp json.Value)) (s : Routing S D)
      → (let b = prepared_batch json errors sdk scripts sink workers config ops s in
          Unless b.failure (Matches b.prepared ops))
  unfolding prepared_batch
  prepared_batch-Matches workers config ops s =
      prepare_ops-Matches errors scripts config.span_plugins workers 0 ops [] _ tt

  -- A route that answers an emission with success has handed its submission stage, in one request
  -- that this stage accepts, all the prepared operations in their order: plugins have changed none
  -- of their identities, and none is left out. The engines of the workers that run the plugins are
  -- arbitrary.
  pub emit_complete :
      (workers : ℕ → Option (Engine D)) (config : SessionConfig json.Value json.Object T)
      (ops : List (SpanOp json.Value)) (s : Routing S D) (n : ℕ) (state : Report)
      → (emit json errors sdk scripts sink workers config ops s).0 ≡ some (ok n, state)
      → (out : List (SpanOp json.Value)) × Matches out
          (Prepare.apply_shared json config ops s.prepare).0
        × (submit {D = D} sdk sink
              (record { config = config; operation = Submission.emit out })
              s.sink
            ≡ (
              Outcome.emitted (ok n) state,
              (emit json errors sdk scripts sink workers config ops s).1.sink,
            ))
  unfolding emit
  emit_complete workers config ops s n state h =
      let ops' = (Prepare.apply_shared json config ops s.prepare).0 in
      let b = prepared_batch json errors sdk scripts sink workers config ops' s in
      let r =
        submit {D = D} sdk sink (record { config = config; operation = Submission.emit b.prepared })
          s.sink in
      let both = response-ok b.failure b.report r.0 n state h in
      (
        b.prepared,
        subst (λ f. Unless f (Matches b.prepared ops')) both.1
            (prepared_batch-Matches workers config ops' s),
        ap (λ o. (o, r.1)) both.0,
      )
