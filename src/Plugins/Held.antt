-- ===== src/Plugins/Held.antt =====
-- What the stage answers: an operation with its identity or a failure, and the same failure until a
-- file of the chain changes.
use mathlib.Core.Path.{subst}
use braintrust_coding_agent.Prelude.{
  ◌≡◌, refl, String, true, false, List, [], ◌∷◌, map, Option, none, some, arith, Bool-cases,
  Option-cases, inl, inr,
}
use braintrust_coding_agent.Collections.{Key, string_key, same_self}
use braintrust_coding_agent.Span.{SpanOp, row_of, is_insert}
use braintrust_coding_agent.Translator.{Result, Result-cases, ok, err}
use braintrust_coding_agent.Processor.{
  Scripts, Engine, PluginFailure, ProcessResult, same_all, process_isolated,
}
use braintrust_coding_agent.Processor.Identity.{IsSameSpan, IsKept, process_inner-keeps}
use braintrust_coding_agent.Plugins.{
  PluginRejected, PluginOutcome, Plugins, prepared, filtered, failed, unavailable, is_blocked,
  seen_before, settle, settle_result, process, process_unblocked,
}

pub same_all_self : {K : Type 0} ⦃k : Key K⦄ (xs : List K) → same_all xs xs ≡ true
same_all_self [] = refl
same_all_self (x ∷ xs) = ground (arith, same_self x, same_all_self xs)

module _ {D V : Type 0} where
  -- An operation that is prepared is the one given; none is left out without a failure.
  abbrev pub Answers : SpanOp V → PluginOutcome D V → Type 0
  Answers op (prepared op') = (is_insert op' ≡ is_insert op) × IsSameSpan (row_of op') (row_of op)
  Answers op filtered = ⊥
  Answers op (failed rejected) = Unit
  Answers op (unavailable error) = Unit

module _ {D V : Type 0} (scripts : Scripts D V) ⦃key : Key (Option D)⦄ where
  settle-Answers :
      (op : SpanOp V) (s : Plugins D) (op' : Option (SpanOp V)) (failure : Option PluginFailure)
      (slot : Option (Engine D))
      → IsKept op (record { op = op'; failure = failure })
      → Answers op (settle scripts s op' failure slot).0
  settle-Answers op s op' (some failure) slot h = tt
  settle-Answers op s (some op') none slot (inl (failure, f, _)) = absurd (cc f)
  settle-Answers op s (some op') none slot (inr (op'', _, e, i, same_span)) =
      let p : op'' ≡ op' = cc e in
      subst (λ o. (is_insert o ≡ is_insert op) × IsSameSpan (row_of o) (row_of op)) p (i, same_span)
  settle-Answers op s none none slot (inl (failure, f, _)) = absurd (cc f)
  settle-Answers op s none none slot (inr (op'', _, e, _, _)) = absurd (cc e)

  process_unblocked-Answers :
      (op : SpanOp V) (s : Plugins D) (slot : Option (Engine D))
      → Answers op (process_unblocked scripts op s slot).0
  unfolding process_unblocked process_isolated
  process_unblocked-Answers op s slot =
      let r = process_isolated scripts s.paths op slot in
      elim (Result-cases r.0) [
        | inl (error, h) ↦ rw (h, Answers) tt
        | inr (result, h) ↦
            rw (h, Answers)
              (settle-Answers op (record s { blocked = none }) result.op result.failure r.1
                (process_inner-keeps scripts false s.paths op slot result h))
      ]

  pub process-Answers :
      (op : SpanOp V) (s : Plugins D) (slot : Option (Engine D))
      → Answers op (process scripts op s slot).0
  unfolding process
  process-Answers op s slot = elim (Option-cases s.blocked) [
    | inl free ↦ rw (free, Answers) (process_unblocked-Answers op s slot)
    | inr (block, held) ↦ elim (Bool-cases (is_blocked scripts s (some block))) [
      | inl stands ↦ rw (held, stands, Answers) tt
      | inr over ↦ rw (held, over, Answers) (process_unblocked-Answers op s slot)
    ]
  ]

  again :
      (op : SpanOp V) (s : Plugins D) (slot : Option (Engine D)) (rejected : PluginRejected D)
      (paths : List String) (held : PluginRejected D)
      → s.blocked ≡ some (paths, held)
      → seen_before held ≡ seen_before rejected
      → is_blocked scripts s (some (paths, held)) ≡ true
      → process scripts op s slot ≡ (failed (seen_before rejected), s, slot)
  unfolding process
  again op s slot rejected paths held e f stands = rw (e, stands, f) refl

  -- a failure leaves a block that stands as long as the digests are those that it names
  abbrev Blocks : List String → PluginOutcome D V → Plugins D → Type 0
  Blocks paths (failed rejected) s' =
      (block : List String) × (held : PluginRejected D) × (s'.blocked ≡ some (block, held))
      × (seen_before held ≡ seen_before rejected)
      × (same_all (map scripts.file_digest paths) rejected.processors ≡ true
          → is_blocked scripts s' (some (block, held)) ≡ true)
  Blocks paths _ s' = Unit

  settle-Blocks :
      (s : Plugins D) (op : Option (SpanOp V)) (failure : Option PluginFailure)
      (slot : Option (Engine D))
      → (let run = settle scripts s op failure slot in Blocks s.paths run.0 run.1)
  settle-Blocks s op (some failure) slot =
      (s.paths, _, refl, refl, λ unchanged. ground (arith, unchanged, same_all_self s.paths))
  settle-Blocks s (some op) none slot = tt
  settle-Blocks s none none slot = tt

  settle_result-Blocks :
      (s : Plugins D) (r : Result String (ProcessResult V)) (slot : Option (Engine D))
      → (let run = settle_result scripts s (r, slot) in Blocks s.paths run.0 run.1)
  settle_result-Blocks s (err error) slot = tt
  settle_result-Blocks s (ok result) slot = settle-Blocks s result.op result.failure slot

  process-Blocks :
      (op : SpanOp V) (s : Plugins D) (slot : Option (Engine D))
      → (let run = process scripts op s slot in Blocks s.paths run.0 run.1)
  unfolding process process_unblocked
  process-Blocks op s slot =
      let free_run =
        settle_result-Blocks (record s { blocked = none })
          (process_isolated scripts s.paths op slot).0
          (process_isolated scripts s.paths op slot).1 in
      elim (Option-cases s.blocked) [
        | inl free ↦ rw (free, Blocks) free_run
        | inr ((paths, held), known) ↦
            elim (Bool-cases (is_blocked scripts s (some (paths, held)))) [
              | inl stands ↦ rw (known, stands, Blocks) (paths, held, refl, refl, λ _. stands)
              | inr over ↦ rw (known, over, Blocks) free_run
            ]
      ]

  -- After a failure of a plugin, as long as the files of the chain have the digests that the
  -- failure names, a further operation is refused with the same failure, marked as seen before,
  -- without running a plugin and without a change of the stage.
  pub process-held :
      (op later : SpanOp V) (s : Plugins D) (slot slot' : Option (Engine D))
      (rejected : PluginRejected D)
      → (process scripts op s slot).0 ≡ failed rejected
      → same_all (map scripts.file_digest s.paths) rejected.processors ≡ true
      → (let s' = (process scripts op s slot).1 in
          process scripts later s' slot' ≡ (failed (seen_before rejected), s', slot'))
  process-held op later s slot slot' rejected h unchanged =
      let s' = (process scripts op s slot).1 in
      let (block, held, e, f, stands) =
        subst (λ r. Blocks s.paths r s') h (process-Blocks op s slot) in
      again later s' slot' rejected block held e f (stands unchanged)
