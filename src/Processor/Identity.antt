-- ===== src/Processor/Identity.antt =====
-- What a chain of plugins leaves of an operation.
use mathlib.Core.Path.{subst}
use braintrust_coding_agent.Prelude.{
  ◌≡◌, refl, String, Bool, true, List, [], ◌∷◌, Option, none, some, arith, Bool-cases, Option-cases,
  ◌⊎◌, inl, inr,
}
use braintrust_coding_agent.Collections.{Key, string_key, string_dec, same}
use braintrust_coding_agent.Collections.Map
use braintrust_coding_agent.Span.{SpanRow, SpanOp, insert, merge, row_of, is_insert}
use braintrust_coding_agent.Translator.{Result, Result-cases, ok, err}
use braintrust_coding_agent.Processor.{
  Scripts, Engine, CallError, PluginFailure, ProcessResult, same_all, same_identity, retained,
  lasting, forget, judge, turn, chain, run, finished, with_engine, process_inner,
}

same_eq : (a b : String) → same a b ≡ true → a ≡ b
same_eq a b h = elim (string_dec a b) [ yes e ↦ e | no n ↦ absurd (ground (arith, h, n)) ]

same_all-eq : (xs ys : List String) → same_all xs ys ≡ true → xs ≡ ys
same_all-eq [] [] h = refl
same_all-eq [] (y ∷ ys) h = absurd (ground (arith, h))
same_all-eq (x ∷ xs) [] h = absurd (ground (arith, h))
same_all-eq (x ∷ xs) (y ∷ ys) h =
    cc (same_eq x y (ground (arith, h)), same_all-eq xs ys (ground (arith, h)))

-- what of a result is known if it is not an error
abbrev pub Holds : {E A : Type 0} → (A → Type 0) → Result E A → Type 0
Holds P (err _) = Unit
Holds P (ok a) = P a

module _ {V : Type 0} where
  -- the fields that a plugin may not change, or that are put back
  pub record IsSameSpan (row original : SpanRow V) : Type 0 where
    pub span_id : row.span_id ≡ original.span_id
    pub root_span_id : row.root_span_id ≡ original.root_span_id
    pub parent_span_ids : row.parent_span_ids ≡ original.parent_span_ids
    pub is_turn : row.is_turn ≡ original.is_turn
    pub origin : row.origin ≡ original.origin
    pub turn_span_id : row.turn_span_id ≡ original.turn_span_id
    pub late_merge_key : row.late_merge_key ≡ original.late_merge_key
    pub late_merge_version : row.late_merge_version ≡ original.late_merge_version

  pub IsSameSpan-refl : (row : SpanRow V) → IsSameSpan row row
  IsSameSpan-refl row = record {
    span_id = refl;
    root_span_id = refl;
    parent_span_ids = refl;
    is_turn = refl;
    origin = refl;
    turn_span_id = refl;
    late_merge_key = refl;
    late_merge_version = refl;
  }

  retained-IsSameSpan :
      (candidate row original : SpanRow V)
      → same_identity candidate original ≡ true
      → IsSameSpan row original
      → IsSameSpan (retained row candidate) original
  retained-IsSameSpan candidate row original h kept = record {
    span_id = same_eq candidate.span_id original.span_id (ground (arith, h));
    root_span_id = same_eq candidate.root_span_id original.root_span_id (ground (arith, h));
    parent_span_ids =
        same_all-eq candidate.parent_span_ids original.parent_span_ids (ground (arith, h));
    is_turn = kept.is_turn;
    origin = kept.origin;
    turn_span_id = kept.turn_span_id;
    late_merge_key = kept.late_merge_key;
    late_merge_version = kept.late_merge_version;
  }

  -- either the operation, with the same identity, or a failure
  abbrev pub IsKept : SpanOp V → ProcessResult V → Type 0
  IsKept op result =
      ((failure : PluginFailure) × (result.failure ≡ some failure) × (result.op ≡ none))
      ⊎ ((op' : SpanOp V) × (result.failure ≡ none)
          × (result.op ≡ some op')
          × (is_insert op' ≡ is_insert op)
          × IsSameSpan (row_of op') (row_of op))

module _ {D V : Type 0} where
  judge-Holds :
      (path : String) (original row : SpanRow V) (called : Result CallError (SpanRow V) × Engine D)
      → IsSameSpan row original
      → Holds (λ r. IsSameSpan r original) (judge path original row called).0
  unfolding judge
  judge-Holds path original row (err error, e) kept = tt
  judge-Holds path original row (ok candidate, e) kept =
      elim (Bool-cases (same_identity candidate original)) [
        | inl h ↦ rw h (retained-IsSameSpan candidate row original h kept)
        | inr h ↦ rw h tt
      ]

  finished-IsKept :
      (op : SpanOp V) (r : Result PluginFailure (SpanRow V)) (e : Engine D)
      → Holds (λ row. IsSameSpan row (row_of op)) r
      → IsKept op (finished op (r, e)).0
  finished-IsKept op (err failure) e h = inl (failure, refl, refl)
  finished-IsKept (insert row) (ok row') e h = inr (insert row', refl, refl, refl, h)
  finished-IsKept (merge row) (ok row') e h = inr (merge row', refl, refl, refl, h)

module _ {D V : Type 0} (scripts : Scripts D V) ⦃key : Key (Option D)⦄ where
  turn-Holds :
      (use_failed_cache : Bool) (path : String) (original : SpanRow V) (inserts : Bool)
      (row : SpanRow V) (e : Engine D)
      → IsSameSpan row original
      → Holds
          (λ r. IsSameSpan r original)
          (turn scripts use_failed_cache path original inserts row e).0
  unfolding turn
  turn-Holds use_failed_cache path original inserts row e kept =
      elim (Option-cases (lasting use_failed_cache (Map.get path e.failed_plugins))) [
        | inl fresh ↦
            rw (fresh, Holds) (judge-Holds path original row (scripts.call path row inserts e) kept)
        | inr (failed, known) ↦
            elim (Bool-cases (same failed.fingerprint (scripts.file_digest path))) [
              | inl unchanged ↦ rw (known, unchanged, Holds) tt
              | inr changed ↦
                  rw (known, changed, Holds)
                    (judge-Holds path original row (scripts.call path row inserts (forget path e))
                      kept)
            ]
      ]

  chain-Holds :
      (use_failed_cache : Bool) (paths : List String) (original : SpanRow V) (inserts : Bool)
      (row : SpanRow V) (e : Engine D)
      → IsSameSpan row original
      → Holds
          (λ r. IsSameSpan r original)
          (chain scripts use_failed_cache paths original inserts row e).0
  unfolding chain
  chain-Holds use_failed_cache [] original inserts row e kept = kept
  chain-Holds use_failed_cache (path ∷ paths) original inserts row e kept =
      let step = turn scripts use_failed_cache path original inserts row e in
      elim (Result-cases step.0) [
        | inl (failure, failed) ↦ rw (failed, Holds) tt
        | inr (row', passed) ↦
            rw (passed, Holds)
              (chain-Holds use_failed_cache paths original inserts row' step.1 (
                subst (Holds (λ r. IsSameSpan r original)) passed
                  (turn-Holds use_failed_cache path original inserts row e kept)))
      ]

  run-IsKept :
      (use_failed_cache : Bool) (paths : List String) (op : SpanOp V) (e : Engine D)
      → IsKept op (run scripts use_failed_cache paths op e).0
  run-IsKept use_failed_cache paths op e =
      let r = chain scripts use_failed_cache paths (row_of op) (is_insert op) (row_of op) e in
      finished-IsKept op r.0 r.1 (
        chain-Holds use_failed_cache paths (row_of op) (is_insert op) (row_of op) e
          (IsSameSpan-refl (row_of op)))

  with_engine-IsKept :
      (started : Result String (Unit {0})) (use_failed_cache : Bool) (paths : List String)
      (op : SpanOp V) (slot : Option (Engine D))
      → Holds (IsKept op) (with_engine scripts started use_failed_cache paths op slot).0
  with_engine-IsKept started use_failed_cache paths op (some e) =
      run-IsKept use_failed_cache paths op e
  with_engine-IsKept (ok _) use_failed_cache paths op none = run-IsKept use_failed_cache paths op _
  with_engine-IsKept (err error) use_failed_cache paths op none = tt

  process_inner-IsKept :
      (use_failed_cache : Bool) (paths : List String) (op : SpanOp V) (slot : Option (Engine D))
      → Holds (IsKept op) (process_inner scripts use_failed_cache paths op slot).0
  unfolding process_inner
  process_inner-IsKept use_failed_cache [] op slot =
      inr (op, refl, refl, refl, IsSameSpan-refl (row_of op))
  process_inner-IsKept use_failed_cache (path ∷ paths) op slot =
      with_engine-IsKept scripts.runtime use_failed_cache (path ∷ paths) op slot

  -- Where the chain of plugins runs, whatever the scripts do, it ends in a failure and no
  -- operation, or in no failure and an insertion or a merge as it was given one, with the
  -- identifiers of span, root and parents, the turn, the origin and the late-merge fields
  -- unchanged.
  pub process_inner-keeps :
      (use_failed_cache : Bool) (paths : List String) (op : SpanOp V) (slot : Option (Engine D))
      (result : ProcessResult V)
      → (process_inner scripts use_failed_cache paths op slot).0 ≡ ok result
      → IsKept op result
  process_inner-keeps use_failed_cache paths op slot result h =
      subst (Holds (IsKept op)) h (process_inner-IsKept use_failed_cache paths op slot)
