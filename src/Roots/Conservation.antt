-- ===== src/Roots/Conservation.antt =====
-- No operation is lost or duplicated between the waiting roots and the output.
use braintrust_coding_agent.Prelude.{
  ℕ, ◌+◌, String, Bool, ◌≡◌, refl, ap, ◌∙◌, List, [], ◌∷◌, ◌++◌, map, Option, none, some, arith,
  if◌then◌else◌, inl, inr, Option-cases, Bool-cases,
}
use braintrust_coding_agent.Collections.Map
use braintrust_coding_agent.Collections.Map.{keys, insert-Distinct, remove-Distinct}
use braintrust_coding_agent.Collections.Set.{Distinct}
use braintrust_coding_agent.Collections.{string_key}
use braintrust_coding_agent.Json.{Json}
use braintrust_coding_agent.Span.{SpanOp, row_of, span_id_of}
use braintrust_coding_agent.Roots.{
  Pending, Work, release, release_parent, release_parents, hold_or_send, process_op, process_from,
  process_owned, is_deferred,
}

module _ {A : Type 0} (p : A → Bool) where
  -- how many elements pass the test
  abbrev pub count : List A → ℕ
  count [] = 0
  count (x ∷ xs) = (if p x then 1 else 0) + count xs

  -- how many elements of all the lists of the map pass it
  abbrev pub count_held : List (String × List A) → ℕ
  count_held [] = 0
  count_held ((k, xs) ∷ m) = count xs + count_held m

  count-append : (xs ys : List A) → count (xs ++ ys) ≡ count xs + count ys
  count-append [] ys = omega arith
  count-append (x ∷ xs) ys = omega (arith, count-append xs ys)

  count_held-append :
      (m n : List (String × List A)) → count_held (m ++ n) ≡ count_held m + count_held n
  count_held-append [] n = omega arith
  count_held-append ((k, xs) ∷ m) n = omega (arith, count_held-append m n)

  count_at : Option (List A) → ℕ
  count_at none = 0
  count_at (some xs) = count xs

  count_held-remove :
      (k : String) (m : List (String × List A))
      → Distinct (keys m)
      → count_held (Map.remove k m) + count_at (Map.get k m) ≡ count_held m
  unfolding Map.remove Map.get count_at
  count_held-remove k [] d = omega arith
  count_held-remove k ((j, xs) ∷ m) d =
      ground (arith, count_held-remove k m d.1, Map.remove_absent k m, d.0)

  count_held-insert :
      (k : String) (xs : List A) (m : List (String × List A))
      → Distinct (keys m)
      → count_held (Map.insert k xs m) + count_at (Map.get k m) ≡ count_held m + count xs
  unfolding Map.insert
  count_held-insert k xs m d =
      omega (arith, count_held-append (Map.remove k m) ((k, xs) ∷ []), count_held-remove k m d)

module _ (json : Json) (p : SpanOp json.Value → Bool)
    (blind : (op : SpanOp json.Value) → p (release json op) ≡ p op) where
  open json use {Value}

  abbrev total : Work json → ℕ
  total w = count_held p w.pending + count p w.ready

  abbrev HasKeys : Work json → Type 0
  HasKeys w = Distinct (keys w.pending)

  count-release : (ops : List (SpanOp Value)) → count p (map (release json) ops) ≡ count p ops
  count-release [] = refl
  count-release (op ∷ ops) = ground (arith, blind op, count-release ops)

  release_parent-total :
      (k : String) (w : Work json)
      → HasKeys w
      → HasKeys (release_parent json k w) × (total (release_parent json k w) ≡ total w)
  unfolding release_parent count_at
  release_parent-total k w d = elim (Option-cases (Map.get k w.pending)) [
    | inl e ↦ rw (e, release_parent) (d, refl)
    | inr (root, e) ↦
        rw (e, release_parent)
          (
            remove-Distinct k w.pending d,
            omega (
              arith,
              count_held-remove p k w.pending d,
              ap (count_at p) e,
              count-append p w.ready (map (release json) root),
              count-release root,
            ),
          )
  ]

  release_parents-total :
      (ks : List String) (w : Work json)
      → HasKeys w
      → HasKeys (release_parents json ks w) × (total (release_parents json ks w) ≡ total w)
  unfolding release_parents
  release_parents-total [] w d = (d, refl)
  release_parents-total (k ∷ ks) w d =
      let (d', same_total) = release_parent-total k w d in
      let (d'', same_totals) = release_parents-total ks (release_parent json k w) d' in
      (d'', same_totals ∙ same_total)

  hold_or_send-total :
      (op : SpanOp Value) (w : Work json)
      → HasKeys w
      → Map.get (span_id_of op) w.pending ≡ none
      → HasKeys (hold_or_send json op w)
        × (total (hold_or_send json op w) ≡ total w + (if p op then 1 else 0))
  unfolding hold_or_send count_at
  hold_or_send-total op w d new = elim (Bool-cases (is_deferred json op)) [
    | inl e ↦
        rw (e, hold_or_send)
          (
            insert-Distinct _ _ w.pending d,
            omega (
              arith,
              count_held-insert p (span_id_of op) (op ∷ []) w.pending d,
              ap (count_at p) new,
            ),
          )
    | inr e ↦ rw (e, hold_or_send) (d, omega (arith, count-append p w.ready (op ∷ [])))
  ]

  release_parent-absent :
      (j k : String) (w : Work json)
      → Map.get j w.pending ≡ none
      → Map.get j (release_parent json k w).pending ≡ none
  unfolding release_parent
  release_parent-absent j k w new = ground (arith, Map.get-remove j k w.pending, new)

  release_parents-absent :
      (j : String) (ks : List String) (w : Work json)
      → Map.get j w.pending ≡ none
      → Map.get j (release_parents json ks w).pending ≡ none
  unfolding release_parents
  release_parents-absent j [] w new = new
  release_parents-absent j (k ∷ ks) w new =
      release_parents-absent j ks (release_parent json k w) (release_parent-absent j k w new)

  process_op-total :
      (op : SpanOp Value) (w : Work json)
      → HasKeys w
      → HasKeys (process_op json op w)
        × (total (process_op json op w) ≡ total w + (if p op then 1 else 0))
  unfolding process_op count_at
  process_op-total op w d = elim (Option-cases (Map.get (span_id_of op) w.pending)) [
    | inl new ↦
        let ks = (row_of op).parent_span_ids in
        let (d', released) = release_parents-total ks w d in
        let (d'', sent) =
          hold_or_send-total op (release_parents json ks w) d'
            (release_parents-absent (span_id_of op) ks w new) in
        rw (new, process_op) (d'', omega (arith, released, sent))
    | inr (root, held) ↦
        rw (held, process_op)
          (
            insert-Distinct _ _ w.pending d,
            omega (
              arith,
              count_held-insert p (span_id_of op) (root ++ op ∷ []) w.pending d,
              ap (count_at p) held,
              count-append p root (op ∷ []),
            ),
          )
  ]

  process_from-total :
      (ops : List (SpanOp Value)) (w : Work json)
      → HasKeys w
      → HasKeys (process_from json ops w)
        × (total (process_from json ops w) ≡ total w + count p ops)
  unfolding process_from
  process_from-total [] w d = (d, omega arith)
  process_from-total (op ∷ ops) w d =
      let (d', one) = process_op-total op w d in
      let (d'', rest) = process_from-total ops (process_op json op w) d' in
      (d'', omega (arith, one, rest))

  -- `process_owned` neither loses nor repeats an operation: what is sent and what waits add up to
  -- what came in and what waited, for every test that ignores the deferral marker, when each span
  -- waits under one key.
  pub process_owned-total :
      (pending : Pending json) (ops : List (SpanOp Value))
      → Distinct (keys pending)
      → Distinct (keys (process_owned json pending ops).pending)
        × (count_held p (process_owned json pending ops).pending
              + count p (process_owned json pending ops).ready
            ≡ count_held p pending + count p ops)
  unfolding process_owned
  process_owned-total pending ops d =
      let (d', e) = process_from-total ops (record { pending = pending; ready = [] }) d in
      (d', omega (arith, e))
