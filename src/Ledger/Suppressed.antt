-- ===== src/Ledger/Suppressed.antt =====
-- What passes the ledger has not been delivered.
use braintrust_coding_agent.Prelude.{
  ◌≡◌, refl, String, Bool, true, false, ◌&&◌, ◌||◌, List, [], ◌∷◌, map, none, arith, All, retain,
  Bool-cases, inl, inr,
}
use braintrust_coding_agent.Collections.{string_key, string_dec, same, same_self}
use braintrust_coding_agent.Collections.Set
use braintrust_coding_agent.Collections.Map.{keys}
use braintrust_coding_agent.Span.{LateMergeVersion, SpanOp, insert, merge, row_of, span_id_of}
use braintrust_coding_agent.Ledger.{DeliveryLedger}
use braintrust_coding_agent.Ledger.Index.{completed}
use braintrust_coding_agent.Ledger.Delivered.{should_emit}
use braintrust_coding_agent.Ledger.Journal.{Origins, View}
use braintrust_coding_agent.Ledger.Sink.{filtered, passes, advance, stamped}
use braintrust_coding_agent.Ledger.Emission.{passing, asked_spans}

pub contains-retain :
    (p : String → Bool) (k : String) (xs : List String)
    → Set.contains k (retain p xs) ≡ (Set.contains k xs && p k)
unfolding Set.contains
contains-retain p k [] = refl
contains-retain p k (x ∷ xs) = elim (string_dec x k) [
  | yes e ↦ rw e (ground (arith, contains-retain p k xs))
  | no n ↦ ground (arith, n, contains-retain p k xs)
]

pub contains-completed :
    (k : String) (asked table : List String)
    → Set.contains k (completed asked table) ≡ (Set.contains k asked && Set.contains k table)
unfolding completed
contains-completed k asked table = contains-retain (λ id. Set.contains id table) k asked

module _ {V : Type 0} where
  -- no update of the span but an enrichment with a key of its own
  abbrev pub IsOther : String → SpanOp V → Type 0
  IsOther id op = (row_of op).late_merge_key ≡ none → same (span_id_of op) id ≡ false

  passes-IsOther :
      (l : DeliveryLedger) (known merges table : List String)
      (versions : List (String × LateMergeVersion)) (id : String) (op : SpanOp V)
      → Set.contains (span_id_of op) known ≡ Set.contains (span_id_of op) table
      → Set.contains id l.pending || Set.contains id table ≡ true
      → passes l known merges versions op ≡ true
      → IsOther id op
  unfolding passes should_emit
  passes-IsOther l known merges table versions id op e k p plain =
      elim (string_dec (span_id_of op) id) [
        | no n ↦ ground (arith, n)
        | yes same_id ↦ absurd (ground (arith, e, k, p, plain, same_id))
      ]

  stamped-IsOther :
      (id : String) (origins : Origins) (op : SpanOp V)
      → IsOther id op
      → IsOther id (stamped origins op)
  stamped-IsOther id origins (insert row) h = h
  stamped-IsOther id origins (merge row) h = h

  pub map-stamped-IsOther :
      (id : String) (origins : Origins) (ops : List (SpanOp V))
      → All (IsOther id) ops
      → All (IsOther id) (map (stamped origins) ops)
  map-stamped-IsOther id origins [] h = tt
  map-stamped-IsOther id origins (op ∷ ops) h =
      (stamped-IsOther id origins op h.0, map-stamped-IsOther id origins ops h.1)

  filtered-IsOther :
      (l : DeliveryLedger) (known merges table : List String)
      (versions : List (String × LateMergeVersion)) (id : String) (ops : List (SpanOp V))
      → All (λ op. Set.contains (span_id_of op) known ≡ Set.contains (span_id_of op) table) ops
      → Set.contains id l.pending || Set.contains id table ≡ true
      → All (IsOther id) (filtered l known merges versions ops)
  unfolding filtered
  filtered-IsOther l known merges table versions id [] e k = tt
  filtered-IsOther l known merges table versions id (op ∷ ops) e k =
      elim (Bool-cases (passes l known merges versions op)) [
        | inl kept ↦ rw kept (
          passes-IsOther l known merges table versions id op e.0 k kept,
          filtered-IsOther l known merges table
              (advance (span_id_of op) (row_of op).late_merge_version versions) id ops e.1 k,
        )
        | inr dropped ↦ rw dropped (filtered-IsOther l known merges table versions id ops e.1 k)
      ]

  known-All :
      (table : List String) (ops : List (SpanOp V)) (asked : List String)
      → All (λ op. Set.contains (span_id_of op) asked ≡ true) ops
      → All
          (λ op.
            Set.contains (span_id_of op) (completed asked table)
            ≡ Set.contains (span_id_of op) table)
          ops
  known-All table [] asked h = tt
  known-All table (op ∷ ops) asked h = (
    ground (arith, contains-completed (span_id_of op) asked table, h.0),
    known-All table ops asked h.1,
  )

  asked-All :
      (asked : List String) (ops : List (SpanOp V))
      → ((k : String) → Set.contains k (map span_id_of ops) ≡ true → Set.contains k asked ≡ true)
      → All (λ op. Set.contains (span_id_of op) asked ≡ true) ops
  unfolding Set.contains
  asked-All asked [] h = tt
  asked-All asked (op ∷ ops) h = (
    h (span_id_of op) (ground (arith, same_self (span_id_of op))),
    asked-All asked ops (λ k m. h k (ground (arith, m))),
  )

  -- the index's answer is that of its table, for the spans of the operations
  pub passing-All :
      (v : View) (ops : List (SpanOp V)) (pending : Origins)
      → All
          (λ op.
            Set.contains (span_id_of op) (completed (asked_spans ops pending) v.disk.index.spans)
            ≡ Set.contains (span_id_of op) v.disk.index.spans)
          ops
  passing-All v ops pending = known-All v.disk.index.spans ops (asked_spans ops pending) (
      asked-All (asked_spans ops pending) ops
        (λ j m. ground (arith, m, Set.contains-append j (map span_id_of ops) (keys pending))))

  pub passing-IsOther :
      (v : View) (ops : List (SpanOp V)) (pending : Origins) (id : String)
      → Set.contains id v.ledger.pending || Set.contains id v.disk.index.spans ≡ true
      → All (IsOther id) (passing v ops pending)
  unfolding passing
  passing-IsOther v ops pending id k =
      filtered-IsOther v.ledger _ _ v.disk.index.spans _ id ops (passing-All v ops pending) k
