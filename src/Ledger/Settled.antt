-- ===== src/Ledger/Settled.antt =====
-- What a flush leaves of the spans that a writer has delivered.
use braintrust_coding_agent.Prelude.{
  ◌≡◌, refl, String, Bool, true, false, not, ◌||◌, List, [], ◌∷◌, Option, none, some, is_empty,
  length, arith, Bool-cases, inl, inr,
}
use braintrust_coding_agent.Collections.{string_key}
use braintrust_coding_agent.Collections.Set
use braintrust_coding_agent.Span.{SpanOp}
use braintrust_coding_agent.Translator.{Result, ok, err}
use braintrust_coding_agent.Submission.{Sink}
use braintrust_coding_agent.Ledger.{Disk, DeliveryLedger}
use braintrust_coding_agent.Ledger.Index.{remember, remember_completed, completed}
use braintrust_coding_agent.Ledger.Journal.{
  View, Write, written, unopened, torn, unindexed, half_indexed, append, commit, commit_rest,
  acknowledgement, nothing_pending, close, unacknowledged,
}
use braintrust_coding_agent.Ledger.Sink.{LedgerSink}
use braintrust_coding_agent.Ledger.Emission.{flush_ledger, flush, flush_rest}
use braintrust_coding_agent.Ledger.Growth.{refreshed, refresh-cases, commit-Grows, contains-add_all}
use braintrust_coding_agent.Translator.{Result-cases}
use braintrust_coding_agent.Ledger.Suppressed.{contains-retain, contains-completed}
use braintrust_coding_agent.Ledger.Held.{held, pending_of}

-- In the index after a success; still held by the writer or in the index after a failure.
abbrev pub is_settled : String → Result String (Unit {0}) → List String → Disk → Bool
is_settled id (ok _) pending d = Set.contains id d.index.spans
is_settled id (err _) pending d = Set.contains id pending || Set.contains id d.index.spans

indexed_settled :
    (id : String) (r : Result String (Unit {0})) (pending : List String) (d : Disk)
    → Set.contains id d.index.spans ≡ true
    → is_settled id r pending d ≡ true
indexed_settled id (ok _) pending d h = h
indexed_settled id (err _) pending d h = ground (arith, h)

append-settled :
    (outcome : Write) (l : DeliveryLedger) (d : Disk) (id : String)
    → Set.contains id l.pending ≡ true
    → (let r = close l (append outcome (acknowledgement l) l d) in
        is_settled id r.0 r.1.pending r.2 ≡ true)
unfolding append remember_completed remember
append-settled written l d id h = ground (arith, h, contains-add_all id l.pending d.index.spans)
append-settled unopened l d id h = rw h refl
append-settled torn l d id h = rw h refl
append-settled unindexed l d id h = rw h refl
append-settled half_indexed l d id h = rw h refl

not_empty : (xs : List String) (id : String) → Set.contains id xs ≡ true → is_empty xs ≡ false
unfolding Set.contains
not_empty [] id h = absurd (ground (arith, h))
not_empty (x ∷ xs) id h = refl

busy :
    (l : DeliveryLedger) (id : String)
    → Set.contains id l.pending ≡ true
    → nothing_pending l ≡ false
busy l id h = rw (not_empty l.pending id h) refl

commit-settled :
    (outcome : Write) (l : DeliveryLedger) (d : Disk) (id : String)
    → l.journal_len ≡ length d.lines
    → Set.contains id l.pending ≡ true
    → (let r = commit outcome l d in is_settled id r.0 r.1.pending r.2 ≡ true)
unfolding commit commit_rest
commit-settled outcome l d id e h = elim (Bool-cases (Set.contains id d.index.spans)) [
  | inl known ↦ indexed_settled id _ _ _ ((commit-Grows outcome l d e).spans id known)
  | inr unknown ↦
      let u = unacknowledged l d in
      let held : Set.contains id u.pending ≡ true = ground (
        arith,
        h,
        unknown,
        contains-completed id l.pending d.index.spans,
        contains-retain (λ k. not (Set.contains k (completed l.pending d.index.spans))) id
            l.pending,
      ) in
      rw (busy u id held) (append-settled outcome u d id held)
]

module _ {S : Type 0} where
  flush_ledger-settled :
      (outcome : Write) (l : DeliveryLedger) (s : LedgerSink S) (d : Disk) (id : String)
      → Set.contains id l.pending ≡ true
      → Set.contains id (pending_of s) ≡ true
      → (let r = flush_ledger outcome l s d in is_settled id r.0 (pending_of r.1) r.2 ≡ true)
  unfolding flush_ledger
  flush_ledger-settled outcome l s d id held own =
      let v : View = record {
        ledger = l;
        disk = d;
        origins = [];
        pending_origins = s.pending_origins;
      } in
      elim (refresh-cases v) [
        | inl (_, short) ↦ rw (short, flush_ledger) (rw own refl)
        | inr read ↦
            rw (read, flush_ledger)
              (commit-settled outcome (refreshed v).ledger (refreshed v).disk id refl held)
      ]

  flush_rest-settled :
      (outcome : Write) (lo : Option DeliveryLedger) (s : LedgerSink S) (d : Disk) (id : String)
      → Set.contains id (held lo) ≡ true
      → Set.contains id (pending_of s) ≡ true
      → (let r = flush_rest outcome lo s d in is_settled id r.0 (pending_of r.1) r.2 ≡ true)
  unfolding Set.contains
  flush_rest-settled outcome none s d id h own = absurd (ground (arith, h))
  flush_rest-settled outcome (some l) s d id h own = flush_ledger-settled outcome l s d id h own

module _ {S V Config : Type 0} (sink : Sink S String Config (SpanOp V)) where
  -- A flush by a writer that holds a span as delivered leaves the span in the index if it succeeds;
  -- if it fails at any point, the writer still holds the span or the index has it.
  pub flush-settled :
      (outcome : Write) (s : LedgerSink S) (d : Disk) (id : String)
      → Set.contains id (pending_of s) ≡ true
      → (let r = flush sink outcome s d in is_settled id r.0 (pending_of r.1) r.2 ≡ true)
  unfolding flush
  flush-settled outcome s d id h =
      let s' = record s { inner = (sink.flush s.inner).1 } in
      elim (Result-cases (sink.flush s.inner).0) [
        | inl (_, failed) ↦ rw (failed, flush) (rw h refl)
        | inr (_, done) ↦ rw (done, flush) (flush_rest-settled outcome s.ledger s' d id h h)
      ]
