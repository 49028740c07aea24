-- ===== src/Ledger/Growth.antt =====
-- What no writer takes back: the complete lines of the journal, and the identifiers of the index.
use mathlib.Core.List.{append-nil, append_assoc}
use braintrust_coding_agent.Prelude.{
  ℕ, zero, suc, ◌≡◌, refl, sym, ap, ◌∙◌, String, Bool, true, false, ◌&&◌, ◌||◌, List, [], ◌∷◌, ◌++◌,
  ltb, length, take, drop, arith, Bool-cases, ◌⊎◌, inl, inr,
}
use braintrust_coding_agent.Collections.{string_key}
use braintrust_coding_agent.Collections.Set
use braintrust_coding_agent.Translator.{Result, ok, err}
use braintrust_coding_agent.Ledger.{LedgerFile, Disk, DeliveryLedger}
use braintrust_coding_agent.Ledger.Index.{add_all, remember, remember_completed}
use braintrust_coding_agent.Ledger.Journal.{
  View, Write, written, unopened, torn, unindexed, half_indexed, Reading, start, after_reading,
  unread, read_line, read_lines, refresh, append, commit, commit_rest, close, with_line,
  unacknowledged, nothing_pending, acknowledgement,
}

pub contains-add_all :
    (k : String) (ids table : List String)
    → Set.contains k (add_all ids table) ≡ (Set.contains k table || Set.contains k ids)
unfolding add_all Set.contains
contains-add_all k [] table = ground arith
contains-add_all k (id ∷ ids) table =
    ground (arith, contains-add_all k ids (Set.insert id table), Set.contains-insert k id table)

-- the identifiers that a list of lines completes
abbrev pub completes : String → List LedgerFile → Bool
completes k [] = false
completes k (line ∷ lines) = Set.contains k line.completed_span_ids || completes k lines

completes-append :
    (k : String) (xs ys : List LedgerFile)
    → completes k (xs ++ ys) ≡ (completes k xs || completes k ys)
completes-append k [] ys = refl
completes-append k (x ∷ xs) ys = ground (arith, completes-append k xs ys)

take-length {ℓ} : {A : Type ℓ} (xs : List A) → take (length xs) xs ≡ xs
take-length [] = refl
take-length (x ∷ xs) = ap (λ l. x ∷ l) (take-length xs)

completes-drop :
    (k : String) (n : ℕ) (xs : List LedgerFile)
    → completes k (drop n xs) ≡ true
    → completes k xs ≡ true
completes-drop k zero xs h = h
completes-drop k (suc n) [] h = h
completes-drop k (suc n) (x ∷ xs) h = ground (arith, completes-drop k n xs h)

-- The index knows nothing that the checkpoint and the lines do not.
abbrev pub IsCovered : Disk → Type 0
IsCovered d =
    (k : String)
    → Set.contains k d.index.spans ≡ true
    → Set.contains k d.checkpoint.completed_span_ids || completes k d.lines ≡ true

pub record Grows (d e : Disk) : Type 0 where
  pub base : e.checkpoint ≡ d.checkpoint
  pub new : List LedgerFile
  pub lines : e.lines ≡ d.lines ++ new
  pub spans :
      (k : String) → Set.contains k d.index.spans ≡ true → Set.contains k e.index.spans ≡ true
  pub covered : IsCovered d → IsCovered e

pub Grows-refl : (d : Disk) → Grows d d
Grows-refl d = record {
  base = refl;
  new = [];
  lines = sym (append-nil d.lines);
  spans = λ k h. h;
  covered = λ c. c;
}

pub Grows-trans : {c d e : Disk} → Grows c d → Grows d e → Grows c e
Grows-trans {c} g h = record {
  base = h.base ∙ g.base;
  new = g.new ++ h.new;
  lines = h.lines ∙ ap (λ l. l ++ h.new) g.lines ∙ append_assoc c.lines g.new h.new;
  spans = λ k m. h.spans k (g.spans k m);
  covered = λ v. h.covered (g.covered v);
}

abbrev pub refreshed : View → View
refreshed v = after_reading v (read_lines (unread v) (start v))

pub refresh-cases :
    (v : View) → ((e : String) × (refresh v ≡ err e)) ⊎ (refresh v ≡ ok (refreshed v))
unfolding refresh
refresh-cases v = elim (Bool-cases (ltb (length v.disk.lines) v.ledger.journal_len)) [
  | inl short ↦ inl ("delivery ledger was truncated outside its lock", rw short refl)
  | inr long ↦ inr (rw long refl)
]

pub contains-read_lines :
    (k : String) (lines : List LedgerFile) (r : Reading)
    → Set.contains k (read_lines lines r).index.spans
      ≡ (Set.contains k r.index.spans || completes k lines)
unfolding read_lines read_line remember_completed
contains-read_lines k [] r = ground arith
contains-read_lines k (line ∷ lines) r = ground (
  arith,
  contains-read_lines k lines (read_line line r),
  contains-add_all k line.completed_span_ids r.index.spans,
)

pub after_reading-Grows :
    (v : View) → Grows v.disk (after_reading v (read_lines (unread v) (start v))).disk
unfolding remember
after_reading-Grows v =
    let member = λ (k : String). contains-read_lines k (unread v) (start v) in
    record {
      base = refl;
      new = [];
      lines = sym (append-nil v.disk.lines);
      spans = λ k h. ground (arith, member k, h);
      covered = λ c k h.
          ground (arith, member k, h, c k, completes-drop k v.ledger.journal_len v.disk.lines);
    }

cut :
    (l : DeliveryLedger) (d : Disk)
    → l.journal_len ≡ length d.lines
    → take l.journal_len d.lines ≡ d.lines
cut l d e = rw e (take-length d.lines)

-- a line at the end of the journal, with none or all of its identifiers in the index
with_line-Grows :
    (update : LedgerFile) (l : DeliveryLedger) (d e : Disk)
    → l.journal_len ≡ length d.lines
    → e.checkpoint ≡ d.checkpoint
    → e.lines ≡ (with_line update l d).lines
    → (indexed : Bool)
    → ((k : String)
        → Set.contains k e.index.spans
          ≡ (Set.contains k d.index.spans || (indexed && Set.contains k update.completed_span_ids)))
    → Grows d e
with_line-Grows update l d e read base lines indexed members = record {
  base = base;
  new = update ∷ [];
  lines = lines ∙ ap (λ xs. xs ++ update ∷ []) (cut l d read);
  spans = λ k h. ground (arith, members k, h);
  covered = λ c k h.
      rw (base, lines, cut l d read)
        (ground (arith, members k, h, c k, completes-append k d.lines (update ∷ [])));
}

pub append-Grows :
    (outcome : Write) (update : LedgerFile) (l : DeliveryLedger) (d : Disk)
    → l.journal_len ≡ length d.lines
    → Grows d (append outcome update l d).1
unfolding append remember remember_completed
append-Grows written update l d e =
    with_line-Grows update l d (append written update l d).1 e refl refl true
      (λ k. ground (arith, contains-add_all k update.completed_span_ids d.index.spans))
append-Grows unopened update l d e = Grows-refl d
append-Grows torn update l d e = record {
  base = refl;
  new = [];
  lines = cut l d e ∙ sym (append-nil d.lines);
  spans = λ k h. h;
  covered = λ c k h. rw (cut l d e) (c k h);
}
append-Grows unindexed update l d e =
    with_line-Grows update l d (append unindexed update l d).1 e refl refl false (λ k. ground arith)
append-Grows half_indexed update l d e =
    with_line-Grows update l d (append half_indexed update l d).1 e refl refl false
      (λ k. ground arith)

close-disk : (l : DeliveryLedger) (r : Result String DeliveryLedger × Disk) → (close l r).2 ≡ r.1
close-disk l (ok l', d) = refl
close-disk l (err e, d) = refl

commit_rest-Grows :
    (outcome : Write) (l : DeliveryLedger) (d : Disk)
    → l.journal_len ≡ length d.lines
    → Grows d (commit_rest outcome l d).2
unfolding commit_rest
commit_rest-Grows outcome l d e = elim (Bool-cases (nothing_pending l)) [
  | inl idle ↦ rw idle (Grows-refl d)
  | inr busy ↦
      rw (busy, close-disk l (append outcome (acknowledgement l) l d))
        (append-Grows outcome (acknowledgement l) l d e)
]

pub commit-Grows :
    (outcome : Write) (l : DeliveryLedger) (d : Disk)
    → l.journal_len ≡ length d.lines
    → Grows d (commit outcome l d).2
unfolding commit
commit-Grows outcome l d e = commit_rest-Grows outcome (unacknowledged l d) d e
