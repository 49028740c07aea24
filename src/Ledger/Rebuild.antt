-- ===== src/Ledger/Rebuild.antt =====
-- What a writer that starts knows: the index is rebuilt from the checkpoint and the journal.
use mathlib.Core.List.{append-nil}
use mathlib.Core.Path.{subst}
use braintrust_coding_agent.Prelude.{
  ℕ, zero, suc, take, true, ltb, false, ◌≡◌, refl, sym, ap, ◌∙◌, String, ◌||◌, List, [], ◌∷◌,
  length, arith,
}
use braintrust_coding_agent.Collections.{string_key}
use braintrust_coding_agent.Collections.Set
use braintrust_coding_agent.Translator.{Result, ok, err}
use braintrust_coding_agent.Ledger.{LedgerFile, Disk, OriginIndex}
use braintrust_coding_agent.Ledger.Index.{
  remember, remember_completed, remember_lines, rebuild_completed, rebuild,
}
use braintrust_coding_agent.Ledger.Journal.{
  View, Loading, sound, unrebuilt, unremembered, unrefreshed, unreindexed, start, read_lines,
  refresh, load, recompleted, disk_after, opened, reindexed,
}
use braintrust_coding_agent.Ledger.Growth.{
  refreshed, IsCovered, Grows, Grows-refl, completes, contains-add_all, contains-read_lines,
}

contains-remember_lines :
    (k : String) (lines : List LedgerFile) (index : OriginIndex)
    → Set.contains k (remember_lines lines index).spans
      ≡ (Set.contains k index.spans || completes k lines)
unfolding remember_lines remember_completed
contains-remember_lines k [] index = ground arith
contains-remember_lines k (line ∷ lines) index = ground (
  arith,
  contains-remember_lines k lines
      (remember_completed line.completed_span_ids line.late_merge_ids index),
  contains-add_all k line.completed_span_ids index.spans,
)

abbrev pub loaded : Disk → View
loaded d = reindexed (refreshed (opened d))

ltb_zero : (n : ℕ) → ltb n 0 ≡ false
ltb_zero n = ground arith

load-loaded : (d : Disk) → load sound d ≡ (ok (loaded d), (loaded d).disk)
unfolding load refresh
load-loaded d = rw (ltb_zero (length d.lines)) refl

refresh-opened : (d : Disk) → refresh (opened d) ≡ ok (refreshed (opened d))
unfolding refresh
refresh-opened d = rw (ltb_zero (length d.lines)) refl

load-unreindexed :
    (d : Disk) → load unreindexed d ≡ (err "load failed", (refreshed (opened d)).disk)
unfolding load
load-unreindexed d = ap (λ r. (err "load failed", disk_after (opened d).disk r)) (refresh-opened d)

-- what an index that is rebuilt has
abbrev pub IsRebuilt : Disk → Disk → Type 0
IsRebuilt d e =
    (k : String)
    → Set.contains k e.index.spans
      ≡ (Set.contains k d.checkpoint.completed_span_ids || completes k d.lines)

recompleted-IsRebuilt : (d : Disk) → IsRebuilt d (recompleted d)
unfolding rebuild_completed Set.contains
recompleted-IsRebuilt d k = ground (
  arith,
  contains-remember_lines k d.lines (
      remember_completed d.checkpoint.completed_span_ids d.checkpoint.late_merge_ids
        (record d.index { spans = []; late_merges = [] })),
  contains-add_all k d.checkpoint.completed_span_ids [],
)

completes-take :
    (k : String) (n : ℕ) (xs : List LedgerFile)
    → completes k (take n xs) ≡ true
    → completes k xs ≡ true
completes-take k zero xs h = absurd (cc)
completes-take k (suc n) [] h = h
completes-take k (suc n) (x ∷ xs) h = ground (arith, h, completes-take k n xs)

-- the lines that are read, of which the index has all already
read-IsRebuilt :
    (d : Disk) (lines : List LedgerFile)
    → ((k : String) → completes k lines ≡ true → completes k d.lines ≡ true)
    → IsRebuilt d (record (opened d).disk { index = (read_lines lines (start (opened d))).index })
unfolding remember
read-IsRebuilt d lines sub k =
    ground (arith, contains-read_lines k lines (start (opened d)), recompleted-IsRebuilt d k, sub k)

refreshed-IsRebuilt : (d : Disk) → IsRebuilt d (refreshed (opened d)).disk
unfolding remember
refreshed-IsRebuilt d k = read-IsRebuilt d d.lines (λ k h. h) k

loaded-IsRebuilt : (d : Disk) → IsRebuilt d (loaded d).disk
unfolding rebuild remember
loaded-IsRebuilt d k = refreshed-IsRebuilt d k

-- What a load leaves of the files: all as it was, or the index rebuilt.
abbrev pub Leaves : Loading → Disk → Disk → Type 0
Leaves unrebuilt d e = e ≡ d
Leaves _ d e = (e.lines ≡ d.lines) × (e.checkpoint ≡ d.checkpoint) × IsRebuilt d e

-- What it answers: a writer that has read all of these files, or an error.
abbrev pub Answers : Loading → Result String View → Disk → Type 0
Answers sound r e = (v : View) × (r ≡ ok v) × (v.disk ≡ e) × (v.ledger.journal_len ≡ length e.lines)
Answers _ r e = (error : String) × (r ≡ err error)

abbrev pub Rebuilds : Loading → Disk → Result String View × Disk → Type 0
Rebuilds loading d (r, e) = Leaves loading d e × Answers loading r e

-- A load that no failure stops returns a writer that has read every line; one that a failure stops,
-- at any of its writes to the index or between two lines, returns an error. A failure before the
-- first write of the index leaves the files as they were; else the lines and the checkpoint are as
-- they were, and the index has exactly the spans that these complete, whatever it had before.
pub load-Rebuilds : (loading : Loading) (d : Disk) → Rebuilds loading d (load loading d)
unfolding load
load-Rebuilds sound d =
    subst (Rebuilds sound d) (sym (load-loaded d))
      ((refl, refl, loaded-IsRebuilt d), (loaded d, refl, refl, refl))
load-Rebuilds unrebuilt d = (refl, ("load failed", refl))
load-Rebuilds unremembered d = ((refl, refl, recompleted-IsRebuilt d), ("load failed", refl))
load-Rebuilds (unrefreshed n) d = (
  (refl, refl, read-IsRebuilt d (take n d.lines) (λ k. completes-take k n d.lines)),
  ("load failed", refl),
)
load-Rebuilds unreindexed d =
    subst (Rebuilds unreindexed d) (sym (load-unreindexed d))
      ((refl, refl, refreshed-IsRebuilt d), ("load failed", refl))

IsRebuilt-Grows :
    (d e : Disk)
    → e.lines ≡ d.lines
    → e.checkpoint ≡ d.checkpoint
    → IsRebuilt d e
    → IsCovered d
    → Grows d e
IsRebuilt-Grows d e lines base rebuilt c = record {
  base = base;
  new = [];
  lines = lines ∙ sym (append-nil d.lines);
  spans = λ k h. rebuilt k ∙ c k h;
  covered = λ _ k h. rw (base, lines) (sym (rebuilt k) ∙ h);
}

Leaves-Grows : (loading : Loading) (d e : Disk) → IsCovered d → Leaves loading d e → Grows d e
Leaves-Grows unrebuilt d e c same_disk = subst (Grows d) (sym same_disk) (Grows-refl d)
Leaves-Grows sound d e c (lines, base, h) = IsRebuilt-Grows d e lines base h c
Leaves-Grows unremembered d e c (lines, base, h) = IsRebuilt-Grows d e lines base h c
Leaves-Grows (unrefreshed n) d e c (lines, base, h) = IsRebuilt-Grows d e lines base h c
Leaves-Grows unreindexed d e c (lines, base, h) = IsRebuilt-Grows d e lines base h c

pub load-Grows : (loading : Loading) (d : Disk) → IsCovered d → Grows d (load loading d).1
load-Grows loading d c = Leaves-Grows loading d (load loading d).1 c (load-Rebuilds loading d).0
