-- ===== src/Ledger/Journal.antt =====
-- A writer's methods on the shared files. Each runs under the lock of the files, so it is one step.
use braintrust_coding_agent.Prelude.{
  ℕ, suc, String, Bool, true, false, not, ◌&&◌, List, [], ◌∷◌, ◌++◌, if◌then◌else◌, is_empty, ltb,
  length, take, drop, retain,
}
use braintrust_coding_agent.Collections.{string_key}
use braintrust_coding_agent.Collections.Set
use braintrust_coding_agent.Collections.Map
use braintrust_coding_agent.Span.{OriginSnapshot, LateMergeVersion}
use braintrust_coding_agent.Translator.{Result, ok, err, map_ok}
use braintrust_coding_agent.Ledger.{LedgerFile, empty_file, OriginIndex, Disk, DeliveryLedger}
use braintrust_coding_agent.Ledger.Index
use braintrust_coding_agent.Ledger.Index.{remember, remember_completed, completed}
use braintrust_coding_agent.Ledger.Versions.{remember_versions}

abbrev pub Origins : Type 0
Origins = List (String × OriginSnapshot)

-- what the loop of `refresh` changes
pub record Reading : Type 0 where
  pub index : OriginIndex
  pub known_versions : List (String × LateMergeVersion)
  pub fresh : Origins
  pub origins : Origins
  pub pending_origins : Origins

-- `entry(span).or_insert(origin)`
abbrev pub or_insert : String → OriginSnapshot → Origins → Origins
or_insert span origin m = if Map.contains_key span m then m else Map.insert span origin m

add_fresh : Origins → Origins → Origins
add_fresh [] fresh = fresh
add_fresh ((span, origin) ∷ rest) fresh = add_fresh rest (or_insert span origin fresh)

-- another writer's origin replaces one that waits to be written
abbrev settle_origin : String → OriginSnapshot → Origins × Origins → Origins × Origins
settle_origin span origin (origins, pending) =
    if Map.contains_key span pending
    then (Map.insert span origin origins, Map.remove span pending)
    else (or_insert span origin origins, pending)

settle_origins : Origins → Origins × Origins → Origins × Origins
settle_origins [] found = found
settle_origins ((span, origin) ∷ rest) found = settle_origins rest (settle_origin span origin found)

unfoldable pub read_line : LedgerFile → Reading → Reading
unfolding add_fresh settle_origins
read_line update r =
    let (origins, pending) = settle_origins update.span_origins (r.origins, r.pending_origins) in
    record {
      index = remember_completed update.completed_span_ids update.late_merge_ids r.index;
      known_versions = remember_versions r.known_versions update.late_merge_versions;
      fresh = add_fresh update.span_origins r.fresh;
      origins = origins;
      pending_origins = pending;
    }

unfoldable pub read_lines : List LedgerFile → Reading → Reading
read_lines [] r = r
read_lines (line ∷ lines) r = read_lines lines (read_line line r)

-- a writer, the files, and the maps of origins that `refresh` is given
pub record View : Type 0 where
  pub ledger : DeliveryLedger
  pub disk : Disk
  pub origins : Origins
  pub pending_origins : Origins

abbrev pub start : View → Reading
start v = record {
  index = v.disk.index;
  known_versions = v.ledger.known_versions;
  fresh = [];
  origins = v.origins;
  pending_origins = v.pending_origins;
}

-- the lines that the writer has not read
abbrev pub unread : View → List LedgerFile
unread v = drop v.ledger.journal_len v.disk.lines

abbrev pub after_reading : View → Reading → View
after_reading v r = record {
  ledger = record v.ledger { journal_len = length v.disk.lines; known_versions = r.known_versions };
  disk = record v.disk { index = remember r.fresh r.index };
  origins = r.origins;
  pending_origins = r.pending_origins;
}

unfoldable pub refresh : View → Result String View
refresh v =
    if ltb (length v.disk.lines) v.ledger.journal_len
    then err "delivery ledger was truncated outside its lock"
    else ok (after_reading v (read_lines (unread v) (start v)))

-- How a write of a line ends: in full; before the file is touched; with the line incomplete; with
-- the line in full, and a failure before or between the two updates of the index.
pub data Write : Type 0 where
  written unopened torn unindexed half_indexed : Write

-- the lines with everything past those that the writer has read cut off, and a new one
abbrev pub with_line : LedgerFile → DeliveryLedger → Disk → Disk
with_line update l d = record d { lines = take l.journal_len d.lines ++ update ∷ []; torn = false }

unfoldable pub append :
    Write → LedgerFile → DeliveryLedger → Disk → Result String DeliveryLedger × Disk
append written update l d = (
  ok (record l { journal_len = suc l.journal_len }),
  record (with_line update l d) {
    index =
        remember_completed update.completed_span_ids update.late_merge_ids
          (remember update.span_origins d.index);
  },
)
append unopened update l d = (err "write failed", d)
append torn update l d =
    (err "write failed", record d { lines = take l.journal_len d.lines; torn = true })
append unindexed update l d = (err "write failed", with_line update l d)
append half_indexed update l d = (
  err "write failed",
  record (with_line update l d) { index = remember update.span_origins d.index },
)

abbrev pub unacknowledged : DeliveryLedger → Disk → DeliveryLedger
unacknowledged l d =
    let known = completed l.pending d.index.spans in
    let known_merges = completed l.pending_late_merges d.index.late_merges in
    record l {
      pending = retain (λ id. not (Set.contains id known)) l.pending;
      pending_late_merges = retain (λ id. not (Set.contains id known_merges)) l.pending_late_merges;
    }

abbrev pub nothing_pending : DeliveryLedger → Bool
nothing_pending l =
    is_empty l.pending && is_empty l.pending_late_merges && is_empty l.pending_versions

abbrev pub acknowledgement : DeliveryLedger → LedgerFile
acknowledgement l = record empty_file {
  completed_span_ids = l.pending;
  late_merge_ids = l.pending_late_merges;
  late_merge_versions = l.pending_versions;
}

abbrev pub acknowledged : DeliveryLedger → DeliveryLedger
acknowledged l = record l {
  pending = [];
  pending_late_merges = [];
  known_versions = remember_versions l.known_versions l.pending_versions;
  pending_versions = [];
}

abbrev pub close :
    DeliveryLedger
    → Result String DeliveryLedger × Disk
    → Result String (Unit {0}) × DeliveryLedger × Disk
close l (ok l', d) = (ok tt, acknowledged l', d)
close l (err e, d) = (err e, l, d)

-- the part of `commit` after what is known is taken out
unfoldable pub commit_rest :
    Write → DeliveryLedger → Disk → Result String (Unit {0}) × DeliveryLedger × Disk
commit_rest outcome l d =
    if nothing_pending l then (ok tt, l, d) else close l (append outcome (acknowledgement l) l d)

unfoldable pub commit :
    Write → DeliveryLedger → Disk → Result String (Unit {0}) × DeliveryLedger × Disk
unfolding append commit_rest
commit outcome l d = commit_rest outcome (unacknowledged l d) d

-- Where a load ends: nowhere early; before `rebuild_completed` commits, which a checkpoint or a
-- line that does not parse also brings about; before the checkpoint's origins are written; in
-- `refresh`, after so many lines; before the table of origins is rebuilt.
pub data Loading : Type 0 where
  sound unrebuilt unremembered : Loading
  unrefreshed : ℕ → Loading
  unreindexed : Loading

-- the files with the completed identifiers rebuilt
abbrev pub recompleted : Disk → Disk
recompleted d = record d {
  index =
      Index.rebuild_completed d.checkpoint.completed_span_ids d.checkpoint.late_merge_ids d.lines
        d.index;
}

-- a new writer, before it reads the journal
abbrev pub opened : Disk → View
opened d = record {
  ledger = record {
    journal_len = 0;
    pending = [];
    pending_late_merges = [];
    known_versions = d.checkpoint.late_merge_versions;
    pending_versions = [];
  };
  disk = record (recompleted d) {
    index = remember d.checkpoint.span_origins (recompleted d).index;
  };
  origins = d.checkpoint.span_origins;
  pending_origins = [];
}

abbrev pub reindexed : View → View
reindexed v = record v { disk = record v.disk { index = Index.rebuild v.origins v.disk.index } }

-- the files after a `refresh` of a new writer, which leaves them alone when it fails
abbrev pub disk_after : Disk → Result String View → Disk
disk_after d (ok v) = v.disk
disk_after d (err e) = d

-- the writer, with the origins, and the files
unfoldable pub load : Loading → Disk → Result String View × Disk
load sound d =
    let result = map_ok reindexed (refresh (opened d)) in
    (result, disk_after (opened d).disk result)
load unrebuilt d = (err "load failed", d)
load unremembered d = (err "load failed", recompleted d)
load (unrefreshed n) d = (
  err "load failed",
  record (opened d).disk { index = (read_lines (take n d.lines) (start (opened d))).index },
)
load unreindexed d = (err "load failed", disk_after (opened d).disk (refresh (opened d)))
