-- ===== src/Ledger.antt =====
-- bt-daemon/src/delivery_ledger.rs: the record of the spans that a destination has accepted. The
-- writers of one destination share its files: a journal of complete lines, an older checkpoint,
-- and the index of delivery_ledger/origins.rs, two tables of a SQLite database.
pub mod Index
pub mod Versions
pub mod WeakOrigins
pub mod Journal
pub mod Delivered
pub mod Sink
pub mod Emission
pub mod Stage
pub mod Growth
pub mod Steps
pub mod Suppressed
pub mod Sent
pub mod Once
pub mod Fresh
pub mod Settled
pub mod Held
pub mod Rebuild
use braintrust_coding_agent.Prelude.{ℕ, String, List, [], ◌∷◌, ◌++◌, Bool}
use braintrust_coding_agent.Span.{OriginSnapshot, LateMergeVersion}

-- one line of the journal, or the checkpoint
pub record LedgerFile : Type 0 where
  pub completed_span_ids : List String
  pub late_merge_ids : List String
  pub span_origins : List (String × OriginSnapshot)
  pub late_merge_versions : List (String × LateMergeVersion)

abbrev pub empty_file : LedgerFile
empty_file = record {
  completed_span_ids = [];
  late_merge_ids = [];
  span_origins = [];
  late_merge_versions = [];
}

-- The tables `completed`, of the two kinds 0 and 1, and `origins`.
pub record OriginIndex : Type 0 where
  pub spans : List String
  pub late_merges : List String
  pub origins : List (String × OriginSnapshot)

-- What the writers share. A line that a failed write has left incomplete is told apart only by
-- being there.
pub record Disk : Type 0 where
  pub checkpoint : LedgerFile
  pub lines : List LedgerFile
  pub torn : Bool
  pub index : OriginIndex

-- One writer. `journal_len` counts the lines that it has read.
pub record DeliveryLedger : Type 0 where
  pub journal_len : ℕ
  pub pending : List String
  pub pending_late_merges : List String
  pub known_versions : List (String × LateMergeVersion)
  pub pending_versions : List (String × LateMergeVersion)
