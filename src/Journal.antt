-- ===== src/Journal.antt =====
-- bt-daemon/src/journal.rs: the write-ahead journal of a session. A line is what serde writes and
-- reads back, with its length in bytes; what a journal's lines say is `Content`.
pub mod Pi
pub mod Writer
pub mod Reader
pub mod Context
pub mod Native
pub mod Restored
pub mod Replay
pub mod Next
pub mod Resume
pub mod Collect
pub mod Lost
use braintrust_coding_agent.Prelude.{ℕ, String, Bool, List}
use braintrust_coding_agent.Wire.{SessionRoute}
use braintrust_coding_agent.Wire.Envelope.{RedactedEnvelope}

pub data ControlKind : Type 0 where
  checkpoint finalize retire : ControlKind

pub record PipelineControl : Type 0 where
  pub kind : ControlKind
  pub bounds : List (String × ℕ)

-- A line of white space is blank, and `damaged` is one that does not parse, with the reason.
pub data Content (V O T : Type 0) : Type 0 where
  event : RedactedEnvelope V O T → Content V O T
  control : PipelineControl → Content V O T
  delivery_checkpoint : SessionRoute V O T → ℕ → Content V O T
  blank : Content V O T
  damaged : String → Content V O T

pub record Line (V O T : Type 0) : Type 0 where
  pub content : Content V O T
  pub bytes : ℕ

-- `JournalRecord`
pub data JournalRecord (V O T : Type 0) : Type 0 where
  event : RedactedEnvelope V O T → JournalRecord V O T
  control : PipelineControl → JournalRecord V O T
  delivery_checkpoint : SessionRoute V O T → ℕ → JournalRecord V O T

pub record JournalRecordEntry (V O T : Type 0) : Type 0 where
  pub item : JournalRecord V O T
  pub through : ℕ
