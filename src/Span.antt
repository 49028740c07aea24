-- ===== src/Span.antt =====
-- bt-daemon/src/translate/mod.rs: the rows and the operations that translators emit. `V` is the
-- type of JSON values; an `Arc` is the value that it shares.
use braintrust_coding_agent.Prelude.{String, Bool, true, false, List, Option, ℤ}

pub data SpanType : Type 0 where
  task llm tool wait : SpanType

pub record OriginSnapshot : Type 0 where
  pub plugin_version : Option String
  pub bt_version : String
  pub source_version : Option String

pub record LateMergeVersion : Type 0 where
  pub ts_ms : ℤ
  pub native_id : Option String

pub record SpanRow (V : Type 0) : Type 0 where
  pub span_id : String
  pub root_span_id : String
  pub parent_span_ids : List String
  pub name : String
  pub span_type : SpanType
  pub start_ms : Option ℤ
  pub end_ms : Option ℤ
  pub input : Option V
  pub output : Option V
  pub metadata : Option V
  pub metrics : Option V
  pub error : Option String
  pub late_merge_key : Option String
  pub late_merge_version : Option LateMergeVersion
  pub turn_span_id : Option String
  pub tags : Option (List String)
  pub is_turn : Bool
  pub origin : Option OriginSnapshot

pub data SpanOp (V : Type 0) : Type 0 where
  insert : SpanRow V → SpanOp V
  merge : SpanRow V → SpanOp V

module _ {V : Type 0} where
  -- the pattern `SpanOp::Insert(row) | SpanOp::Merge(row)`
  abbrev pub row_of : SpanOp V → SpanRow V
  row_of (insert row) = row
  row_of (merge row) = row

  -- a write through that pattern
  abbrev pub with_row : SpanOp V → SpanRow V → SpanOp V
  with_row (insert _) row = insert row
  with_row (merge _) row = merge row

  -- `matches!(op, SpanOp::Insert(_))`
  abbrev pub is_insert : SpanOp V → Bool
  is_insert (insert _) = true
  is_insert (merge _) = false

  abbrev pub span_id_of : SpanOp V → String
  span_id_of op = (row_of op).span_id
