-- ===== src/Ledger/Delivered.antt =====
-- Which operations a writer passes on, and what it keeps of those that were delivered.
use Prim.Native.String
use braintrust_coding_agent.Prelude.{
  String, Bool, not, ◌&&◌, List, [], ◌∷◌, Option, none, some, if◌then◌else◌, is_some,
}
use braintrust_coding_agent.Collections.{string_key}
use braintrust_coding_agent.Collections.Set
use braintrust_coding_agent.Span.{LateMergeVersion, SpanOp, row_of}
use braintrust_coding_agent.Ledger.{DeliveryLedger}
use braintrust_coding_agent.Ledger.Versions.{remember_version}

-- `format!("{}\u{1f}{key}", row.span_id)`
unfoldable pub late_merge_id : String → String → String
late_merge_id span key = String.◌++◌ span (String.◌++◌ "\u{1f}" key)

abbrev pub is_new : DeliveryLedger → List String → List String → String → Option String → Bool
is_new l known known_merges span none =
    not (Set.contains span known) && not (Set.contains span l.pending)
is_new l known known_merges span (some key) =
    not (Set.contains (late_merge_id span key) known_merges)
    && not (Set.contains (late_merge_id span key) l.pending_late_merges)

abbrev pub record_version : Option LateMergeVersion → String → DeliveryLedger → DeliveryLedger
record_version none span l = l
record_version (some version) span l = record l {
  pending_versions = remember_version l.pending_versions span version;
}

abbrev pub record_end : Bool → String → DeliveryLedger → DeliveryLedger
record_end ended span l = if ended then record l { pending = Set.insert span l.pending } else l

abbrev pub record_merge : Option String → String → DeliveryLedger → DeliveryLedger
record_merge none span l = l
record_merge (some key) span l = record l {
  pending_late_merges = Set.insert (late_merge_id span key) l.pending_late_merges;
}

module _ {V : Type 0} where
  unfoldable pub should_emit : DeliveryLedger → SpanOp V → List String → List String → Bool
  should_emit l op known known_merges =
      is_new l known known_merges (row_of op).span_id (row_of op).late_merge_key

  unfoldable pub record_op : SpanOp V → DeliveryLedger → DeliveryLedger
  record_op op l =
      let row = row_of op in
      record_merge row.late_merge_key row.span_id (
        record_end (is_some row.end_ms) row.span_id
          (record_version row.late_merge_version row.span_id l))

  unfoldable pub record_emitted : List (SpanOp V) → DeliveryLedger → DeliveryLedger
  record_emitted [] l = l
  record_emitted (op ∷ ops) l = record_emitted ops (record_op op l)
