-- ===== src/TurnLineage.antt =====
-- bt-daemon/src/translate/turn_lineage.rs: the wrapper that publishes the owning user turn.
pub mod Published
use mathlib.Core.Option
use braintrust_coding_agent.Prelude.{String, List, [], ◌∷◌, Option, none, some}
use braintrust_coding_agent.Json.{Json}
use braintrust_coding_agent.Span.{SpanRow, SpanOp, row_of, with_row}
use braintrust_coding_agent.Translator.{Result, map_ok, AgentTranslator}

abbrev pub turn_span_id_key : String
turn_span_id_key = "turn_span_id"

module _ (json : Json) where
  open json use {Value, Object, string, object, as_object, empty, insert}

  -- a metadata value with the turn in it; what is no object stays as it is
  abbrev with_turn : String → Value → Value
  with_turn turn v = elim (as_object v) [
    | none ↦ v
    | some o ↦ object (insert turn_span_id_key (string turn) o)
  ]

  -- `get_or_insert_with(|| Value::Object(Map::new()))`
  abbrev metadata_or_empty : Option Value → Value
  metadata_or_empty none = object empty
  metadata_or_empty (some v) = v

  abbrev publish : Option String → SpanRow Value → SpanRow Value
  publish none row = row
  publish (some turn) row = record row {
    metadata = some (with_turn turn (metadata_or_empty row.metadata));
  }

  unfoldable pub publish_turn : SpanRow Value → SpanRow Value
  publish_turn row = publish row.turn_span_id row

  unfoldable pub stamp : List (SpanOp Value) → List (SpanOp Value)
  stamp [] = []
  stamp (op ∷ ops) = with_row op (publish_turn (row_of op)) ∷ stamp ops

  -- `Ok(stamp(result?))`, with the state that the call left
  abbrev stamped :
      {S E : Type 0} → Result E (List (SpanOp Value)) × S → Result E (List (SpanOp Value)) × S
  stamped (r, s) = (map_ok stamp r, s)

  module _ {S E Event Ctx Bounds : Type 0} where
    unfoldable pub turn_lineage :
        AgentTranslator S E Event Ctx Bounds Value → AgentTranslator S E Event Ctx Bounds Value
    turn_lineage inner = record {
      handle = λ event ctx s. stamped (inner.handle event ctx s);
      drain_pending =
          λ ctx s. let (r, s') = inner.drain_pending ctx s in (map_ok (Option.map stamp) r, s');
      checkpoint = λ ctx s. stamped (inner.checkpoint ctx s);
      finalize = λ ctx s. stamped (inner.finalize ctx s);
      checkpoint_at = λ ctx bounds s. stamped (inner.checkpoint_at ctx bounds s);
      finalize_at = λ ctx bounds s. stamped (inner.finalize_at ctx bounds s);
      flush = λ ctx s. stamped (inner.flush ctx s);
    }
