-- ===== src/Roots.antt =====
-- bt-daemon/src/pipeline/roots.rs: roots that wait for their first child before they are sent.
pub mod Release
pub mod Conservation
use braintrust_coding_agent.Prelude.{
  String, Bool, true, false, ◌&&◌, List, [], ◌∷◌, ◌++◌, map, Option, none, some, if◌then◌else◌,
}
use braintrust_coding_agent.Collections.Map
use braintrust_coding_agent.Collections.{string_key}
use braintrust_coding_agent.Json.{Json, is_flagged}
use braintrust_coding_agent.Span.{SpanRow, SpanOp, row_of, with_row, is_insert, span_id_of}

abbrev pub defer_key : String
defer_key = "_bt_defer_root"

module _ (json : Json) where
  open json use {Value, object, as_object, remove}

  -- The operations that wait, by the span that they are for.
  abbrev pub Pending : Type 0
  Pending = List (String × List (SpanOp Value))

  clear_flag : Option Value → Option Value
  clear_flag none = none
  clear_flag (some v) = elim (as_object v) [
    | none ↦ some v
    | some o ↦ some (object (remove defer_key o))
  ]

  -- what a released operation becomes
  unfoldable pub release : SpanOp Value → SpanOp Value
  unfolding clear_flag
  release op = with_row op (record (row_of op) { metadata = clear_flag (row_of op).metadata })

  abbrev pub is_deferred : SpanOp Value → Bool
  is_deferred op = is_insert op && is_flagged json defer_key (row_of op).metadata

  pub record Work : Type 0 where
    pub pending : Pending
    pub ready : List (SpanOp Value)

  release_parent : String → Work → Work
  release_parent parent w = elim (Map.get parent w.pending) [
    | none ↦ w
    | some root ↦ record {
      pending = Map.remove parent w.pending;
      ready = w.ready ++ map release root;
    }
  ]

  -- `for parent in &row.parent_span_ids`
  release_parents : List String → Work → Work
  release_parents [] w = w
  release_parents (p ∷ ps) w = release_parents ps (release_parent p w)

  hold_or_send : SpanOp Value → Work → Work
  hold_or_send op w =
      if is_deferred op
      then record w { pending = Map.insert (span_id_of op) (op ∷ []) w.pending }
      else record w { ready = w.ready ++ op ∷ [] }

  -- one round of the loop over the operations
  unfoldable pub process_op : SpanOp Value → Work → Work
  unfolding release_parent release_parents hold_or_send
  process_op op w = elim (Map.get (span_id_of op) w.pending) [
    | some root ↦ record w { pending = Map.insert (span_id_of op) (root ++ op ∷ []) w.pending }
    | none ↦ hold_or_send op (release_parents (row_of op).parent_span_ids w)
  ]

  unfoldable pub process_from : List (SpanOp Value) → Work → Work
  process_from [] w = w
  process_from (op ∷ ops) w = process_from ops (process_op op w)

  -- the state and the result of `process_owned`
  unfoldable pub process_owned : Pending → List (SpanOp Value) → Work
  unfolding process_from
  process_owned pending ops = process_from ops (record { pending = pending; ready = [] })
