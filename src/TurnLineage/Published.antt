-- ===== src/TurnLineage/Published.antt =====
-- What a reader of the stamped rows sees.
use braintrust_coding_agent.Prelude.{
  String, ◌≡◌, refl, Bool, true, ◌&&◌, List, [], ◌∷◌, Option, none, some, arith, ◌∙◌, if◌then◌else◌,
  is_some, Option-cases, inl, inr,
}
use braintrust_coding_agent.Collections.{string_key, same}
use braintrust_coding_agent.Json.{Json, field}
use braintrust_coding_agent.Span.{SpanRow, SpanOp, insert, merge, row_of, is_insert}
use braintrust_coding_agent.TurnLineage.{
  turn_span_id_key, with_turn, metadata_or_empty, publish_turn, stamp,
}

module _ (json : Json) where
  open json use {
    Value, Object, string, object, as_object, get, get-insert, get-empty, as_object-object,
  }

  -- the value of a metadata key
  abbrev pub read : String → Option Value → Option Value
  read k none = none
  read k (some v) = field json k v

  -- metadata that can take a key: none yet, or an object
  abbrev pub is_writable : Option Value → Bool
  is_writable none = true
  is_writable (some v) = is_some (as_object v)

  -- what a key reads as after stamping
  abbrev pub expected : String → SpanRow Value → Option Value
  expected k row = elim row.turn_span_id [
    | none ↦ read k row.metadata
    | some turn ↦
        if same turn_span_id_key k && is_writable row.metadata
        then some (string turn)
        else read k row.metadata
  ]

  read-object : (k : String) (o : Object) → read k (some (object o)) ≡ get k o
  read-object k o = ground (arith, as_object-object o)

  read-insert :
      (turn k : String) (o : Object)
      → read k (some (object (json.insert turn_span_id_key (string turn) o)))
        ≡ (if same turn_span_id_key k then some (string turn) else get k o)
  read-insert turn k o = read-object k _ ∙ get-insert k turn_span_id_key (string turn) o

  read-with_turn :
      (turn k : String) (m : Option Value)
      → read k (some (with_turn json turn (metadata_or_empty json m)))
        ≡ (if same turn_span_id_key k && is_writable m then some (string turn) else read k m)
  read-with_turn turn k none = ground (
    arith,
    read-insert turn k json.empty,
    get-empty k,
    as_object-object json.empty,
    as_object-object (json.insert turn_span_id_key (string turn) json.empty),
  )
  read-with_turn turn k (some v) = elim (Option-cases (as_object v)) [
    | inl e ↦ ground (arith, e)
    | inr (o, e) ↦ ground (arith, e, read-insert turn k o)
  ]

  pub record IsPublished (row row' : SpanRow Value) : Type 0 where
    pub rest : row' ≡ record row { metadata = row'.metadata }
    pub keys : (k : String) → read k row'.metadata ≡ expected k row

  publish_turn-IsPublished : (row : SpanRow Value) → IsPublished row (publish_turn json row)
  unfolding publish_turn
  publish_turn-IsPublished row = elim (Option-cases row.turn_span_id) [
    | inl e ↦ record { rest = ground (arith, e); keys = λ k. ground (arith, e) }
    | inr (turn, e) ↦ record {
      rest = ground (arith, e);
      keys = λ k. ground (arith, e, read-with_turn turn k row.metadata);
    }
  ]

  abbrev pub AllPublished : List (SpanOp Value) → List (SpanOp Value) → Type 0
  AllPublished [] [] = Unit
  AllPublished (op ∷ ops) (op' ∷ ops') =
      (is_insert op' ≡ is_insert op) × IsPublished (row_of op) (row_of op') × AllPublished ops ops'
  AllPublished _ _ = ⊥

  -- `stamp` keeps the operations, their order and all their fields but the metadata, which gains
  -- the owning turn where the row has one and the metadata is absent or an object.
  pub stamp-AllPublished : (ops : List (SpanOp Value)) → AllPublished ops (stamp json ops)
  unfolding stamp
  stamp-AllPublished [] = tt
  stamp-AllPublished (insert row ∷ ops) =
      (refl, publish_turn-IsPublished row, stamp-AllPublished ops)
  stamp-AllPublished (merge row ∷ ops) =
      (refl, publish_turn-IsPublished row, stamp-AllPublished ops)
