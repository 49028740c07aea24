-- ===== src/Prepare.antt =====
-- bt-daemon/src/pipeline/prepare.rs: what a route adds to the operations of a native translator.
pub mod Overlay
pub mod Shared
use text.Mathlib.Text.{starts_with}
use braintrust_coding_agent.Prelude.{
  String, Bool, true, false, not, ◌&&◌, ◌||◌, List, [], ◌∷◌, Option, none, some, if◌then◌else◌,
  is_some, is_empty, or_else,
}
use braintrust_coding_agent.Collections.{string_key, same}
use braintrust_coding_agent.Collections.Set
use braintrust_coding_agent.Json.{Json, field, is_flagged}
use braintrust_coding_agent.Span.{SpanType, SpanRow, SpanOp, row_of, with_row, is_insert}
use braintrust_coding_agent.Wire.{SessionConfig, attached_span_ids, project_name}
use braintrust_coding_agent.Translator.{Result, map_ok, AgentTranslator}

pub record Prepare : Type 0 where
  pub source : String
  pub roots : List String

unfoldable pub new : String → Prepare
new source = record { source = source; roots = [] }

abbrev pub is_task : SpanType → Bool
is_task SpanType.task = true
is_task _ = false

abbrev pub parents_of : Bool → Option String → List String → List String
parents_of true (some parent) ids = parent ∷ []
parents_of _ _ ids = ids

abbrev pub root_or : Option String → String → String
root_or none id = id
root_or (some root) id = root

module _ (json : Json) where
  open json use {Value, Object, string, object, as_object, empty, entries}

  -- a root by the session's memory, or a top-level task that is its own root
  abbrev pub is_root : Prepare → SpanRow Value → Bool
  is_root s row =
      Set.contains row.span_id s.roots
      || (is_task row.span_type
          && is_empty row.parent_span_ids
          && same row.span_id row.root_span_id)

  abbrev pub remember_root : Prepare → SpanRow Value → Prepare
  remember_root s row =
      if is_root s row then record s { roots = Set.insert row.span_id s.roots } else s

  abbrev pub has_field : String → Option Value → Bool
  has_field k none = false
  has_field k (some v) = is_some (field json k v)

  -- the metadata of a subagent's row
  abbrev pub names_subagent : String → SpanRow Value → Bool
  names_subagent source row =
      is_flagged json "is_subagent" row.metadata
      || (same source "codex" && has_field "agent_id" row.metadata)

  abbrev pub is_subagent : String → SpanRow Value → Bool
  is_subagent source row = is_task row.span_type && not row.is_turn && names_subagent source row

  -- `entry(key).or_insert_with(..)` for each extra field that is not the daemon's own
  unfoldable pub add_extra : List (String × Value) → Object → Object
  add_extra [] o = o
  add_extra ((k, v) ∷ extra) o =
      if starts_with k "_bt_" || is_some (json.get k o)
      then add_extra extra o
      else add_extra extra (json.insert k v o)

  abbrev pub extra_of : Option Value → List (String × Value)
  extra_of none = []
  extra_of (some v) = elim (as_object v) [ none ↦ [] | some o ↦ entries o ]

  abbrev pub add_project : String → Option String → Object → Object
  add_project source none o = o
  add_project source (some project) o =
      if same source "codex" then json.insert "project" (string project) o else o

  -- `get_or_insert_with(|| json!({}))`
  abbrev pub metadata_or_empty : Option Value → Value
  metadata_or_empty none = object empty
  metadata_or_empty (some v) = v

module _ (json : Json) {T : Type 0} where
  open json use {Value, Object, object, as_object}

  -- the configured metadata and, for Codex, the project
  unfoldable pub overlay : String → SessionConfig Value Object T → Object → Object
  overlay source config o =
      add_project json source (project_name config)
        (add_extra json (extra_of json config.additional_metadata) o)

  abbrev pub overlay_value : String → SessionConfig Value Object T → Value → Value
  overlay_value source config v = elim (as_object v) [
    | none ↦ v
    | some o ↦ object (overlay source config o)
  ]

  -- `insert` tells an insertion, `root` a root row
  unfoldable pub apply_row :
      String → SessionConfig Value Object T → Bool → Bool → SpanRow Value → SpanRow Value
  apply_row source config inserts root row =
      let (parent, attached) = attached_span_ids config in
      record row {
        root_span_id = root_or (or_else attached parent) row.root_span_id;
        parent_span_ids = parents_of root parent row.parent_span_ids;
        metadata =
            if inserts && (root || (same source "opencode" && is_subagent json source row))
            then some (overlay_value source config (metadata_or_empty json row.metadata))
            else row.metadata;
        tags =
            if inserts && (root || is_subagent json source row) && not (is_empty config.tags)
            then some config.tags
            else row.tags;
      }

  unfoldable pub apply_op :
      SessionConfig Value Object T → SpanOp Value → Prepare → SpanOp Value × Prepare
  apply_op config op s = (
    with_row op (apply_row s.source config (is_insert op) (is_root json s (row_of op)) (row_of op)),
    remember_root json s (row_of op),
  )

  unfoldable pub apply :
      SessionConfig Value Object T → List (SpanOp Value) → Prepare → List (SpanOp Value) × Prepare
  apply config [] s = ([], s)
  apply config (op ∷ ops) s =
      let (op', s') = apply_op config op s in
      let (ops', s'') = apply config ops s' in (op' ∷ ops', s'')

  -- whether an operation that other routes share must be copied for this one
  unfoldable pub needs_overlay : SessionConfig Value Object T → SpanOp Value → Prepare → Bool
  needs_overlay config op s =
      let (parent, root) = attached_span_ids config in
      is_some parent
      || is_some root
      || (is_insert op
          && (is_root json s (row_of op) || names_subagent json s.source (row_of op))
          && (not (is_empty config.tags)
              || is_some config.additional_metadata
              || (same s.source "codex" && is_some (project_name config))))

  unfoldable pub apply_shared_op :
      SessionConfig Value Object T → SpanOp Value → Prepare → SpanOp Value × Prepare
  apply_shared_op config op s =
      if needs_overlay config op s
      then apply_op config op (remember_root json s (row_of op))
      else (op, remember_root json s (row_of op))

  unfoldable pub apply_shared :
      SessionConfig Value Object T → List (SpanOp Value) → Prepare → List (SpanOp Value) × Prepare
  apply_shared config [] s = ([], s)
  apply_shared config (op ∷ ops) s =
      let (op', s') = apply_shared_op config op s in
      let (ops', s'') = apply_shared config ops s' in (op' ∷ ops', s'')
