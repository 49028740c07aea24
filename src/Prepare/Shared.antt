-- ===== src/Prepare/Shared.antt =====
-- The path that copies a shared operation only when the route changes it.
use braintrust_coding_agent.Prelude.{
  String, ◌≡◌, refl, sym, ap, ◌∙◌, Bool, true, false, not, ◌&&◌, ◌||◌, List, [], ◌∷◌, map, Option,
  none, some, if◌then◌else◌, is_some, is_empty, or_else, arith, Bool-cases, Option-cases, inl, inr,
}
use braintrust_coding_agent.Collections.{string_key, same}
use braintrust_coding_agent.Collections.Set
use braintrust_coding_agent.Json.{Json}
use braintrust_coding_agent.Span.{SpanRow, SpanOp, insert, merge, row_of, is_insert, with_row}
use braintrust_coding_agent.Wire.{SessionConfig, attached_span_ids, project_name}
use braintrust_coding_agent.Prepare.{
  Prepare, is_root, is_subagent, names_subagent, add_extra, extra_of, add_project, overlay,
  overlay_value, metadata_or_empty, apply_row, parents_of, root_or, apply_op, remember_root,
  needs_overlay, apply_shared_op, apply, apply_shared,
}

module _ (json : Json) where
  open json use {Value, Object, object, empty, as_object}

  -- absent metadata, told apart from an empty object by `apply_shared` only
  abbrev pub with_metadata : SpanRow Value → SpanRow Value
  with_metadata row = record row { metadata = some (metadata_or_empty json row.metadata) }

  abbrev pub plain : SpanOp Value → SpanOp Value
  plain (insert row) = insert (with_metadata row)
  plain (merge row) = merge row

  contains-inserted : (k : String) (ks : List String) → Set.contains k (Set.insert k ks) ≡ true
  contains-inserted k ks = ground (arith, Set.contains-insert k k ks)

  insert-inserted :
      (k : String) (ks : List String) → Set.insert k (Set.insert k ks) ≡ Set.insert k ks
  insert-inserted k ks = Set.insert_member k (Set.insert k ks) (contains-inserted k ks)

  is_root-remembered :
      (s : Prepare) (row : SpanRow Value)
      → is_root json (remember_root json s row) row ≡ is_root json s row
  is_root-remembered s row = elim (Bool-cases (is_root json s row)) [
    | inl root ↦ rw (root, contains-inserted row.span_id s.roots) refl
    | inr other ↦ rw (other, other) refl
  ]

  remember_root-twice :
      (s : Prepare) (row : SpanRow Value)
      → remember_root json (remember_root json s row) row ≡ remember_root json s row
  remember_root-twice s row = elim (Bool-cases (is_root json s row)) [
    | inl root ↦
        rw (root, contains-inserted row.span_id s.roots, insert-inserted row.span_id s.roots) refl
    | inr other ↦ rw (other, other) refl
  ]

  remember_root-source :
      (s : Prepare) (row : SpanRow Value) → (remember_root json s row).source ≡ s.source
  remember_root-source s row = ground arith

  add_project-none :
      (source : String) (project : Option String) (o : Object)
      → same source "codex" && is_some project ≡ false
      → add_project json source project o ≡ o
  add_project-none source none o h = refl
  add_project-none source (some project) o h = ground (arith, h)

  extra-none : (m : Option Value) → is_some m ≡ false → extra_of json m ≡ []
  extra-none none h = refl
  extra-none (some v) h = absurd (cc)

root_or-none :
    (parent root : Option String) (id : String)
    → is_some parent ≡ false
    → is_some root ≡ false
    → root_or (or_else root parent) id ≡ id
root_or-none none none id p r = refl
root_or-none (some x) root id p r = absurd (cc)
root_or-none none (some x) id p r = absurd (cc)

parents_of-none :
    (root : Bool) (parent : Option String) (ids : List String)
    → is_some parent ≡ false
    → parents_of root parent ids ≡ ids
parents_of-none true none ids p = refl
parents_of-none false none ids p = refl
parents_of-none root (some x) ids p = absurd (cc)

module _ (json : Json) {T : Type 0} where
  open json use {Value, Object, object, empty, as_object}

  overlay-none :
      (source : String) (config : SessionConfig Value Object T) (o : Object)
      → is_some config.additional_metadata ≡ false
      → same source "codex" && is_some (project_name config) ≡ false
      → overlay json source config o ≡ o
  unfolding overlay add_extra
  overlay-none source config o extra project =
      add_project-none json source (project_name config) _ project
      ∙ ap (λ l. add_extra json l o) (extra-none json config.additional_metadata extra)

  overlay_value-none :
      (source : String) (config : SessionConfig Value Object T) (v : Value)
      → is_some config.additional_metadata ≡ false
      → same source "codex" && is_some (project_name config) ≡ false
      → overlay_value json source config v ≡ v
  overlay_value-none source config v extra project = elim (Option-cases (as_object v)) [
    | inl e ↦ rw (e, overlay_value) refl
    | inr (o, e) ↦
        rw (e, overlay_value)
          (ap object (overlay-none source config o extra project) ∙ json.object-as_object v o e)
  ]

  module _ (config : SessionConfig Value Object T) (row : SpanRow Value) (s : Prepare)
      (unchanged : needs_overlay json config (insert row) s ≡ false) where
    abbrev root : Bool
    root = is_root json s row

    metadata-unchanged :
        (selected : Bool)
        → (selected ≡ true → root || names_subagent json s.source row ≡ true)
        → metadata_or_empty json (
            if selected
            then some (overlay_value json s.source config (metadata_or_empty json row.metadata))
            else row.metadata)
          ≡ metadata_or_empty json row.metadata
    unfolding needs_overlay
    metadata-unchanged false h = refl
    metadata-unchanged true h =
        overlay_value-none s.source config (metadata_or_empty json row.metadata)
          (ground (arith, unchanged, h refl)) (ground (arith, unchanged, h refl))

    tags-unchanged :
        (selected : Bool)
        → (selected ≡ true → root || names_subagent json s.source row ≡ true)
        → (if selected && not (is_empty config.tags) then some config.tags else row.tags) ≡ row.tags
    unfolding needs_overlay
    tags-unchanged false h = refl
    tags-unchanged true h = ground (arith, unchanged, h refl)

    -- what a route without overlay does to an insertion's row
    apply_row-insert :
        with_metadata json (apply_row json s.source config true root row) ≡ with_metadata json row
    unfolding needs_overlay apply_row
    apply_row-insert = λ i. record row {
      root_span_id =
          root_or-none (attached_span_ids config).0 (attached_span_ids config).1 row.root_span_id
            (ground (arith, unchanged)) (ground (arith, unchanged)) i;
      parent_span_ids =
          parents_of-none root (attached_span_ids config).0 row.parent_span_ids
            (ground (arith, unchanged)) i;
      metadata = some (
          metadata-unchanged (root || (same s.source "opencode" && is_subagent json s.source row))
            (λ h. ground (arith, h)) i);
      tags = tags-unchanged (root || is_subagent json s.source row) (λ h. ground (arith, h)) i;
    }

  apply_row-merge :
      (config : SessionConfig Value Object T) (row : SpanRow Value) (s : Prepare)
      → needs_overlay json config (merge row) s ≡ false
      → apply_row json s.source config false (is_root json s row) row ≡ row
  unfolding needs_overlay apply_row
  apply_row-merge config row s h = λ i. record row {
    root_span_id =
        root_or-none (attached_span_ids config).0 (attached_span_ids config).1 row.root_span_id
          (ground (arith, h)) (ground (arith, h)) i;
    parent_span_ids =
        parents_of-none (is_root json s row) (attached_span_ids config).0 row.parent_span_ids
          (ground (arith, h)) i;
  }

  apply_op-unchanged :
      (config : SessionConfig Value Object T) (op : SpanOp Value) (s : Prepare)
      → needs_overlay json config op s ≡ false
      → plain json (apply_op json config op s).0 ≡ plain json op
  unfolding apply_op
  apply_op-unchanged config (insert row) s h = ap insert (apply_row-insert config row s h)
  apply_op-unchanged config (merge row) s h = ap merge (apply_row-merge config row s h)

  apply_op-remembered :
      (config : SessionConfig Value Object T) (op : SpanOp Value) (s : Prepare)
      → apply_op json config op (remember_root json s (row_of op)) ≡ apply_op json config op s
  unfolding apply_op
  apply_op-remembered config op s = λ i. (
    with_row op (
        apply_row json (remember_root-source json s (row_of op) i) config (is_insert op)
          (is_root-remembered json s (row_of op) i) (row_of op)),
    remember_root-twice json s (row_of op) i,
  )

  apply_shared_op-apply_op :
      (config : SessionConfig Value Object T) (op : SpanOp Value) (s : Prepare)
      → (plain json (apply_shared_op json config op s).0 ≡ plain json (apply_op json config op s).0)
        × ((apply_shared_op json config op s).1 ≡ (apply_op json config op s).1)
  unfolding apply_shared_op
  apply_shared_op-apply_op config op s = elim (Bool-cases (needs_overlay json config op s)) [
    | inl copied ↦ rw (copied, apply_op-remembered config op s) (refl, refl)
    | inr shared ↦ rw shared (sym (apply_op-unchanged config op s shared), unfold apply_op in refl)
  ]

  -- The path that copies a shared operation only when needed gives the operations and the memory of
  -- roots of the plain path, but for absent metadata of an insertion, which the plain path may turn
  -- into an empty object.
  pub apply_shared-apply :
      (config : SessionConfig Value Object T) (ops : List (SpanOp Value)) (s : Prepare)
      → (map (plain json) (apply_shared json config ops s).0
          ≡ map (plain json) (apply json config ops s).0)
        × ((apply_shared json config ops s).1 ≡ (apply json config ops s).1)
  unfolding apply_shared apply
  apply_shared-apply config [] s = (refl, refl)
  apply_shared-apply config (op ∷ ops) s =
      let (one, same_memory) = apply_shared_op-apply_op config op s in
      let (rest, memory) = apply_shared-apply config ops (apply_op json config op s).1 in
      rw same_memory (rw one (ap (λ l. plain json (apply_op json config op s).0 ∷ l) rest), memory)
