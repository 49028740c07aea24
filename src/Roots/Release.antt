-- ===== src/Roots/Release.antt =====
-- When a waiting root is sent: all of it, in order, without the marker, before its first child.
use mathlib.Core.List.{append_assoc, append-nil}
use braintrust_coding_agent.Prelude.{
  String, true, false, ◌≡◌, refl, sym, ap, ◌∙◌, List, [], ◌∷◌, ◌++◌, map, Option, none, some, arith,
  inl, inr, Option-cases, Bool-cases, All, All-append,
}
use braintrust_coding_agent.Collections.{string_key, same}
use braintrust_coding_agent.Collections.Map
use braintrust_coding_agent.Collections.Set
use braintrust_coding_agent.Json.{Json, is_flagged}
use braintrust_coding_agent.Span.{SpanOp, insert, merge, row_of, span_id_of}
use braintrust_coding_agent.Roots.{
  Pending, Work, release, clear_flag, is_deferred, defer_key, release_parent, release_parents,
  hold_or_send, process_op, process_from, process_owned,
}

module _ (json : Json) where
  open json use {Value, Object, get, remove, as_object, object, get-remove, as_object-object}

  is_flagged-clear_flag : (m : Option Value) → is_flagged json defer_key (clear_flag json m) ≡ false
  unfolding clear_flag
  is_flagged-clear_flag none = refl
  is_flagged-clear_flag (some v) = elim (Option-cases (as_object v)) [
    | inl e ↦ ground (arith, e)
    | inr (o, e) ↦
        ground (arith, e, as_object-object (remove defer_key o), get-remove defer_key defer_key o)
  ]

  -- what the output holds: no insertion with the marker
  abbrev pub IsReleased : SpanOp Value → Type 0
  IsReleased op = is_deferred json op ≡ false

  release-IsReleased : (op : SpanOp Value) → IsReleased (release json op)
  unfolding release
  release-IsReleased (insert row) = is_flagged-clear_flag row.metadata
  release-IsReleased (merge row) = refl

  map-release-IsReleased : (ops : List (SpanOp Value)) → All IsReleased (map (release json) ops)
  map-release-IsReleased [] = tt
  map-release-IsReleased (op ∷ ops) = (release-IsReleased op, map-release-IsReleased ops)

  release_parent-IsReleased :
      (k : String) (w : Work json)
      → All IsReleased w.ready
      → All IsReleased (release_parent json k w).ready
  unfolding release_parent
  release_parent-IsReleased k w h = elim (Option-cases (Map.get k w.pending)) [
    | inl e ↦ rw (e, release_parent) h
    | inr (root, e) ↦
        rw (e, release_parent) (All-append IsReleased w.ready _ h (map-release-IsReleased root))
  ]

  release_parents-IsReleased :
      (ks : List String) (w : Work json)
      → All IsReleased w.ready
      → All IsReleased (release_parents json ks w).ready
  unfolding release_parents
  release_parents-IsReleased [] w h = h
  release_parents-IsReleased (k ∷ ks) w h =
      release_parents-IsReleased ks (release_parent json k w) (release_parent-IsReleased k w h)

  hold_or_send-IsReleased :
      (op : SpanOp Value) (w : Work json)
      → All IsReleased w.ready
      → All IsReleased (hold_or_send json op w).ready
  unfolding hold_or_send
  hold_or_send-IsReleased op w h = elim (Bool-cases (is_deferred json op)) [
    | inl e ↦ rw (e, hold_or_send) h
    | inr e ↦ rw (e, hold_or_send) (All-append IsReleased w.ready (op ∷ []) h (e, tt))
  ]

  process_op-IsReleased :
      (op : SpanOp Value) (w : Work json)
      → All IsReleased w.ready
      → All IsReleased (process_op json op w).ready
  unfolding process_op
  process_op-IsReleased op w h = elim (Option-cases (Map.get (span_id_of op) w.pending)) [
    | inl e ↦
        rw (e, process_op)
          (hold_or_send-IsReleased op _
            (release_parents-IsReleased (row_of op).parent_span_ids w h))
    | inr (root, e) ↦ rw (e, process_op) h
  ]

  process_from-IsReleased :
      (ops : List (SpanOp Value)) (w : Work json)
      → All IsReleased w.ready
      → All IsReleased (process_from json ops w).ready
  unfolding process_from
  process_from-IsReleased [] w h = h
  process_from-IsReleased (op ∷ ops) w h =
      process_from-IsReleased ops (process_op json op w) (process_op-IsReleased op w h)

  -- No insertion that is sent carries the deferral marker.
  process_owned-IsReleased :
      (pending : Pending json) (ops : List (SpanOp Value))
      → All IsReleased (process_owned json pending ops).ready
  unfolding process_owned
  process_owned-IsReleased pending ops =
      process_from-IsReleased ops (record { pending = pending; ready = [] }) tt

  release_parent-extends :
      (k : String) (w : Work json)
      → (after : List (SpanOp Value)) × ((release_parent json k w).ready ≡ w.ready ++ after)
  unfolding release_parent
  release_parent-extends k w = elim (Option-cases (Map.get k w.pending)) [
    | inl e ↦ ([], rw (e, release_parent, append-nil))
    | inr (root, e) ↦ (map (release json) root, rw (e, release_parent))
  ]

  hold_or_send-plain :
      (op : SpanOp Value) (w : Work json)
      → is_deferred json op ≡ false
      → (hold_or_send json op w).ready ≡ w.ready ++ op ∷ []
  unfolding hold_or_send
  hold_or_send-plain op w plain = ground (arith, plain)

  release_parent-sends :
      (k : String) (w : Work json) (root : List (SpanOp Value))
      → Map.get k w.pending ≡ some root
      → (release_parent json k w).ready ≡ w.ready ++ map (release json) root
  unfolding release_parent
  release_parent-sends k w root e = rw (e, release_parent)

  release_parent-keeps :
      (k j : String) (w : Work json) (root : List (SpanOp Value))
      → same j k ≡ false
      → Map.get k w.pending ≡ some root
      → Map.get k (release_parent json j w).pending ≡ some root
  unfolding release_parent
  release_parent-keeps k j w root other e = ground (arith, e, other, Map.get-remove k j w.pending)

  release_parents-extends :
      (ks : List String) (w : Work json)
      → (after : List (SpanOp Value)) × ((release_parents json ks w).ready ≡ w.ready ++ after)
  unfolding release_parents
  release_parents-extends [] w = ([], sym (append-nil w.ready))
  release_parents-extends (k ∷ ks) w =
      let (one, e) = release_parent-extends k w in
      let (more, e') = release_parents-extends ks (release_parent json k w) in
      (one ++ more, e' ∙ ap (λ l. l ++ more) e ∙ append_assoc w.ready one more)

  release_parents-sends :
      (k : String) (ks : List String) (w : Work json) (root : List (SpanOp Value))
      → Set.contains k ks ≡ true
      → Map.get k w.pending ≡ some root
      → (before after : List (SpanOp Value)) × ((release_parents json ks w).ready
          ≡ w.ready ++ (before ++ (map (release json) root ++ after)))
  unfolding release_parents Set.contains
  release_parents-sends k [] w root h e = cc
  release_parents-sends k (j ∷ ks) w root h e = elim (Bool-cases (same j k)) [
    | inl here ↦
        let (after, rest) = release_parents-extends ks (release_parent json j w) in
        (
          [],
          after,
          rest
              ∙ ap (λ l. l ++ after) (release_parent-sends j w root (ground (arith, here, e)))
              ∙ append_assoc w.ready (map (release json) root) after,
        )
    | inr there ↦
        let (one, more) = release_parent-extends j w in
        let (before, after, rest) =
          release_parents-sends k ks (release_parent json j w) root (ground (arith, there, h))
            (release_parent-keeps k j w root there e) in
        (
          one ++ before,
          after,
          rest
              ∙ ap (λ l. l ++ (before ++ (map (release json) root ++ after))) more
              ∙ append_assoc w.ready one _
              ∙ ap (λ l. w.ready ++ l) (sym (append_assoc one before _)),
        )
  ]

  -- An operation that names a waiting root, and is neither held nor deferred, sends what waits for
  -- the root, in order and unmarked, and then follows.
  pub process_op-sends :
      (op : SpanOp Value) (k : String) (w : Work json) (root : List (SpanOp Value))
      → Set.contains k (row_of op).parent_span_ids ≡ true
      → Map.get k w.pending ≡ some root
      → Map.get (span_id_of op) w.pending ≡ none
      → is_deferred json op ≡ false
      → (before after : List (SpanOp Value)) × ((process_op json op w).ready
          ≡ (w.ready ++ (before ++ (map (release json) root ++ after))) ++ op ∷ [])
  unfolding process_op
  process_op-sends op k w root parent held new plain =
      let (before, after, e) =
        release_parents-sends k (row_of op).parent_span_ids w root parent held in
      (
        before,
        after,
        rw (new, process_op)
            (hold_or_send-plain op (release_parents json (row_of op).parent_span_ids w) plain
              ∙ ap (λ l. l ++ op ∷ []) e),
      )
