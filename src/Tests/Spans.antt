-- ===== src/Tests/Spans.antt =====
-- Span operations: waiting roots and the owning turn.
use braintrust_coding_agent.Prelude.{
  ◌+◌, String, ◌≡◌, refl, Bool, true, false, List, [], ◌∷◌, ◌++◌, map, Option, none, some,
}
use braintrust_coding_agent.Collections.{string_key, string_dec}
use braintrust_coding_agent.Collections.Set
use braintrust_coding_agent.Collections.Map
use braintrust_coding_agent.Span.{SpanType, SpanRow, SpanOp, insert, merge, span_id_of}
use braintrust_coding_agent.Roots
use braintrust_coding_agent.Roots.{Work, Pending}
use braintrust_coding_agent.Roots.Release
use braintrust_coding_agent.Roots.Conservation
use braintrust_coding_agent.TurnLineage
use braintrust_coding_agent.TurnLineage.Published
use braintrust_coding_agent.Tests.JsonValue
use braintrust_coding_agent.Tests.JsonValue.{Value, boolean, text, end, field, plain_json}

abbrev pub span : String → List String → Option Value → SpanRow Value
span id parents metadata = record {
  span_id = id;
  root_span_id = id;
  parent_span_ids = parents;
  name = "";
  span_type = SpanType.task;
  start_ms = none;
  end_ms = none;
  input = none;
  output = none;
  metadata = metadata;
  metrics = none;
  error = none;
  late_merge_key = none;
  late_merge_version = none;
  turn_span_id = none;
  tags = none;
  is_turn = false;
  origin = none;
}

roots_program : Unit {0}
unfolding Roots.release Roots.process_op Roots.process_owned Set.contains Set.remove Map.get
    Map.insert Map.remove string_dec JsonValue.get JsonValue.insert JsonValue.remove
roots_program = tt

-- a root that waits, its closing update, and its first child
abbrev root : String → SpanOp Value
root id = insert (span id [] (some (JsonValue.object (field "_bt_defer_root" (boolean true) end))))

abbrev sent_root : String → SpanOp Value
sent_root id = insert (span id [] (some (JsonValue.object end)))

abbrev update : SpanOp Value
update = merge (span "active" [] none)

abbrev child : SpanOp Value
child = insert (span "turn" ("active" ∷ []) none)

-- the unit tests of the program: only the parent's root is sent, with its updates, before the child
roots_in_order :
    Roots.process_owned plain_json [] (root "unused" ∷ root "active" ∷ update ∷ child ∷ [])
    ≡ record {
      pending = ("unused", root "unused" ∷ []) ∷ [];
      ready = sent_root "active" ∷ update ∷ child ∷ [];
    }
unfolding roots_program
roots_in_order = refl

abbrev is_active : SpanOp Value → Bool
is_active op = elim (string_dec (span_id_of op) "active") [ yes _ ↦ true | no _ ↦ false ]

is_active-release : (op : SpanOp Value) → is_active (Roots.release plain_json op) ≡ is_active op
unfolding Roots.release
is_active-release (insert row) = refl
is_active-release (merge row) = refl

abbrev waiting : Pending plain_json
waiting = ("active", root "active" ∷ update ∷ []) ∷ []

waiting-Distinct : Set.Distinct (Map.keys waiting)
unfolding Set.contains
waiting-Distinct = (refl, tt)

process_owned-total_example :
    Set.Distinct (Map.keys (Roots.process_owned plain_json waiting (child ∷ [])).pending)
    × (Conservation.count_held is_active
            (Roots.process_owned plain_json waiting (child ∷ [])).pending
          + Conservation.count is_active (Roots.process_owned plain_json waiting (child ∷ [])).ready
        ≡ Conservation.count_held is_active waiting + Conservation.count is_active (child ∷ []))
process_owned-total_example =
    Conservation.process_owned-total plain_json is_active is_active-release waiting (child ∷ [])
      waiting-Distinct

abbrev work : Work plain_json
work = record { pending = waiting; ready = update ∷ [] }

process_op-sends_example :
    (before after : List (SpanOp Value)) × ((Roots.process_op plain_json child work).ready
      ≡ (work.ready
          ++ (before ++ (map (Roots.release plain_json) (root "active" ∷ update ∷ []) ++ after)))
        ++ child ∷ [])
unfolding roots_program
process_op-sends_example =
    Release.process_op-sends plain_json child "active" work (root "active" ∷ update ∷ []) refl refl
      refl refl

-- a row of a user turn
abbrev turn_row : SpanRow Value
turn_row = record (span "tool" [] (some (JsonValue.object (field "model" (text "m") end)))) {
  turn_span_id = some "turn";
}

turn_is_published :
    TurnLineage.stamp plain_json (insert turn_row ∷ merge (span "root" [] none) ∷ [])
    ≡ insert (record turn_row {
      metadata =
          some
            (JsonValue.object (field "model" (text "m") (field "turn_span_id" (text "turn") end)));
    })
      ∷ merge (span "root" [] none)
      ∷ []
unfolding TurnLineage.stamp TurnLineage.publish_turn JsonValue.insert string_dec
turn_is_published = refl

stamp-AllPublished_example :
    Published.AllPublished plain_json
      (insert turn_row ∷ [])
      (TurnLineage.stamp plain_json (insert turn_row ∷ []))
stamp-AllPublished_example = Published.stamp-AllPublished plain_json (insert turn_row ∷ [])
