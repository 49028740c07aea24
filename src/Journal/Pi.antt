-- ===== src/Journal/Pi.antt =====
-- The payloads of Pi: a context repeats all messages, so its line has only what differs from the
-- context before.
use braintrust_coding_agent.Prelude.{
  ℕ, suc, String, ◌||◌, ◌&&◌, List, ◌∷◌, ◌++◌, Option, none, some, if◌then◌else◌, drop, take,
  length, ltb,
}
use braintrust_coding_agent.Collections.{string_key, same}
use braintrust_coding_agent.Json.{Json, JsonArrays}
use braintrust_coding_agent.Translator.{Result, ok, err}
use braintrust_coding_agent.Wire.Envelope.{RedactedEnvelope}

abbrev pub pi_messages_delta : String
pi_messages_delta = "_bt_messages_delta"

module _ (json : Json) where
  open json use {Value, Object, as_object, object, get, insert}

  -- `payload.get_mut("event").and_then(Value::as_object_mut)`
  abbrev pub native_of : Value → Option Object
  native_of payload = elim (as_object payload) [
    | none ↦ none
    | some o ↦ elim (get "event" o) [ none ↦ none | some e ↦ as_object e ]
  ]

  -- a write through that reference
  abbrev pub with_native : Object → Value → Value
  with_native native payload = elim (as_object payload) [
    | none ↦ payload
    | some o ↦ object (insert "event" (object native) o)
  ]

module _ (json : Json) (arrays : JsonArrays json) where
  open json use {Value, Object, as_object, object, get, insert, remove, empty}

  unfoldable pub common_prefix : List Value → List Value → ℕ
  common_prefix (x ∷ xs) (y ∷ ys) =
      let rest = common_prefix xs ys in if arrays.equal x y then suc rest else 0
  common_prefix _ _ = 0

  abbrev pub delta_of : ℕ → List Value → Value
  delta_of prefix suffix =
      object (
        insert "suffix" (arrays.array suffix) (insert "common_prefix" (arrays.number prefix) empty))

  abbrev pub list_of : Option Value → Option (List Value)
  list_of none = none
  list_of (some v) = arrays.as_array v

  -- `remove("messages")` comes before the test for an array
  abbrev pub compact_context : Object → List Value → Option (List Value) → Object × List Value
  compact_context native previous none = (remove "messages" native, previous)
  compact_context native previous (some messages) =
      let prefix = common_prefix previous messages in
      (
        insert pi_messages_delta (delta_of prefix (drop prefix messages))
            (remove "messages" native),
        messages,
      )

  module _ (request_config : Value → Object) where
    abbrev pub compact_request : Object → Option Value → Object
    compact_request native none = native
    compact_request native (some payload) =
        insert "payload" (object (request_config payload)) native

    abbrev pub compact_update : Object → Option Object → Object
    compact_update native none = native
    compact_update native (some update) =
        insert "assistantMessageEvent" (object (arrays.retain (λ k. same k "type") update)) native

    abbrev pub object_of : Option Value → Option Object
    object_of none = none
    object_of (some v) = as_object v

    abbrev pub compact_message : Object → Object
    compact_message native =
        arrays.retain (λ k. same k "type" || same k "assistantMessageEvent")
          (compact_update (remove "message" native)
            (object_of (get "assistantMessageEvent" (remove "message" native))))

    unfoldable pub compact_native : String → Object → List Value → Object × List Value
    compact_native event native previous =
        if same event "context"
        then compact_context native previous (list_of (get "messages" native))
        else (
          if same event "before_provider_request"
              then compact_request native (get "payload" native)
              else if same event "agent_end"
              then remove "messages" native
              else if same event "message_update"
              then compact_message native
              else native,
          previous,
        )

    module _ {T : Type 0} where
      abbrev pub compact_event :
          RedactedEnvelope Value Object T
          → List Value
          → Option Object
          → RedactedEnvelope Value Object T × List Value
      compact_event e previous none = (e, previous)
      compact_event e previous (some native) =
          let (native', previous') = compact_native e.event native previous in
          (record e { payload = with_native json native' e.payload }, previous')

      unfoldable pub compact_pi_payload :
          RedactedEnvelope Value Object T
          → List Value
          → RedactedEnvelope Value Object T × List Value
      compact_pi_payload e previous =
          if same e.source "pi"
          then compact_event e previous (native_of json e.payload)
          else (e, previous)

  abbrev pub field_of : String → Value → Option Value
  field_of k v = elim (as_object v) [ none ↦ none | some o ↦ get k o ]

  abbrev pub number_of : Option Value → Option ℕ
  number_of none = none
  number_of (some v) = arrays.as_u64 v

  -- the messages that a delta stands for
  abbrev pub messages_of : Option ℕ → Option (List Value) → List Value → Result String (List Value)
  messages_of none suffix previous = err "invalid Pi context common prefix"
  messages_of (some prefix) suffix previous =
      if ltb (length previous) prefix
      then err "Pi context common prefix exceeds prior context"
      else elim suffix [
        | none ↦ err "invalid Pi context suffix"
        | some messages ↦ ok (take prefix previous ++ messages)
      ]

  abbrev pub expand_delta : Object → List Value → Option Value → Result String (Object × List Value)
  expand_delta native previous none = elim (list_of (get "messages" native)) [
    | none ↦ ok (native, previous)
    | some messages ↦ ok (native, messages)
  ]
  expand_delta native previous (some delta) =
      elim (messages_of (number_of (field_of "common_prefix" delta))
        (list_of (field_of "suffix" delta)) previous) [
          | err e ↦ err e
          | ok messages ↦ ok (insert "messages" (arrays.array messages) native, messages)
        ]

  unfoldable pub expand_native : Object → List Value → Result String (Object × List Value)
  expand_native native previous =
      expand_delta (remove pi_messages_delta native) previous (get pi_messages_delta native)

  module _ {T : Type 0} where
    abbrev pub expand_event :
        RedactedEnvelope Value Object T
        → List Value
        → Option Object
        → Result String (RedactedEnvelope Value Object T × List Value)
    expand_event e previous none = ok (e, previous)
    expand_event e previous (some native) = elim (expand_native native previous) [
      | err error ↦ err error
      | ok (native', previous') ↦
          ok (record e { payload = with_native json native' e.payload }, previous')
    ]

    unfoldable pub expand_pi_payload :
        RedactedEnvelope Value Object T
        → List Value
        → Result String (RedactedEnvelope Value Object T × List Value)
    expand_pi_payload e previous =
        if same e.source "pi" && same e.event "context"
        then expand_event e previous (native_of json e.payload)
        else ok (e, previous)
