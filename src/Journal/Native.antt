-- ===== src/Journal/Native.antt =====
-- What is kept of the object that Pi sends.
use braintrust_coding_agent.Prelude.{
  ◌≡◌, refl, sym, ap, ◌∙◌, String, true, false, not, ◌&&◌, ◌||◌, List, Option, none, some,
  if◌then◌else◌, is_some, arith, Option-cases, inl, inr,
}
use braintrust_coding_agent.Collections.{string_key, string_dec, same}
use braintrust_coding_agent.Json.{Json, JsonArrays}
use braintrust_coding_agent.Translator.{ok}
use braintrust_coding_agent.Journal.Pi.{
  pi_messages_delta, native_of, with_native, list_of, object_of, compact_request, compact_update,
  compact_message, compact_native, expand_delta, expand_native,
}

module _ (json : Json) where
  open json use {Value, Object, as_object, object, get, insert, remove}

  pub native_of-with_native :
      (n o : Object) (payload : Value)
      → native_of json payload ≡ some o
      → native_of json (with_native json n payload) ≡ some n
  native_of-with_native n o payload h = elim (Option-cases (as_object payload)) [
    | inl scalar ↦ absurd (ground (arith, h, scalar))
    | inr (p, fields) ↦ ground (
      arith,
      fields,
      json.as_object-object (insert "event" (object n) p),
      json.get-insert "event" "event" (object n) p,
      json.as_object-object n,
    )
  ]

  -- The payload has the same fields, but for Pi's object.
  abbrev pub OnlyEvent : Value → Value → Type 0
  OnlyEvent v v' =
      (p : Object) × (p' : Object) × (as_object v ≡ some p)
      × (as_object v' ≡ some p')
      × ((k : String) → get k (remove "event" p') ≡ get k (remove "event" p))

  pub with_native-OnlyEvent :
      (n o : Object) (payload : Value)
      → native_of json payload ≡ some o
      → OnlyEvent payload (with_native json n payload)
  with_native-OnlyEvent n o payload h = elim (Option-cases (as_object payload)) [
    | inl scalar ↦ absurd (ground (arith, h, scalar))
    | inr (p, fields) ↦
        let p' = insert "event" (object n) p in
        (
          p,
          p',
          fields,
          rw (fields, with_native) (json.as_object-object p'),
          λ k. ground (
            arith,
            json.get-remove k "event" p',
            json.get-remove k "event" p,
            json.get-insert k "event" (object n) p,
          ),
        )
  ]

  pub OnlyEvent-trans : (u v w : Value) → OnlyEvent u v → OnlyEvent v w → OnlyEvent u w
  OnlyEvent-trans u v w (p, q, up, vq, fields) (q', r, vq', wr, fields') =
      let same_object : q ≡ q' = cc in
      (
        p,
        r,
        up,
        wr,
        λ k. fields' k ∙ ap (λ o. get k (remove "event" o)) (sym same_object) ∙ fields k,
      )

module _ (json : Json) (arrays : JsonArrays json) (request_config : json.Value → json.Object) where
  open json use {Value, Object, as_object, object, get, insert, remove}

  -- what is kept of a request, and of the update of a message
  abbrev pub config_only : Option Value → Option Value
  config_only none = none
  config_only (some v) = some (object (request_config v))

  abbrev pub type_only : Option Value → Option Value
  type_only none = none
  type_only (some v) = elim (as_object v) [
    | none ↦ some v
    | some update ↦ some (object (arrays.retain (λ k. same k "type") update))
  ]

  -- What is meant to be kept of a field of Pi's object: all of a context, unless its messages are no
  -- array, and of other events what translation needs.
  unfoldable pub survives : String → String → Object → Option Value
  survives event k o =
      if same event "context"
      then (if same k "messages" && not (is_some (list_of json arrays (get "messages" o)))
          then none
          else get k o)
      else if same event "before_provider_request"
      then (if same k "payload" then config_only (get "payload" o) else get k o)
      else if same event "agent_end"
      then (if same k "messages" then none else get k o)
      else if same event "message_update"
      then (if same k "type"
          then get k o
          else if same k "assistantMessageEvent"
          then type_only (get "assistantMessageEvent" o)
          else none)
      else get k o

  -- The first object has what survives of the second.
  abbrev pub Survives : String → Object → Object → Type 0
  Survives event n o = (k : String) → get k n ≡ survives event k o

  pub other_keeps :
      (event : String) (o : Object) (w : List Value)
      → same event "context" ≡ false
      → compact_native json arrays request_config event o w
        ≡ ((compact_native json arrays request_config event o w).0, w)
  unfolding compact_native
  other_keeps event o w other = rw other refl

  request-Survives :
      (k : String) (o : Object)
      → get k (compact_request json arrays request_config o (get "payload" o))
        ≡ (if same k "payload" then config_only (get "payload" o) else get k o)
  request-Survives k o = elim (Option-cases (get "payload" o)) [
    | inl missing ↦ elim (string_dec k "payload") [
      | yes e ↦ rw e (ground (arith, missing))
      | no n ↦ ground (arith, missing, n)
    ]
    | inr (v, found) ↦
        ground (arith, found, json.get-insert k "payload" (object (request_config v)) o)
  ]

  update-Survives :
      (k : String) (o : Object)
      → get k (
          compact_update json arrays request_config o
            (object_of json arrays request_config (get "assistantMessageEvent" o)))
        ≡ (if same k "assistantMessageEvent"
            then type_only (get "assistantMessageEvent" o)
            else get k o)
  update-Survives k o = elim (Option-cases (get "assistantMessageEvent" o)) [
    | inl missing ↦ elim (string_dec k "assistantMessageEvent") [
      | yes e ↦ rw e (ground (arith, missing))
      | no n ↦ ground (arith, missing, n)
    ]
    | inr (v, found) ↦ elim (Option-cases (as_object v)) [
      | inl scalar ↦ elim (string_dec k "assistantMessageEvent") [
        | yes e ↦ rw e (ground (arith, found, scalar))
        | no n ↦ ground (arith, found, scalar, n)
      ]
      | inr (update, there) ↦ ground (
        arith,
        found,
        there,
        json.get-insert k "assistantMessageEvent"
            (object (arrays.retain (λ j. same j "type") update)) o,
      )
    ]
  ]

  two_fields :
      (same {K = String} "type" "message" ≡ false)
      × (same {K = String} "assistantMessageEvent" "message" ≡ false)
      × (same {K = String} "type" "assistantMessageEvent" ≡ false)
  unfolding string_dec
  two_fields = (refl, refl, refl)

  message-Survives :
      (k : String) (o : Object)
      → get k (compact_message json arrays request_config o) ≡ (
          if same k "type"
          then get k o
          else if same k "assistantMessageEvent"
          then type_only (get "assistantMessageEvent" o)
          else none)
  message-Survives k o =
      let (t, a, different) = two_fields in
      let before = remove "message" o in
      let after =
        compact_update json arrays request_config before
          (object_of json arrays request_config (get "assistantMessageEvent" before)) in
      let whole = λ (k : String).
        arrays.get-retain k (λ j. same j "type" || same j "assistantMessageEvent") after
        ∙ ap (λ v. if same k "type" || same k "assistantMessageEvent" then v else none)
            (update-Survives k before) in
      elim (string_dec k "type") [
        | yes e ↦
            rw e (ground (arith, whole "type", t, different, json.get-remove "type" "message" o))
        | no n ↦ elim (string_dec k "assistantMessageEvent") [
          | yes e ↦ rw e (
              ground (
                arith,
                whole "assistantMessageEvent",
                a,
                different,
                json.get-remove "assistantMessageEvent" "message" o,
              ))
          | no m ↦ ground (arith, whole k, n, m)
        ]
      ]

  pub other-Survives :
      (event : String) (o : Object) (w : List Value)
      → same event "context" ≡ false
      → Survives event (compact_native json arrays request_config event o w).0 o
  unfolding compact_native survives
  other-Survives event o w other k =
      ground
        (arith, other, request-Survives k o, message-Survives k o, json.get-remove k "messages" o)

  pub full-Survives :
      (event k : String) (o : Object) (messages : List Value)
      → same event "context" ≡ true
      → list_of json arrays (get "messages" o) ≡ some messages
      → survives event k o ≡ get k o
  unfolding survives
  full-Survives event k o messages context there = ground (arith, context, there)

  pub empty-Survives :
      (event k : String) (o : Object)
      → same event "context" ≡ true
      → list_of json arrays (get "messages" o) ≡ none
      → survives event k o ≡ get k (remove "messages" o)
  unfolding survives
  empty-Survives event k o context there =
      ground (arith, context, there, json.get-remove k "messages" o)

  pub without_delta :
      (k : String) (o : Object)
      → get pi_messages_delta o ≡ none
      → get k (remove pi_messages_delta o) ≡ get k o
  without_delta k o no_delta = elim (string_dec k pi_messages_delta) [
    | yes e ↦ rw e (ground (arith, no_delta, json.get-remove pi_messages_delta pi_messages_delta o))
    | no n ↦ ground (arith, n, json.get-remove k pi_messages_delta o)
  ]

  -- nothing is left to expand in a context without messages
  pub empty_context-expands :
      (o : Object) (r : List Value)
      → get pi_messages_delta o ≡ none
      → (let n = remove "messages" o in
          expand_native json arrays n r ≡ ok (remove pi_messages_delta n, r))
  unfolding expand_native
  empty_context-expands o r no_delta =
      let n = remove "messages" o in
      let no_delta' : get pi_messages_delta n ≡ none =
        ground (arith, no_delta, json.get-remove pi_messages_delta "messages" o) in
      let no_messages : get "messages" (remove pi_messages_delta n) ≡ none =
        ground
          (arith, json.get-remove "messages" "messages" o, without_delta "messages" n no_delta') in
      rw (no_delta', no_messages, expand_delta) refl
