-- ===== src/Journal/Restored.antt =====
-- What a reader gives of an event that a writer has recorded.
use mathlib.Core.Path.{subst}
use braintrust_coding_agent.Prelude.{
  ◌≡◌, refl, sym, ◌∙◌, true, false, List, Option, none, some, if◌then◌else◌, drop, arith,
  Bool-cases, Option-cases, inl, inr,
}
use braintrust_coding_agent.Collections.{string_key, same}
use braintrust_coding_agent.Json.{Json, JsonArrays}
use braintrust_coding_agent.Translator.{ok}
use braintrust_coding_agent.Wire.Envelope.{RedactedEnvelope}
use braintrust_coding_agent.Journal.Pi.{
  pi_messages_delta, native_of, with_native, common_prefix, delta_of, list_of, compact_context,
  compact_native, compact_event, compact_pi_payload, expand_native, expand_event, expand_pi_payload,
}
use braintrust_coding_agent.Journal.Context.{Linked, unpacked, get-unpacked, context-restores}
use braintrust_coding_agent.Journal.Native.{
  native_of-with_native, OnlyEvent, with_native-OnlyEvent, OnlyEvent-trans, Survives, other_keeps,
  other-Survives, full-Survives, empty-Survives, without_delta, empty_context-expands,
}

module _ (json : Json) (arrays : JsonArrays json) (request_config : json.Value → json.Object) where
  open json use {Value, Object, as_object, object, get, insert, remove}

  abbrev PlainNative : Option Object → Type 0
  PlainNative none = Unit
  PlainNative (some o) = get pi_messages_delta o ≡ none

  module _ {T : Type 0} where
    unfoldable pub pi_native : RedactedEnvelope Value Object T → Option Object
    pi_native e = if same e.source "pi" then native_of json e.payload else none

    abbrev ReadNative :
        RedactedEnvelope Value Object T → RedactedEnvelope Value Object T → Option Object → Type 0
    ReadNative e e' none = e'.payload ≡ e.payload
    ReadNative e e' (some o) =
        OnlyEvent json e.payload e'.payload
        × ((o' : Object) × (native_of json e'.payload ≡ some o')
            × Survives json arrays request_config e.event o' o)

    -- `e'` is `e`, but for what Pi's object need not keep
    abbrev pub IsRead : RedactedEnvelope Value Object T → RedactedEnvelope Value Object T → Type 0
    IsRead e e' = (record e' { payload = e.payload } ≡ e) × ReadNative e e' (pi_native e)

    -- Pi does not use the name of the field that the journal adds.
    abbrev pub IsPlain : RedactedEnvelope Value Object T → Type 0
    IsPlain e = PlainNative (pi_native e)

    -- A reader with the context `r` reads what a writer with the context `w` records, and follows it.
    abbrev pub Tracks : RedactedEnvelope Value Object T → List Value → List Value → Type 0
    Tracks e w r =
        let (stored, w') = compact_pi_payload json arrays request_config e w in
        (e' : RedactedEnvelope Value Object T) × (r' : List Value) × (expand_pi_payload json arrays
            stored r
          ≡ ok (e', r'))
        × IsRead e e'
        × Linked json arrays w' r'

    track :
        (e stored e' : RedactedEnvelope Value Object T) (w w' r r' : List Value)
        → compact_pi_payload json arrays request_config e w ≡ (stored, w')
        → expand_pi_payload json arrays stored r ≡ ok (e', r')
        → IsRead e e'
        → Linked json arrays w' r'
        → Tracks e w r
    track e stored e' w w' r r' compacted expanded read linked =
        rw compacted (e', r', expanded, read, linked)

    bare-IsRead : (e : RedactedEnvelope Value Object T) → pi_native e ≡ none → IsRead e e
    bare-IsRead e h = (refl, subst (ReadNative e e) (sym h) refl)

    foreign-Tracks :
        (e : RedactedEnvelope Value Object T) (w r : List Value)
        → same e.source "pi" ≡ false
        → Linked json arrays w r
        → Tracks e w r
    unfolding compact_pi_payload expand_pi_payload pi_native
    foreign-Tracks e w r foreign linked =
        track e e e w w r r (rw foreign refl) (rw foreign refl) (bare-IsRead e (rw foreign refl))
          linked

    bare-Tracks :
        (e : RedactedEnvelope Value Object T) (w r : List Value)
        → same e.source "pi" ≡ true
        → native_of json e.payload ≡ none
        → Linked json arrays w r
        → Tracks e w r
    unfolding compact_pi_payload expand_pi_payload pi_native
    bare-Tracks e w r pi bare linked =
        track e e e w w r r (rw (pi, bare) refl) (ground (arith, pi, bare))
          (bare-IsRead e (rw pi bare)) linked

    -- the event with another object of Pi's
    abbrev pub with_object :
        RedactedEnvelope Value Object T → Object → RedactedEnvelope Value Object T
    with_object e n = record e { payload = with_native json n e.payload }

    pi_native-some :
        (e : RedactedEnvelope Value Object T) (o : Object)
        → same e.source "pi" ≡ true
        → native_of json e.payload ≡ some o
        → pi_native e ≡ some o
    unfolding pi_native
    pi_native-some e o pi found = rw pi found

    native-IsRead :
        (e e' : RedactedEnvelope Value Object T) (o n : Object)
        → pi_native e ≡ some o
        → record e' { payload = e.payload } ≡ e
        → OnlyEvent json e.payload e'.payload
        → native_of json e'.payload ≡ some n
        → Survives json arrays request_config e.event n o
        → IsRead e e'
    native-IsRead e e' o n h fields only found' kept =
        let here : ReadNative e e' (some o) = (only, (n, found', kept)) in
        (fields, subst (ReadNative e e') (sym h) here)

    pub compacted :
        (e : RedactedEnvelope Value Object T) (o n : Object) (w w' : List Value)
        → same e.source "pi" ≡ true
        → native_of json e.payload ≡ some o
        → compact_native json arrays request_config e.event o w ≡ (n, w')
        → compact_pi_payload json arrays request_config e w ≡ (with_object e n, w')
    unfolding compact_pi_payload
    compacted e o n w w' pi found h = rw (pi, found, h, compact_event) refl

    other_event-Tracks :
        (e : RedactedEnvelope Value Object T) (o : Object) (w r : List Value)
        → same e.source "pi" ≡ true
        → native_of json e.payload ≡ some o
        → same e.event "context" ≡ false
        → Linked json arrays w r
        → Tracks e w r
    unfolding expand_pi_payload
    other_event-Tracks e o w r pi found other linked =
        let n = (compact_native json arrays request_config e.event o w).0 in
        track e (with_object e n) (with_object e n) w w r r
          (compacted e o n w w pi found (other_keeps json arrays request_config e.event o w other))
          (rw (pi, other) refl)
          (native-IsRead e (with_object e n) o n (pi_native-some e o pi found) refl
            (with_native-OnlyEvent json n o e.payload found)
            (native_of-with_native json n o e.payload found)
            (other-Survives json arrays request_config e.event o w other))
          linked

    expanded :
        (e : RedactedEnvelope Value Object T) (o n : Object) (r r' : List Value)
        → same e.source "pi" ≡ true
        → same e.event "context" ≡ true
        → native_of json e.payload ≡ some o
        → expand_native json arrays o r ≡ ok (n, r')
        → expand_pi_payload json arrays e r ≡ ok (with_object e n, r')
    unfolding expand_pi_payload
    expanded e o n r r' pi context found h = rw (pi, context, found, h, expand_event) refl

    -- a context whose object is `n` in the journal, and `n'` when it is read
    context_event-Tracks :
        (e : RedactedEnvelope Value Object T) (o n n' : Object) (w w' r r' : List Value)
        → same e.source "pi" ≡ true
        → native_of json e.payload ≡ some o
        → same e.event "context" ≡ true
        → compact_native json arrays request_config e.event o w ≡ (n, w')
        → expand_native json arrays n r ≡ ok (n', r')
        → Survives json arrays request_config e.event n' o
        → Linked json arrays w' r'
        → Tracks e w r
    context_event-Tracks e o n n' w w' r r' pi found context c x kept linked =
        let stored = with_object e n in
        let stored_native = native_of-with_native json n o e.payload found in
        track e stored (with_object stored n') w w' r r' (compacted e o n w w' pi found c)
          (expanded stored n n' r r' pi context stored_native x)
          (native-IsRead e (with_object stored n') o n' (pi_native-some e o pi found) refl
            (OnlyEvent-trans json e.payload stored.payload (with_native json n' stored.payload)
              (with_native-OnlyEvent json n o e.payload found)
              (with_native-OnlyEvent json n' n stored.payload stored_native))
            (native_of-with_native json n' n stored.payload stored_native) kept)
          linked

    full_context-Tracks :
        (e : RedactedEnvelope Value Object T) (o : Object) (w r messages : List Value)
        → same e.source "pi" ≡ true
        → native_of json e.payload ≡ some o
        → same e.event "context" ≡ true
        → get pi_messages_delta o ≡ none
        → list_of json arrays (get "messages" o) ≡ some messages
        → Linked json arrays w r
        → Tracks e w r
    unfolding compact_native
    full_context-Tracks e o w r messages pi found context no_delta there linked =
        let n = common_prefix json arrays w messages in
        let delta = delta_of json arrays n (drop n messages) in
        context_event-Tracks e o (compact_context json arrays o w (some messages)).0
          (unpacked json arrays o delta messages) w messages r messages pi found context
          (rw (context, there) refl) (context-restores json arrays o w r messages linked)
          (λ k.
            get-unpacked json arrays k o delta messages no_delta there
            ∙ sym (full-Survives json arrays request_config e.event k o messages context there))
          (inr refl)

    empty_context-Tracks :
        (e : RedactedEnvelope Value Object T) (o : Object) (w r : List Value)
        → same e.source "pi" ≡ true
        → native_of json e.payload ≡ some o
        → same e.event "context" ≡ true
        → get pi_messages_delta o ≡ none
        → list_of json arrays (get "messages" o) ≡ none
        → Linked json arrays w r
        → Tracks e w r
    unfolding compact_native
    empty_context-Tracks e o w r pi found context no_delta there linked =
        let n = remove "messages" o in
        context_event-Tracks e o n (remove pi_messages_delta n) w w r r pi found context
          (rw (context, there) refl) (empty_context-expands json arrays request_config o r no_delta)
          (λ k.
            without_delta json arrays request_config k n
              (ground (arith, no_delta, json.get-remove pi_messages_delta "messages" o))
            ∙ sym (empty-Survives json arrays request_config e.event k o context there))
          linked

    pub event-Tracks :
        (e : RedactedEnvelope Value Object T) (w r : List Value)
        → IsPlain e
        → Linked json arrays w r
        → Tracks e w r
    event-Tracks e w r plain linked = elim (Bool-cases (same e.source "pi")) [
      | inr foreign ↦ foreign-Tracks e w r foreign linked
      | inl pi ↦ elim (Option-cases (native_of json e.payload)) [
        | inl bare ↦ bare-Tracks e w r pi bare linked
        | inr (o, found) ↦ elim (Bool-cases (same e.event "context")) [
          | inr other ↦ other_event-Tracks e o w r pi found other linked
          | inl context ↦
              let no_delta : get pi_messages_delta o ≡ none =
                subst PlainNative (pi_native-some e o pi found) plain in
              elim (Option-cases (list_of json arrays (get "messages" o))) [
                | inl nothing ↦
                    empty_context-Tracks e o w r pi found context no_delta nothing linked
                | inr (messages, there) ↦
                    full_context-Tracks e o w r messages pi found context no_delta there linked
              ]
        ]
      ]
    ]
