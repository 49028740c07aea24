-- ===== src/Journal/Lost.antt =====
-- A context whose line was not written.
use braintrust_coding_agent.Prelude.{
  ℕ, ◌<◌, ◌≡◌, refl, String, true, List, [], ◌∷◌, ◌++◌, none, some, arith, length, drop, ltb,
}
use braintrust_coding_agent.Collections.{string_key, same, same_self}
use braintrust_coding_agent.Json.{Json, JsonArrays}
use braintrust_coding_agent.Translator.{ok, err}
use braintrust_coding_agent.Wire.Envelope.{Envelope, RedactedEnvelope, redacted}
use braintrust_coding_agent.Journal.{Content, Line}
use braintrust_coding_agent.Journal.Pi.{
  pi_messages_delta, native_of, common_prefix, delta_of, list_of, number_of, field_of,
  compact_context, compact_native, compact_pi_payload, expand_delta, expand_native, expand_event,
  expand_pi_payload,
}
use braintrust_coding_agent.Journal.Writer.{
  File, JournalWriter, written, stopped, put_part, write_line, line_of, append,
}
use braintrust_coding_agent.Journal.Reader.{decode_record}
use braintrust_coding_agent.Journal.Context.{delta_prefix}
use braintrust_coding_agent.Journal.Native.{native_of-with_native}
use braintrust_coding_agent.Journal.Restored.{compacted, with_object}
use braintrust_coding_agent.Journal.Replay.{put_line-whole}

module _ (json : Json) (arrays : JsonArrays json) where
  open json use {Value, Object, get, insert, remove}

  -- a context of Pi's with these messages
  pub record IsContext {T : Type 0} (e : RedactedEnvelope Value Object T) (o : Object)
      (messages : List Value) : Type 0 where
    pub pi : same e.source "pi" ≡ true
    pub context : same e.event "context" ≡ true
    pub native : native_of json e.payload ≡ some o
    pub messages_there : list_of json arrays (get "messages" o) ≡ some messages

  prefix_refused :
      (native : Object) (r : List Value) (delta : Value) (n : ℕ)
      → number_of json arrays (field_of json arrays "common_prefix" delta) ≡ some n
      → length r < n
      → expand_delta json arrays native r (some delta)
        ≡ err "Pi context common prefix exceeds prior context"
  prefix_refused native r delta n a b =
      let too_long : ltb (length r) n ≡ true = ground arith in rw (a, too_long, expand_delta) refl

  context_refused :
      (o : Object) (w r messages : List Value)
      → length r < common_prefix json arrays w messages
      → expand_native json arrays (compact_context json arrays o w (some messages)).0 r
        ≡ err "Pi context common prefix exceeds prior context"
  unfolding expand_native
  context_refused o w r messages short =
      let n = common_prefix json arrays w messages in
      let delta = delta_of json arrays n (drop n messages) in
      rw
        (
          json.get-insert pi_messages_delta pi_messages_delta delta (remove "messages" o),
          same_self pi_messages_delta,
        )
        (prefix_refused
          (remove pi_messages_delta (insert pi_messages_delta delta (remove "messages" o))) r delta
          n (delta_prefix json arrays n (drop n messages)) short)

module _ (json : Json) (arrays : JsonArrays json) (request_config : json.Value → json.Object)
    {T : Type 0} (bytes_of : Content json.Value json.Object T → ℕ) where
  open json use {Value, Object, get}

  context_compacted :
      (e : RedactedEnvelope Value Object T) (o : Object) (w messages : List Value)
      → IsContext json arrays e o messages
      → compact_pi_payload json arrays request_config e w ≡ (
        with_object json arrays request_config e
            (compact_context json arrays o w (some messages)).0,
        messages,
      )
  unfolding compact_native
  context_compacted e o w messages c =
      compacted json arrays request_config e o _ w messages c.pi c.native
        (rw (c.context, c.messages_there) refl)

  refused :
      (e : RedactedEnvelope Value Object T) (o n : Object) (r messages : List Value)
      (reason : String)
      → IsContext json arrays e o messages
      → expand_native json arrays n r ≡ err reason
      → decode_record json arrays (Content.event (with_object json arrays request_config e n)) r
        ≡ err reason
  unfolding decode_record expand_pi_payload
  refused e o n r messages reason c h =
      rw (c.pi, c.context, native_of-with_native json n o e.payload c.native, h, expand_event) refl

  -- If the write of a Pi context fails before its first byte, and the writer then appends another
  -- context with success, to a file without an incomplete line, then a reader refuses that line if
  -- its context is shorter than the messages with which both contexts start.
  pub append-lost :
      (first later : Envelope Value Object T) (o o' : Object) (m m' : List Value)
      (w : JournalWriter Value) (f : File Value Object T) (r : List Value)
      → IsContext json arrays (redacted first) o m
      → IsContext json arrays (redacted later) o' m'
      → f.tail ≡ none
      → length r < common_prefix json arrays m m'
      → (let (_, w1, f1) = append json arrays request_config bytes_of (stopped 0) first w f in
          let (result, w2, f2) = append json arrays request_config bytes_of written later w1 f1 in
          (line : Line Value Object T) × (f2.lines ≡ f.lines ++ line ∷ [])
          × (result ≡ ok w2.position)
          × (decode_record json arrays line.content r
              ≡ err "Pi context common prefix exceeds prior context"))
  unfolding append write_line put_part
  append-lost first later o o' m m' w f r c c' whole short =
      let n = (compact_context json arrays o' m (some m')).0 in
      let stored = with_object json arrays request_config (redacted later) n in
      let line = line_of json arrays request_config bytes_of (Content.event stored) in
      rw
        (
          context_compacted (redacted first) o w.pi_context m c,
          context_compacted (redacted later) o' m m' c',
        )
        (
          line,
          (put_line-whole line f whole).0,
          refl,
          refused (redacted later) o' n r m' "Pi context common prefix exceeds prior context" c'
              (context_refused json arrays o' m r m' short),
        )
