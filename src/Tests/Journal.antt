-- ===== src/Tests/Journal.antt =====
-- A journal that two daemons write.
use braintrust_coding_agent.Prelude.{
  ℕ, String, Option, Bool, true, false, All, ◌≡◌, refl, List, [], ◌∷◌, ◌++◌, none, some, inl, pos,
  arith,
}
use braintrust_coding_agent.Collections.{string_key, string_dec, same_self}
use braintrust_coding_agent.Translator.{ok, err}
use braintrust_coding_agent.Wire.Envelope.{Envelope, redacted}
use native.Mathlib.Decide.{ℕ_discrete}
use braintrust_coding_agent.Route
use braintrust_coding_agent.Journal
use braintrust_coding_agent.Journal.{Content, Line, PipelineControl}
use braintrust_coding_agent.Journal.Pi
use braintrust_coding_agent.Journal.Writer
use braintrust_coding_agent.Journal.Writer.{File, JournalWriter}
use braintrust_coding_agent.Journal.Reader
use braintrust_coding_agent.Journal.Restored
use braintrust_coding_agent.Journal.Replay
use braintrust_coding_agent.Journal.Replay.{Step, captures, controls, reopens}
use braintrust_coding_agent.Journal.Resume
use braintrust_coding_agent.Journal.Lost
use braintrust_coding_agent.Journal.Collect
use braintrust_coding_agent.Journal.Collect.Safe
use braintrust_coding_agent.Wire.{SessionRoute}
use braintrust_coding_agent.Tests.Delivery.{route, digest_key}
use braintrust_coding_agent.Collections.Map
use braintrust_coding_agent.Tests.JsonValue
use braintrust_coding_agent.Tests.JsonValue.{
  Value, Object, text, object, end, field, array, plain_json, plain_arrays,
}

json_program : Unit {0}
unfolding JsonValue.get JsonValue.insert JsonValue.remove JsonValue.of_list JsonValue.to_list
    JsonValue.equal JsonValue.retain string_dec redacted
json_program = tt

-- the object that Pi hands to its plugin
abbrev context_of : List Value → Object
context_of messages = field "messages" (array messages) end

abbrev captured : String → Object → Envelope Value Object ℕ
captured event o = record {
  source = "pi";
  source_version = none;
  plugin_version = none;
  session_id = "s";
  event = event;
  ts_ms = pos 7;
  managed_run_id = none;
  capture = none;
  payload = object (field "event" (object o) end);
  route = none;
  config = none;
}

-- no request is sent in these journals
abbrev no_config : Value → Object
no_config v = end

abbrev bytes_of : Content Value Object ℕ → ℕ
bytes_of content = 10

abbrev question : Value
question = text "hello"

abbrev answer : Value
answer = text "hi"

abbrev first : Envelope Value Object ℕ
first = captured "context" (context_of (question ∷ []))

abbrev later : Envelope Value Object ℕ
later = captured "context" (context_of (question ∷ answer ∷ []))

abbrev retire : PipelineControl
retire = record { kind = Journal.retire; bounds = [] }

abbrev steps : List (Step Value Object ℕ)
steps = captures first ∷ captures later ∷ reopens ∷ captures later ∷ controls retire ∷ []

abbrev no_lines : File Value Object ℕ
no_lines = record { lines = []; tail = none }

abbrev fresh : JournalWriter Value
fresh = record { position = 0; pi_context = [] }

abbrev recorded : List ℕ × File Value Object ℕ
recorded = Replay.record_all plain_json plain_arrays no_config bytes_of steps fresh no_lines

journal_program : Unit {0}
unfolding json_program Restored.pi_native Pi.common_prefix Pi.compact_native Pi.compact_pi_payload
    Pi.expand_native Pi.expand_pi_payload Writer.put_line Writer.write_line Writer.append
    Writer.append_control Reader.cut Reader.decode_record Reader.replay Replay.record_all
journal_program = tt

recorded-positions : recorded.0 ≡ 10 ∷ 20 ∷ 30 ∷ 40 ∷ []
unfolding journal_program
recorded-positions = refl

record_all-ReadsBack_example :
    Replay.ReadsBack plain_json plain_arrays no_config bytes_of
      (Replay.Matches plain_json plain_arrays no_config bytes_of steps)
      []
      no_lines
      recorded.1
      recorded.0
unfolding json_program Restored.pi_native
record_all-ReadsBack_example =
    Replay.record_all-ReadsBack plain_json plain_arrays no_config bytes_of steps fresh no_lines []
      (refl, (refl, (tt, (refl, (tt, tt))))) refl refl (inl refl)

abbrev line_of : Content Value Object ℕ → Line Value Object ℕ
line_of = Writer.line_of plain_json plain_arrays no_config bytes_of

abbrev stored : Envelope Value Object ℕ → List Value → Content Value Object ℕ
stored env previous =
    Content.event
      (Pi.compact_pi_payload plain_json plain_arrays no_config (redacted env) previous).0

abbrev saved : File Value Object ℕ
saved = record {
  lines =
      line_of (stored first [])
      ∷ line_of Content.blank
      ∷ line_of (stored later (question ∷ []))
      ∷ line_of (Content.control retire)
      ∷ [];
  tail = none;
}

abbrev entry : Envelope Value Object ℕ → ℕ → Journal.JournalRecordEntry Value Object ℕ
entry env through = record { item = Journal.JournalRecord.event (redacted env); through = through }

resume-continues_example :
    Resume.StandsAt plain_json plain_arrays 10
      (entry later 30 ∷ [])
      none
      (Reader.resume plain_json plain_arrays (some saved) 10 30)
unfolding journal_program
resume-continues_example =
    Resume.resume-continues plain_json plain_arrays saved 30 [] (entry later 30 ∷ [])
      (entry first 10) none (omega arith, (omega arith, (omega arith, tt))) (omega arith) refl

append-lost_example :
    (let (_, w1, f1) =
        Writer.append plain_json plain_arrays no_config bytes_of
          (Writer.stopped 0)
          first
          fresh
          no_lines in
      let (result, w2, f2) =
        Writer.append plain_json plain_arrays no_config bytes_of Writer.written later w1 f1 in
      (line : Line Value Object ℕ) × (f2.lines ≡ [] ++ line ∷ [])
      × (result ≡ ok w2.position)
      × (Reader.decode_record plain_json plain_arrays line.content []
          ≡ err "Pi context common prefix exceeds prior context"))
unfolding journal_program
append-lost_example =
    Lost.append-lost plain_json plain_arrays no_config bytes_of first later
      (context_of (question ∷ [])) (context_of (question ∷ answer ∷ [])) (question ∷ [])
      (question ∷ answer ∷ []) fresh no_lines []
      (record { pi = refl; context = refl; native = refl; messages_there = refl })
      (record { pi = refl; context = refl; native = refl; messages_there = refl }) refl
      (omega arith)

-- an event of a route, and the checkpoint that another daemon wrote behind it
abbrev delivered : File Value Object ℕ
delivered = record {
  lines =
      line_of
        (Content.event (record (redacted first) { event = "session_start"; route = some route }))
      ∷ line_of (Content.delivery_checkpoint route 10)
      ∷ [];
  tail = none;
}

abbrev to_text : SessionRoute Value Object ℕ → String
to_text r = "route"

abbrev no_partition : String → String → Bool
no_partition source session = false

collect_program : Unit {0}
unfolding journal_program Collect.tally_item Collect.tally Collect.all_completed
    Collect.acknowledged Collect.acknowledged_through Collect.legacy_collectible Map.get Map.insert
    Map.remove
collect_program = tt

delivered-collected :
    (Collect.legacy_collectible plain_json plain_arrays to_text no_partition (some delivered)
      ≡ true)
    × (Collect.legacy_collectible plain_json plain_arrays to_text no_partition (some saved) ≡ false)
unfolding collect_program
delivered-collected = (refl, refl)

delivered-acknowledged :
    Collect.acknowledged_through plain_json plain_arrays {W = ℕ}
      (λ r. some 0)
      (some delivered)
      20
      route
    ≡ 10
unfolding collect_program Route.same_route ℕ_discrete
delivered-acknowledged = rw (same_self {K = Option ℕ} (some 0)) refl

legacy_collectible-IsDone_example :
    (entries : List (Journal.JournalRecordEntry Value Object ℕ)) × (Reader.replay plain_json
        plain_arrays
        (Reader.cut (Writer.file_len delivered) delivered.lines delivered.tail)
        0
        []
      ≡ (entries, none))
    × All (Safe.IsDone to_text no_partition entries) entries
unfolding collect_program
legacy_collectible-IsDone_example =
    Safe.legacy_collectible-IsDone plain_json plain_arrays to_text no_partition delivered refl
