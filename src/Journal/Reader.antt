-- ===== src/Journal/Reader.antt =====
-- `JournalReader`: the records of a journal, one after the other.
use braintrust_coding_agent.Prelude.{
  ℕ, ◌+◌, ◌-◌, String, Bool, true, false, ◌||◌, List, [], ◌∷◌, Option, none, some, if◌then◌else◌,
  ltb, leb, eqb,
}
use braintrust_coding_agent.Json.{Json, JsonArrays}
use braintrust_coding_agent.Translator.{Result, ok, err}
use braintrust_coding_agent.Wire.Envelope.{RedactedEnvelope}
use braintrust_coding_agent.Journal.{Content, Line, JournalRecord, JournalRecordEntry}
use braintrust_coding_agent.Journal.Pi.{expand_pi_payload}
use braintrust_coding_agent.Journal.Writer.{File, part, shortened, file_len}

-- `lines` is what is left of the file, `position` counts the bytes that were read
pub record JournalReader (V O T : Type 0) : Type 0 where
  pub lines : List (Line V O T)
  pub position : ℕ
  pub pi_context : List V

module _ {V O T : Type 0} where
  -- a line without its end, cut once more
  abbrev pub cut_tail : ℕ → Option (Line V O T) → List (Line V O T)
  cut_tail limit none = []
  cut_tail limit (some torn) =
      if leb torn.bytes limit
      then torn ∷ []
      else if eqb limit 0
      then []
      else record { content = shortened torn.content; bytes = limit } ∷ []

  -- what `take(through)` lets through of a file
  unfoldable pub cut : ℕ → List (Line V O T) → Option (Line V O T) → List (Line V O T)
  cut limit [] tail = cut_tail limit tail
  cut limit (line ∷ lines) tail =
      let rest = cut (limit - line.bytes) lines tail in
      if leb line.bytes limit then line ∷ rest else if eqb limit 0 then [] else part limit line ∷ []

  -- none for a file that is not there
  unfoldable pub open_reader : Option (File V O T) → ℕ → Option (JournalReader V O T)
  open_reader none through = none
  open_reader (some f) through =
      some (record { lines = cut through f.lines f.tail; position = 0; pi_context = [] })

  abbrev pub recorded_len : Option (File V O T) → ℕ
  recorded_len none = 0
  recorded_len (some f) = file_len f

module _ (json : Json) (arrays : JsonArrays json) {T : Type 0} where
  abbrev decode_event :
      Result String (RedactedEnvelope json.Value json.Object T × List json.Value)
      → Result String (Option (JournalRecord json.Value json.Object T) × List json.Value)
  decode_event (err e) = err e
  decode_event (ok (e, pi_context)) = ok (some (JournalRecord.event e), pi_context)

  unfoldable pub decode_record :
      Content json.Value json.Object T
      → List json.Value
      → Result String (Option (JournalRecord json.Value json.Object T) × List json.Value)
  decode_record Content.blank pi_context = ok (none, pi_context)
  decode_record (Content.damaged reason) pi_context = err reason
  decode_record (Content.delivery_checkpoint route through) pi_context =
      ok (some (JournalRecord.delivery_checkpoint route through), pi_context)
  decode_record (Content.control c) pi_context = ok (some (JournalRecord.control c), pi_context)
  decode_record (Content.event e) pi_context =
      decode_event (expand_pi_payload json arrays e pi_context)

  unfoldable pub next_from :
      List (Line json.Value json.Object T)
      → ℕ
      → List json.Value
      → Result String (Option (JournalRecordEntry json.Value json.Object T))
        × JournalReader json.Value json.Object T
  next_from [] position pi_context =
      (ok none, record { lines = []; position = position; pi_context = pi_context })
  next_from (line ∷ lines) position pi_context =
      let through = position + line.bytes in
      elim (decode_record line.content pi_context) [
        | err e ↦ (err e, record { lines = lines; position = through; pi_context = pi_context })
        | ok (none, context') ↦ next_from lines through context'
        | ok (some item, context') ↦ (
          ok (some (record { item = item; through = through })),
          record { lines = lines; position = through; pi_context = context' },
        )
      ]

  unfoldable pub next_record :
      JournalReader json.Value json.Object T
      → Result String (Option (JournalRecordEntry json.Value json.Object T))
        × JournalReader json.Value json.Object T
  next_record r = next_from r.lines r.position r.pi_context

  -- the loop of `next_entry`
  unfoldable pub next_entry_from :
      List (Line json.Value json.Object T)
      → ℕ
      → List json.Value
      → Result String (Option (RedactedEnvelope json.Value json.Object T))
        × JournalReader json.Value json.Object T
  next_entry_from [] position pi_context =
      (ok none, record { lines = []; position = position; pi_context = pi_context })
  next_entry_from (line ∷ lines) position pi_context =
      let through = position + line.bytes in
      elim (decode_record line.content pi_context) [
        | err e ↦ (err e, record { lines = lines; position = through; pi_context = pi_context })
        | ok (some (JournalRecord.event e), context') ↦
            (ok (some e), record { lines = lines; position = through; pi_context = context' })
        | ok (_, context') ↦ next_entry_from lines through context'
      ]

  -- what calls of `next_record` give until the end, or until an error, which comes with them
  unfoldable pub replay :
      List (Line json.Value json.Object T)
      → ℕ
      → List json.Value
      → List (JournalRecordEntry json.Value json.Object T) × Option String
  replay [] position pi_context = ([], none)
  replay (line ∷ lines) position pi_context =
      let through = position + line.bytes in
      elim (decode_record line.content pi_context) [
        | err e ↦ ([], some e)
        | ok (none, context') ↦ replay lines through context'
        | ok (some item, context') ↦
            let (entries, error) = replay lines through context' in
            (record { item = item; through = through } ∷ entries, error)
      ]

  -- the two loops of `resume`: `inside` tells that `next_record` has seen only blank lines
  unfoldable pub seek :
      ℕ
      → Bool
      → List (Line json.Value json.Object T)
      → ℕ
      → List json.Value
      → Result String (JournalReader json.Value json.Object T)
  seek target inside [] position pi_context =
      if inside || ltb position target
      then err "recovery journal ended before its boundary"
      else ok (record { lines = []; position = position; pi_context = pi_context })
  seek target inside (line ∷ lines) position pi_context =
      let rest : Result String (JournalReader json.Value json.Object T) =
        elim (decode_record line.content pi_context) [
          | err e ↦ err e
          | ok (none, context') ↦ seek target true lines (position + line.bytes) context'
          | ok (some _, context') ↦ seek target false lines (position + line.bytes) context'
        ] in
      if inside || ltb position target
      then rest
      else ok (record { lines = line ∷ lines; position = position; pi_context = pi_context })

  abbrev pub at_boundary :
      ℕ
      → Result String (JournalReader json.Value json.Object T)
      → Result String (JournalReader json.Value json.Object T)
  at_boundary position (err e) = err e
  at_boundary position (ok r) =
      if eqb r.position position then ok r else err "invalid recovery boundary"

  abbrev pub opened :
      ℕ
      → Option (JournalReader json.Value json.Object T)
      → Result String (JournalReader json.Value json.Object T)
  opened position none = err "recovery journal is missing"
  opened position (some r) =
      at_boundary position (seek position false r.lines r.position r.pi_context)

  unfoldable pub resume :
      Option (File json.Value json.Object T)
      → ℕ
      → ℕ
      → Result String (JournalReader json.Value json.Object T)
  resume file position through =
      if leb position through
      then opened position (open_reader file through)
      else err "invalid recovery range"
