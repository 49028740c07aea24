-- ===== src/Journal/Next.antt =====
-- Calls of `next_record` one after the other.
use braintrust_coding_agent.Prelude.{
  ℕ, ◌+◌, ◌≡◌, refl, String, List, [], ◌∷◌, Option, none, some, inl, inr,
}
use braintrust_coding_agent.Json.{Json, JsonArrays}
use braintrust_coding_agent.Translator.{Result, ok, err, Result-cases}
use braintrust_coding_agent.Journal.{Line, JournalRecordEntry}
use braintrust_coding_agent.Journal.Reader.{
  JournalReader, decode_record, next_from, next_record, replay,
}

module _ (json : Json) (arrays : JsonArrays json) {T : Type 0} where
  open json use {Value, Object}

  -- what the caller of `next_record` goes on with
  abbrev pub called_again :
      Result String (Option (JournalRecordEntry Value Object T)) × JournalReader Value Object T
      → List (JournalRecordEntry Value Object T) × Option String
  called_again (err e, r) = ([], some e)
  called_again (ok none, r) = ([], none)
  called_again (ok (some x), r) =
      let (entries, error) = replay json arrays r.lines r.position r.pi_context in
      (x ∷ entries, error)

  next_from-called_again :
      (lines : List (Line Value Object T)) (position : ℕ) (context : List Value)
      → replay json arrays lines position context
        ≡ called_again (next_from json arrays lines position context)
  unfolding replay next_from
  next_from-called_again [] position context = refl
  next_from-called_again (line ∷ lines) position context =
      elim (Result-cases (decode_record json arrays line.content context)) [
        | inl (e, failed) ↦ rw (failed, next_from, replay) refl
        | inr ((none, context'), read) ↦
            rw (read, next_from, replay)
              (next_from-called_again lines (position + line.bytes) context')
        | inr ((some item, context'), read) ↦ rw (read, next_from, replay) refl
      ]

  -- `replay` is what calls of `next_record` give until one gives no record.
  pub next_record-called_again :
      (r : JournalReader Value Object T)
      → replay json arrays r.lines r.position r.pi_context
        ≡ called_again (next_record json arrays r)
  unfolding next_record
  next_record-called_again r = next_from-called_again r.lines r.position r.pi_context
