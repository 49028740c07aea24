-- ===== src/Journal/Resume.antt =====
-- A reader that continues at the boundary of a record.
use braintrust_coding_agent.Prelude.{
  ℕ, ◌+◌, ◌≤◌, ◌<◌, ◌≡◌, refl, ap, ◌∙◌, String, Bool, true, false, List, [], ◌∷◌, ◌++◌, Option,
  none, some, arith, All, ltb, leb, eqb, inl, inr, Option-cases,
}
use braintrust_coding_agent.Json.{Json, JsonArrays}
use braintrust_coding_agent.Translator.{Result, ok, Result-cases}
use braintrust_coding_agent.Journal.{Line, JournalRecord, JournalRecordEntry}
use braintrust_coding_agent.Journal.Writer.{File}
use braintrust_coding_agent.Journal.Reader.{
  JournalReader, cut, open_reader, decode_record, replay, seek, at_boundary, resume,
}

module _ {V O T : Type 0} where
  abbrev pub HasBytes : Line V O T → Type 0
  HasBytes line = 1 ≤ line.bytes

module _ (json : Json) (arrays : JsonArrays json) {T : Type 0} where
  open json use {Value, Object}

  -- The line gives nothing, or the record that ends where the line does.
  data Reads (line : Line Value Object T) (lines : List (Line Value Object T)) (position : ℕ)
      (context : List Value) (entries : List (JournalRecordEntry Value Object T))
      (error : Option String) : Type 0 where
    skips :
        (context' : List Value)
        → decode_record json arrays line.content context ≡ ok (none, context')
        → replay json arrays lines (position + line.bytes) context' ≡ (entries, error)
        → Reads line lines position context entries error
    gives :
        (item : JournalRecord Value Object T) (context' : List Value)
        (rest : List (JournalRecordEntry Value Object T))
        → decode_record json arrays line.content context ≡ ok (some item, context')
        → entries ≡ record { item = item; through = position + line.bytes } ∷ rest
        → replay json arrays lines (position + line.bytes) context' ≡ (rest, error)
        → Reads line lines position context entries error

  replay-Reads :
      (line : Line Value Object T) (lines : List (Line Value Object T)) (position : ℕ)
      (context : List Value) (x : JournalRecordEntry Value Object T)
      (xs : List (JournalRecordEntry Value Object T)) (error : Option String)
      → replay json arrays (line ∷ lines) position context ≡ (x ∷ xs, error)
      → Reads line lines position context (x ∷ xs) error
  unfolding replay
  replay-Reads line lines position context x xs error h =
      elim (Result-cases (decode_record json arrays line.content context)) [
        | inl (e, failed) ↦ absurd (cc)
        | inr ((item, context'), decoded) ↦ elim (Option-cases item) [
          | inl nothing ↦
              let decoded' : decode_record json arrays line.content context ≡ ok (none, context') =
                cc in
              skips context' decoded' (ground (arith, h, decoded'))
          | inr (i, found) ↦
              let decoded' : decode_record json arrays line.content context
                  ≡ ok (some i, context') =
                cc in
              gives i context' (replay json arrays lines (position + line.bytes) context').0
                decoded' (ground (arith, h, decoded')) (ground (arith, h, decoded'))
        ]
      ]

  replay-above :
      (lines : List (Line Value Object T)) (position : ℕ) (context : List Value)
      (xs ys : List (JournalRecordEntry Value Object T)) (x : JournalRecordEntry Value Object T)
      (error : Option String)
      → All HasBytes lines
      → replay json arrays lines position context ≡ (xs ++ x ∷ ys, error)
      → position < x.through
  unfolding replay
  replay-above [] position context [] ys x error there h = absurd (cc)
  replay-above [] position context (y ∷ xs) ys x error there h = absurd (cc)
  replay-above (line ∷ lines) position context [] ys x error there h =
      elim (replay-Reads line lines position context x ys error h) [
        | skips context' decoded rest ↦
            let later =
              replay-above lines (position + line.bytes) context' [] ys x error there.1 rest in
            omega (arith, later)
        | gives item context' rest decoded e following ↦
            let same_end : x.through ≡ position + line.bytes = cc in
            omega (arith, same_end, there.0)
      ]
  replay-above (line ∷ lines) position context (y ∷ xs) ys x error there h =
      elim (replay-Reads line lines position context y (xs ++ x ∷ ys) error h) [
        | skips context' decoded rest ↦
            let later =
              replay-above lines (position + line.bytes) context' (y ∷ xs) ys x error there.1
                rest in
            omega (arith, later)
        | gives item context' rest decoded e following ↦
            let same_rest : rest ≡ xs ++ x ∷ ys = cc in
            let later =
              replay-above lines (position + line.bytes) context' xs ys x error there.1
                (following ∙ ap (λ es. (es, error)) same_rest) in
            omega (arith, later)
      ]

  -- The reader stands where the record ended, and what it reads from there is `(ys, error)`.
  abbrev pub StandsAt :
      ℕ
      → List (JournalRecordEntry Value Object T)
      → Option String
      → Result String (JournalReader Value Object T)
      → Type 0
  StandsAt target ys error result =
      (r : JournalReader Value Object T) × (result ≡ ok r)
      × (r.position ≡ target)
      × (replay json arrays r.lines r.position r.pi_context ≡ (ys, error))

  stops :
      (lines : List (Line Value Object T)) (position target : ℕ) (context : List Value)
      (ys : List (JournalRecordEntry Value Object T)) (error : Option String)
      → position ≡ target
      → replay json arrays lines position context ≡ (ys, error)
      → StandsAt target ys error (seek json arrays target false lines position context)
  unfolding seek
  stops [] position target context ys error e h =
      let there : ltb position target ≡ false = ground (arith, e) in rw there (_, refl, e, h)
  stops (line ∷ lines) position target context ys error e h =
      let there : ltb position target ≡ false = ground (arith, e) in rw there (_, refl, e, h)

  -- the step of `seek` before the target
  goes_on :
      (inside : Bool) (line : Line Value Object T) (lines : List (Line Value Object T))
      (position target : ℕ) (context context' : List Value)
      (item : Option (JournalRecord Value Object T))
      → position < target
      → decode_record json arrays line.content context ≡ ok (item, context')
      → seek json arrays target inside (line ∷ lines) position context
        ≡ seek json arrays target
            (elim item [ none ↦ true | some _ ↦ false ])
            lines
            (position + line.bytes)
            context'
  unfolding seek
  goes_on inside line lines position target context context' none before h =
      let there : ltb position target ≡ true = ground (arith, before) in ground (arith, there, h)
  goes_on inside line lines position target context context' (some item) before h =
      let there : ltb position target ≡ true = ground (arith, before) in ground (arith, there, h)

  seek-StandsAt :
      (inside : Bool) (lines : List (Line Value Object T)) (position : ℕ) (context : List Value)
      (xs ys : List (JournalRecordEntry Value Object T)) (x : JournalRecordEntry Value Object T)
      (error : Option String)
      → All HasBytes lines
      → replay json arrays lines position context ≡ (xs ++ x ∷ ys, error)
      → StandsAt x.through ys error (seek json arrays x.through inside lines position context)
  unfolding replay
  seek-StandsAt inside [] position context [] ys x error there h = absurd (cc)
  seek-StandsAt inside [] position context (y ∷ xs) ys x error there h = absurd (cc)
  seek-StandsAt inside (line ∷ lines) position context [] ys x error there h =
      let before = replay-above (line ∷ lines) position context [] ys x error there h in
      elim (replay-Reads line lines position context x ys error h) [
        | skips context' decoded rest ↦
            rw (goes_on inside line lines position x.through context context' none before decoded)
              (seek-StandsAt true lines (position + line.bytes) context' [] ys x error there.1 rest)
        | gives item context' rest decoded e following ↦
            let same_end : position + line.bytes ≡ x.through = cc in
            let same_rest : rest ≡ ys = cc in
            rw
              (goes_on inside line lines position x.through context context' (some item) before
                decoded)
              (stops lines (position + line.bytes) x.through context' ys error same_end
                (following ∙ ap (λ es. (es, error)) same_rest))
      ]
  seek-StandsAt inside (line ∷ lines) position context (y ∷ xs) ys x error there h =
      let before = replay-above (line ∷ lines) position context (y ∷ xs) ys x error there h in
      elim (replay-Reads line lines position context y (xs ++ x ∷ ys) error h) [
        | skips context' decoded rest ↦
            rw (goes_on inside line lines position x.through context context' none before decoded) (
              seek-StandsAt true lines (position + line.bytes) context' (y ∷ xs) ys x error there.1
                rest)
        | gives item context' rest decoded e following ↦
            let same_rest : rest ≡ xs ++ x ∷ ys = cc in
            rw
              (goes_on inside line lines position x.through context context' (some item) before
                decoded)
              (seek-StandsAt false lines (position + line.bytes) context' xs ys x error there.1
                (following ∙ ap (λ es. (es, error)) same_rest))
      ]

  at_boundary-StandsAt :
      (target : ℕ) (ys : List (JournalRecordEntry Value Object T)) (error : Option String)
      (result : Result String (JournalReader Value Object T))
      → StandsAt target ys error result
      → StandsAt target ys error (at_boundary json arrays target result)
  at_boundary-StandsAt target ys error result (r, found, at, rest) =
      let there : eqb r.position target ≡ true = ground (arith, at) in
      rw (found, there, at_boundary) (r, refl, at, rest)

  -- If a reader of a journal cut at `through`, of lines of one byte or more, gives records from the
  -- start, `x` among them, then `resume` at the end of `x`, no later than `through`, succeeds,
  -- stands there, and gives the records after `x`, until the same end or error.
  pub resume-continues :
      (f : File Value Object T) (through : ℕ) (xs ys : List (JournalRecordEntry Value Object T))
      (x : JournalRecordEntry Value Object T) (error : Option String)
      → All HasBytes (cut through f.lines f.tail)
      → x.through ≤ through
      → replay json arrays (cut through f.lines f.tail) 0 [] ≡ (xs ++ x ∷ ys, error)
      → StandsAt x.through ys error (resume json arrays (some f) x.through through)
  unfolding resume open_reader
  resume-continues f through xs ys x error there within h =
      let ok_range : leb x.through through ≡ true = ground (arith, within) in
      rw ok_range (
        at_boundary-StandsAt x.through ys error _
          (seek-StandsAt false (cut through f.lines f.tail) 0 [] xs ys x error there h))
