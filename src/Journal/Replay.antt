-- ===== src/Journal/Replay.antt =====
-- A journal is read back as it was written, by daemons of several generations.
use mathlib.Core.Path.{subst}
use mathlib.Core.List.{append-nil, append_assoc}
use braintrust_coding_agent.Prelude.{
  ℕ, ◌+◌, ◌≡◌, refl, sym, ap, ◌∙◌, List, [], ◌∷◌, ◌++◌, map, none, some, arith, inl, All,
}
use braintrust_coding_agent.Json.{Json, JsonArrays}
use braintrust_coding_agent.Translator.{ok}
use braintrust_coding_agent.Wire.Envelope.{Envelope, RedactedEnvelope, redacted}
use braintrust_coding_agent.Journal.{
  Content, Line, JournalRecord, JournalRecordEntry, PipelineControl,
}
use braintrust_coding_agent.Journal.Pi.{compact_pi_payload}
use braintrust_coding_agent.Journal.Writer.{
  File, JournalWriter, written, total, file_len, put_line, write_line, open_path, line_of, append,
  append_control,
}
use braintrust_coding_agent.Journal.Reader.{decode_record, replay}
use braintrust_coding_agent.Journal.Context.{Linked}
use braintrust_coding_agent.Journal.Restored.{IsRead, IsPlain, event-Tracks}

-- What happens to a journal: the writer is handed an event or a control, or another daemon opens it.
pub data Step (V O T : Type 0) : Type 0 where
  captures : Envelope V O T → Step V O T
  controls : PipelineControl → Step V O T
  reopens : Step V O T

module _ {V O T : Type 0} where
  pub total-append : (xs ys : List (Line V O T)) → total (xs ++ ys) ≡ total xs + total ys
  total-append [] ys = omega arith
  total-append (x ∷ xs) ys = omega (arith, total-append xs ys)

  pub put_line-whole :
      (line : Line V O T) (f : File V O T)
      → f.tail ≡ none
      → ((put_line line f).lines ≡ f.lines ++ line ∷ [])
        × (file_len (put_line line f) ≡ file_len f + line.bytes)
  unfolding put_line
  put_line-whole line f whole = simp whole (refl, omega (arith, total-append f.lines (line ∷ [])))

module _ (json : Json) (arrays : JsonArrays json) (request_config : json.Value → json.Object)
    {T : Type 0} (bytes_of : Content json.Value json.Object T → ℕ) where
  open json use {Value, Object}

  -- Each write succeeds; the positions are those that the writer returns.
  unfoldable pub record_all :
      List (Step Value Object T)
      → JournalWriter Value
      → File Value Object T
      → List ℕ × File Value Object T
  record_all [] w f = ([], f)
  record_all (captures env ∷ steps) w f =
      let (_, w', f') = append json arrays request_config bytes_of written env w f in
      let (acknowledged, f'') = record_all steps w' f' in (w'.position ∷ acknowledged, f'')
  record_all (controls c ∷ steps) w f =
      let (_, w', f') = append_control json arrays request_config bytes_of written c w f in
      let (acknowledged, f'') = record_all steps w' f' in (w'.position ∷ acknowledged, f'')
  record_all (reopens ∷ steps) w f = record_all steps (open_path f) f

  abbrev pub ReadEvent : RedactedEnvelope Value Object T → JournalRecord Value Object T → Type 0
  ReadEvent e (JournalRecord.event e') = IsRead json arrays request_config e e'
  ReadEvent e _ = ⊥

  -- one record for each step but a reopening, in order
  abbrev pub Matches :
      List (Step Value Object T) → List (JournalRecordEntry Value Object T) → Type 0
  Matches [] [] = Unit
  Matches (captures env ∷ steps) (x ∷ xs) = ReadEvent (redacted env) x.item × Matches steps xs
  Matches (controls c ∷ steps) (x ∷ xs) = (x.item ≡ JournalRecord.control c) × Matches steps xs
  Matches (reopens ∷ steps) xs = Matches steps xs
  Matches _ _ = ⊥

  abbrev pub PlainStep : Step Value Object T → Type 0
  PlainStep (captures env) = IsPlain json arrays request_config (redacted env)
  PlainStep _ = Unit

  -- The lines that lead from `f` to `end` are read, from the context `r` on, without an error, to
  -- entries of which `P` holds and which end at `positions`.
  pub record ReadsBack (P : List (JournalRecordEntry Value Object T) → Type 0) (r : List Value)
      (f end : File Value Object T) (positions : List ℕ) : Type 0 where
    pub new : List (Line Value Object T)
    pub entries : List (JournalRecordEntry Value Object T)
    pub lines : end.lines ≡ f.lines ++ new
    pub whole : end.tail ≡ none
    pub read : replay json arrays new (file_len f) r ≡ (entries, none)
    pub matches : P entries
    pub throughs : map (λ (x : JournalRecordEntry Value Object T). x.through) entries ≡ positions

  nothing_new :
      (P : List (JournalRecordEntry Value Object T) → Type 0) (r : List Value)
      (f : File Value Object T)
      → f.tail ≡ none
      → P []
      → ReadsBack P r f f []
  unfolding replay
  nothing_new P r f whole h = record {
    new = [];
    entries = [];
    lines = sym (append-nil f.lines);
    whole = whole;
    read = refl;
    matches = h;
    throughs = refl;
  }

  one_more :
      (P Q : List (JournalRecordEntry Value Object T) → Type 0) (r r' : List Value)
      (f end : File Value Object T) (positions : List ℕ) (line : Line Value Object T)
      (item : JournalRecord Value Object T)
      → f.tail ≡ none
      → decode_record json arrays line.content r ≡ ok (some item, r')
      → ((xs : List (JournalRecordEntry Value Object T))
          → P xs
          → Q (record { item = item; through = file_len f + line.bytes } ∷ xs))
      → ReadsBack P r' (put_line line f) end positions
      → ReadsBack Q r f end ((file_len f + line.bytes) ∷ positions)
  unfolding replay
  one_more P Q r r' f end positions line item whole decoded more rest =
      let put = put_line-whole line f whole in
      let read : replay json arrays rest.new (file_len f + line.bytes) r' ≡ (rest.entries, none) =
        subst (λ n. replay json arrays rest.new n r' ≡ (rest.entries, none)) put.1 rest.read in
      record {
        new = line ∷ rest.new;
        entries = record { item = item; through = file_len f + line.bytes } ∷ rest.entries;
        lines =
            rest.lines
            ∙ ap (λ ls. ls ++ rest.new) put.0
            ∙ append_assoc f.lines (line ∷ []) rest.new;
        whole = rest.whole;
        read = rw (decoded, read, replay) refl;
        matches = more rest.entries rest.matches;
        throughs = ap (λ ps. (file_len f + line.bytes) ∷ ps) rest.throughs;
      }

  at_position :
      (w : JournalWriter Value) (f : File Value Object T)
      (Q : List (JournalRecordEntry Value Object T) → Type 0) (r : List Value)
      (end : File Value Object T) (positions : List ℕ) (n : ℕ)
      → w.position ≡ file_len f
      → ReadsBack Q r f end ((file_len f + n) ∷ positions)
      → ReadsBack Q r f end ((w.position + n) ∷ positions)
  at_position w f Q r end positions n at_end back =
      subst (λ p. ReadsBack Q r f end ((p + n) ∷ positions)) (sym at_end) back

  -- What captures, controls and reopenings by other writers append, each write a success, is read
  -- back without an error to one record for each capture and control, in order, that ends at the
  -- position the writer had after it; a control and an event of another source as they were, an
  -- event of Pi's with every field of the envelope and of the payload but `event`, whose fields are
  -- those that `survives` names: of a context all, of a request its configuration, of an agent's
  -- end all but the messages, of a message's update the types, of any other event all; a context
  -- whose messages are no array loses these. The file has no incomplete line, the writer is at its
  -- end, no event of Pi's has the journal's own field, and the writer's context is empty or the
  -- reader's.
  pub record_all-ReadsBack :
      (steps : List (Step Value Object T)) (w : JournalWriter Value) (f : File Value Object T)
      (r : List Value)
      → All PlainStep steps
      → f.tail ≡ none
      → w.position ≡ file_len f
      → Linked json arrays w.pi_context r
      → (let (positions, end) = record_all steps w f in ReadsBack (Matches steps) r f end positions)
  unfolding record_all append append_control write_line put_line decode_record
  record_all-ReadsBack [] w f r plain whole at_end linked = nothing_new (Matches []) r f whole tt
  record_all-ReadsBack (reopens ∷ steps) w f r plain whole at_end linked =
      record_all-ReadsBack steps (open_path f) f r plain.1 whole refl (inl refl)
  record_all-ReadsBack (controls c ∷ steps) w f r plain whole at_end linked =
      let line = line_of json arrays request_config bytes_of (Content.control c) in
      let put = put_line-whole line f whole in
      at_position w f (Matches (controls c ∷ steps)) r _ _ line.bytes at_end (
        one_more (Matches steps) (Matches (controls c ∷ steps)) r r f _ _ line
          (JournalRecord.control c) whole refl (λ xs m. (refl, m))
          (record_all-ReadsBack steps (record w { position = w.position + line.bytes })
            (put_line line f) r plain.1 refl (ap (λ n. n + line.bytes) at_end ∙ sym put.1) linked))
  record_all-ReadsBack (captures env ∷ steps) w f r plain whole at_end linked =
      let (e', r', expanded, read, follows) =
        event-Tracks json arrays request_config (redacted env) w.pi_context r plain.0 linked in
      let (stored, context) =
        compact_pi_payload json arrays request_config (redacted env) w.pi_context in
      let line = line_of json arrays request_config bytes_of (Content.event stored) in
      let put = put_line-whole line f whole in
      at_position w f (Matches (captures env ∷ steps)) r _ _ line.bytes at_end (
        one_more (Matches steps) (Matches (captures env ∷ steps)) r r' f _ _ line
          (JournalRecord.event e') whole (rw expanded refl) (λ xs m. (read, m))
          (record_all-ReadsBack steps
            (record { position = w.position + line.bytes; pi_context = context }) (put_line line f)
            r' plain.1 refl (ap (λ n. n + line.bytes) at_end ∙ sym put.1) follows))
