-- ===== src/Journal/Writer.antt =====
-- `JournalWriter`: one line for each captured event or control, at the end of the file.
use braintrust_coding_agent.Prelude.{
  ℕ, suc, ◌+◌, String, List, [], ◌∷◌, ◌++◌, Option, none, some, if◌then◌else◌, ltb, eqb,
}
use braintrust_coding_agent.Json.{Json, JsonArrays}
use braintrust_coding_agent.Translator.{Result, ok, err}
use braintrust_coding_agent.Wire.Envelope.{Envelope, redacted}
use braintrust_coding_agent.Journal.{Content, Line, PipelineControl, damaged}
use braintrust_coding_agent.Journal.Pi.{compact_pi_payload}

-- The complete lines, and what a failed write has left of one without its end.
pub record File (V O T : Type 0) : Type 0 where
  pub lines : List (Line V O T)
  pub tail : Option (Line V O T)

pub record JournalWriter (V : Type 0) : Type 0 where
  pub position : ℕ
  pub pi_context : List V

-- The whole line is on disk, or `n` bytes of it are and the call fails; all of them, if only the
-- synchronization fails.
pub data Write : Type 0 where
  written : Write
  stopped : ℕ → Write

module _ {V O T : Type 0} where
  -- what is left of a line's text: white space is still blank, and else it no longer parses
  abbrev pub shortened : Content V O T → Content V O T
  shortened Content.blank = Content.blank
  shortened _ = damaged "unexpected end of input"

  -- The first `m` bytes of a line. Without its end alone it still says the same.
  abbrev pub part : ℕ → Line V O T → Line V O T
  part m line = record {
    content = if eqb (suc m) line.bytes then line.content else shortened line.content;
    bytes = m;
  }

  abbrev pub total : List (Line V O T) → ℕ
  total [] = 0
  total (line ∷ lines) = line.bytes + total lines

  abbrev pub tail_bytes : Option (Line V O T) → ℕ
  tail_bytes none = 0
  tail_bytes (some line) = line.bytes

  abbrev pub file_len : File V O T → ℕ
  file_len f = total f.lines + tail_bytes f.tail

  -- what comes after an incomplete line is read with it
  abbrev both : Content V O T → Content V O T → Content V O T
  both Content.blank content = content
  both content Content.blank = content
  both _ _ = damaged "trailing characters"

  abbrev glued : Line V O T → Line V O T → Line V O T
  glued torn line = record {
    content = both torn.content line.content;
    bytes = torn.bytes + line.bytes;
  }

  abbrev pub joined : Option (Line V O T) → Line V O T → Line V O T
  joined none line = line
  joined (some torn) line = glued torn line

  unfoldable pub put_line : Line V O T → File V O T → File V O T
  put_line line f = record { lines = f.lines ++ joined f.tail line ∷ []; tail = none }

  unfoldable pub put_part : ℕ → Line V O T → File V O T → File V O T
  put_part n line f =
      if eqb n 0
      then f
      else if ltb n line.bytes
      then record f { tail = some (joined f.tail (part n line)) }
      else put_line line f

  abbrev pub open_path : File V O T → JournalWriter V
  open_path f = record { position = file_len f; pi_context = [] }

  unfoldable pub write_line :
      Write
      → Line V O T
      → JournalWriter V
      → File V O T
      → Result String ℕ × JournalWriter V × File V O T
  write_line written line w f =
      let through = w.position + line.bytes in
      (ok through, record w { position = through }, put_line line f)
  write_line (stopped n) line w f = (err "write failed", w, put_part n line f)

-- `bytes_of` is the length of the line that serde writes, with its end.
module _ (json : Json) (arrays : JsonArrays json) (request_config : json.Value → json.Object)
    {T : Type 0} (bytes_of : Content json.Value json.Object T → ℕ) where
  abbrev pub line_of : Content json.Value json.Object T → Line json.Value json.Object T
  line_of content = record { content = content; bytes = bytes_of content }

  -- the context moves on before the line is written
  unfoldable pub append :
      Write
      → Envelope json.Value json.Object T
      → JournalWriter json.Value
      → File json.Value json.Object T
      → Result String ℕ × JournalWriter json.Value × File json.Value json.Object T
  append outcome env w f =
      let (e, pi_context) =
        compact_pi_payload json arrays request_config (redacted env) w.pi_context in
      write_line outcome (line_of (Content.event e)) (record w { pi_context = pi_context }) f

  unfoldable pub append_control :
      Write
      → PipelineControl
      → JournalWriter json.Value
      → File json.Value json.Object T
      → Result String ℕ × JournalWriter json.Value × File json.Value json.Object T
  append_control outcome c w f = write_line outcome (line_of (Content.control c)) w f
