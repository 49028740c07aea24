-- ===== src/Journal/Collect.antt =====
-- What is read of old journals: `acknowledged_through`, `legacy_collectible` and
-- `envelope_from_redacted`.
pub mod Tally
pub mod Safe
use braintrust_coding_agent.Prelude.{
  ℕ, String, Bool, true, false, not, ◌&&◌, List, [], ◌∷◌, Option, none, some, if◌then◌else◌,
  is_empty, ltb, leb, unwrap_or,
}
use braintrust_coding_agent.Collections.{Key, string_key}
use braintrust_coding_agent.Collections.Map
use braintrust_coding_agent.Json.{Json, JsonArrays}
use braintrust_coding_agent.Wire.{SessionRoute, SessionConfig}
use braintrust_coding_agent.Wire.Envelope.{Envelope, RedactedEnvelope}
use braintrust_coding_agent.Route
use braintrust_coding_agent.Journal.{JournalRecord, JournalRecordEntry}
use braintrust_coding_agent.Journal.Writer.{File, file_len}
use braintrust_coding_agent.Journal.Reader.{cut, replay}

abbrev pub unless_damaged : Option String → Bool → Bool
unless_damaged none b = b
unless_damaged (some e) b = false

abbrev pub max : ℕ → ℕ → ℕ
max a b = if ltb a b then b else a

abbrev pub Progress : Type 0
Progress = List (String × ℕ)

abbrev pub raise_to : ℕ → Option ℕ → ℕ
raise_to through none = through
raise_to through (some previous) = max previous through

abbrev pub raised : String → ℕ → Progress → Progress
raised k through completed = Map.insert k (raise_to through (Map.get k completed)) completed

unfoldable pub all_completed : Progress → Progress → Bool
all_completed [] completed = true
all_completed ((route, through) ∷ observed) completed =
    leb through (unwrap_or (Map.get route completed) 0) && all_completed observed completed

abbrev pub judged : Option (Progress × Progress) → Bool
judged none = false
judged (some (observed, completed)) = not (is_empty observed) && all_completed observed completed

module _ {V O T : Type 0} where
  abbrev config_of : Option (SessionRoute V O T) → Option (SessionConfig V O T)
  config_of none = none
  config_of (some route) = some (
      Route.with_auth route (record {
        token = "";
        api_url = none;
        app_url = none;
        org_name = route.auth.org_name;
        org_id = none;
      }))

  unfoldable pub envelope_from_redacted : RedactedEnvelope V O T → Envelope V O T
  envelope_from_redacted r = record {
    source = r.source;
    source_version = r.source_version;
    plugin_version = r.plugin_version;
    session_id = r.session_id;
    event = r.event;
    ts_ms = r.ts_ms;
    managed_run_id = r.managed_run_id;
    capture = r.capture;
    payload = r.payload;
    route = r.route;
    config = config_of r.route;
  }

  -- the loop of `acknowledged_through`, which ends at an error as at the end
  unfoldable pub acknowledged :
      (SessionRoute V O T → Bool) → ℕ → List (JournalRecordEntry V O T) → ℕ
  acknowledged same_route so_far [] = so_far
  acknowledged same_route so_far (x ∷ xs) =
      let next : ℕ = elim x.item [
        | JournalRecord.delivery_checkpoint route through ↦
            if same_route route then max so_far through else so_far
        | _ ↦ so_far
      ] in
      acknowledged same_route next xs

  -- Routes are compared by their text, `to_text`; `exists` tells of a source and a session whether
  -- their partition is there, or cannot be looked for.
  module _ (to_text : SessionRoute V O T → String) (exists : String → String → Bool) where
    abbrev observe :
        Option (SessionRoute V O T) → ℕ → Progress → Progress → Option (Progress × Progress)
    observe none through observed completed = none
    observe (some route) through observed completed =
        some (Map.insert (to_text route) through observed, completed)

    -- one record: what is observed and what is completed then; none to return false
    unfoldable pub tally_item :
        JournalRecord V O T → ℕ → Progress → Progress → Option (Progress × Progress)
    tally_item (JournalRecord.event e) through observed completed =
        if exists e.source e.session_id then none else observe e.route through observed completed
    tally_item (JournalRecord.delivery_checkpoint route n) through observed completed =
        some (observed, raised (to_text route) n completed)
    tally_item (JournalRecord.control c) through observed completed = none

    unfoldable pub tally :
        List (JournalRecordEntry V O T) → Progress → Progress → Option (Progress × Progress)
    tally [] observed completed = some (observed, completed)
    tally (x ∷ xs) observed completed = elim (tally_item x.item x.through observed completed) [
      | none ↦ none
      | some (observed', completed') ↦ tally xs observed' completed'
    ]

module _ (json : Json) (arrays : JsonArrays json) {T : Type 0} where
  open json use {Value, Object}

  unfoldable pub acknowledged_through :
      {W : Type 0} ⦃values : Key (Option W)⦄
      → (SessionRoute Value Object T → Option W)
      → Option (File Value Object T)
      → ℕ
      → SessionRoute Value Object T
      → ℕ
  acknowledged_through to_value none through route = 0
  acknowledged_through to_value (some f) through route =
      acknowledged (λ candidate. Route.same_route to_value candidate route) 0
        (replay json arrays (cut through f.lines f.tail) 0 []).0

  unfoldable pub legacy_collectible :
      (SessionRoute Value Object T → String)
      → (String → String → Bool)
      → Option (File Value Object T)
      → Bool
  legacy_collectible to_text exists none = false
  legacy_collectible to_text exists (some f) =
      let (entries, error) = replay json arrays (cut (file_len f) f.lines f.tail) 0 [] in
      unless_damaged error (judged (tally to_text exists entries [] []))
