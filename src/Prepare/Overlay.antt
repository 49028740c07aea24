-- ===== src/Prepare/Overlay.antt =====
-- What a route may change in a row, and whose word wins in its metadata.
use text.Mathlib.Text.{starts_with}
use braintrust_coding_agent.Prelude.{
  String, ◌≡◌, refl, ◌∙◌, Bool, true, false, ◌&&◌, ◌||◌, List, [], ◌∷◌, Option, none, some, is_some,
  arith,
}
use braintrust_coding_agent.Collections.{string_key, same}
use braintrust_coding_agent.Json.{Json}
use braintrust_coding_agent.Wire.{SessionConfig, project_name}
use braintrust_coding_agent.Prepare.{add_extra, extra_of, add_project, overlay}

module _ (json : Json) where
  open json use {Value, Object}

  -- a field that the row has, or that is the daemon's own
  abbrev pub is_fixed : String → Object → Bool
  is_fixed k o = is_some (json.get k o) || starts_with k "_bt_"

  add_extra-fixed :
      (extra : List (String × Value)) (k : String) (o : Object)
      → is_fixed k o ≡ true
      → json.get k (add_extra json extra o) ≡ json.get k o
  unfolding add_extra
  add_extra-fixed [] k o h = refl
  add_extra-fixed ((j, w) ∷ extra) k o h = ground (
    arith,
    h,
    json.get-insert k j w o,
    add_extra-fixed extra k o,
    add_extra-fixed extra k (json.insert j w o),
  )

  add_project-other :
      (source : String) (project : Option String) (k : String) (o : Object)
      → same source "codex" && same "project" k ≡ false
      → json.get k (add_project json source project o) ≡ json.get k o
  add_project-other source none k o other = refl
  add_project-other source (some project) k o other =
      ground (arith, other, json.get-insert k "project" (json.string project) o)

module _ (json : Json) {T : Type 0} where
  open json use {Value, Object}

  -- A metadata field that the row has, or that has the daemon's prefix, keeps its value under any
  -- configuration, unless it is the project of a Codex session.
  pub overlay-fixed :
      (source : String) (config : SessionConfig Value Object T) (k : String) (o : Object)
      → is_fixed json k o ≡ true
      → same source "codex" && same "project" k ≡ false
      → json.get k (overlay json source config o) ≡ json.get k o
  unfolding overlay
  overlay-fixed source config k o h other =
      add_project-other json source (project_name config) k _ other
      ∙ add_extra-fixed json (extra_of json config.additional_metadata) k o h
