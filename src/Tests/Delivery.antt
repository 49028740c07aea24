-- ===== src/Tests/Delivery.antt =====
-- Routes, prepared operations, and waits for recovery.
use native.Mathlib.Decide.{ℕ_discrete}
use braintrust_coding_agent.Prelude.{
  ℕ, ◌≤◌, ◌<◌, ◌+◌, String, ◌≡◌, ◌≢◌, refl, true, false, List, [], ◌∷◌, map, Option, none, some,
  arith, is_empty, if◌then◌else◌,
}
use braintrust_coding_agent.Collections.{Key, string_key, string_dec}
use braintrust_coding_agent.Collections.Set
use braintrust_coding_agent.Span.{SpanOp, insert, merge}
use braintrust_coding_agent.Wire
use braintrust_coding_agent.Wire.{AuthSelection, SessionRoute, SessionConfig}
use braintrust_coding_agent.Translator.{ok, err}
use braintrust_coding_agent.Prepare
use braintrust_coding_agent.Prepare.{Prepare}
use braintrust_coding_agent.Prepare.Overlay
use braintrust_coding_agent.Prepare.Shared
use braintrust_coding_agent.Recovery
use braintrust_coding_agent.Recovery.{World, RouteFailure, RetryCondition}
use braintrust_coding_agent.Recovery.Delay
use braintrust_coding_agent.Route
use braintrust_coding_agent.Submission
use braintrust_coding_agent.Submission.{SdkErrors}
use braintrust_coding_agent.Submission.Evidence
use braintrust_coding_agent.Route.Auth
use braintrust_coding_agent.Route.Tags
use braintrust_coding_agent.Tests.JsonValue
use braintrust_coding_agent.Tests.JsonValue.{Value, Object, plain_json}
use braintrust_coding_agent.Tests.Spans.{span}

abbrev pub config : SessionConfig Value Object ℕ
config = record {
  auth = record {
    token = "secret";
    api_url = none;
    app_url = none;
    org_name = none;
    org_id = none;
  };
  destination = some (Wire.TraceDestination.project_logs none (some "agents"));
  flush_mode = Wire.FlushMode.fire_and_forget;
  additional_metadata = some (Value.object (Object.field "team" (Value.text "red") Object.end));
  tags = "ci" ∷ [];
  span_plugins = "plugin.mjs" ∷ [];
}

abbrev metadata : Object
metadata = Object.field "team" (Value.text "blue") Object.end

overlay-fixed_example :
    JsonValue.get "team" (Prepare.overlay plain_json "codex" config metadata)
    ≡ JsonValue.get "team" metadata
unfolding Wire.ProcessIdentity-discrete string_dec JsonValue.get
overlay-fixed_example = Overlay.overlay-fixed plain_json "codex" config "team" metadata refl refl

abbrev ops : List (SpanOp Value)
ops =
    insert (span "root" [] none)
    ∷ merge (span "root" [] none)
    ∷ insert (span "child" ("root" ∷ []) none)
    ∷ []

apply_shared-apply_example :
    (map
        (Shared.plain plain_json)
        (Prepare.apply_shared plain_json config ops (Prepare.new "codex")).0
      ≡ map (Shared.plain plain_json) (Prepare.apply plain_json config ops (Prepare.new "codex")).0)
    × ((Prepare.apply_shared plain_json config ops (Prepare.new "codex")).1
        ≡ (Prepare.apply plain_json config ops (Prepare.new "codex")).1)
apply_shared-apply_example = Shared.apply_shared-apply plain_json config ops (Prepare.new "codex")

backoff-monotone_example :
    (250 ≤ Recovery.backoff 3)
    × (Recovery.backoff 3 ≤ Recovery.backoff 9)
    × (Recovery.backoff 9 ≤ 30000)
backoff-monotone_example = Delay.backoff-monotone 3 9 (omega arith)

pub ℕ_option_discrete : Discrete (Option ℕ)
ℕ_option_discrete = hlevel ℕ_discrete

pub ℕ_options_discrete : Discrete (List (Option ℕ))
ℕ_options_discrete = hlevel ℕ_discrete

instance abbrev pub digest_key : Key (Option ℕ)
digest_key = record { dec = ℕ_option_discrete }

instance abbrev pub digests_key : Key (List (Option ℕ))
digests_key = record { dec = ℕ_options_discrete }

-- files by the number of a digest, settings by a fixed text
abbrev pub world : World Value Object ℕ String ℕ
world = record {
  file_digest = λ path. some 7;
  chain = λ c. "chain";
  signature = λ c. "settings";
  describe = λ e. e;
  redact = λ token reason. reason;
  is_damaged = λ e. false;
}

abbrev plugin_failure : RouteFailure String ℕ
plugin_failure = record {
  cause = "plugin timed out";
  retry = RetryCondition.plugin true "plugin.mjs" (some 7) (some 7 ∷ []);
  emitted = 0;
  report = true;
}

abbrev named : AuthSelection
named = record {
  source = Wire.AuthSource.auto;
  profile_id = none;
  profile = some "work";
  org_name = none;
}

abbrev legacy : AuthSelection
legacy = record named { profile = some "environment"; org_name = some "acme" }

canonicalized-IsCanonical_example :
    Auth.IsCanonical legacy (Route.canonicalized legacy)
    × (Auth.again (Route.canonicalized legacy) ≡ Route.canonicalized legacy)
canonicalized-IsCanonical_example = Auth.canonicalized-IsCanonical legacy

abbrev pub route : SessionRoute Value Object ℕ
route = record {
  auth = named;
  destination = none;
  flush_mode = Wire.FlushMode.fire_and_forget;
  additional_metadata = none;
  tags = [];
  span_plugins = [];
}

-- a route as the number of its tags
abbrev to_value : SessionRoute Value Object ℕ → Option ℕ
to_value r = if is_empty r.tags then some 0 else some 1

abbrev twice_tagged : List String
twice_tagged = "ci" ∷ "ci" ∷ []

apply_tags-normal_example :
    (Tags.has_blank (λ t. t) twice_tagged ≡ true
      → Route.apply_tags (λ t. t) route twice_tagged ≡ err "--tag must not be empty")
    × (Tags.has_blank (λ t. t) twice_tagged ≡ false
        → (after : List String) × (Route.apply_tags (λ t. t) route twice_tagged
            ≡ ok (if is_empty twice_tagged then route else record route { tags = after }))
          × Set.Distinct after
          × ((k : String) → Set.contains k after ≡ Set.contains k (map (λ t. t) twice_tagged)))
apply_tags-normal_example = Tags.apply_tags-normal (λ t. t) route twice_tagged

-- an error of the SDK with the status 503
abbrev pub errors : SdkErrors String
errors = record { is_sdk = λ e. true; api_status = λ e. some 503; is_transport = λ e. false }

abbrev status : ℕ
status = 503

abbrev refused : Recovery.Failure ℕ
refused =
    Recovery.routing world 1000 "unavailable"
      (some (Submission.as_route_failure (Submission.classified errors "unavailable"))) config 1
      "1.0"

process-status_example :
    (500 ≤ status
      → status ≤ 599
      → 1000 + 30000 ≤ 40000
      → Recovery.process world 40000 (some config) "1.0" refused ≡ Recovery.RecoveryOutcome.retry)
    × (404 < status
        → status < 500
        → status ≢ 408
        → status ≢ 429
        → Recovery.process world 40000 (some config) "1.0" refused
          ≡ Recovery.RecoveryOutcome.waiting)
process-status_example =
    Evidence.process-status world errors 1000 40000 "unavailable" status config 1 "1.0" refl refl
      (omega arith)

abbrev experiment : Wire.TraceDestination Object ℕ
experiment = Wire.TraceDestination.experiment "e1"

destination_parses : Route.destination_from_str "experiment:e1" ≡ ok experiment
unfolding Route.destination_from_str Route.split_colon string_dec
destination_parses = refl

tags_are_normalized :
    Route.apply_tags (λ t. t) route ("ci" ∷ "ci" ∷ "docs" ∷ [])
    ≡ ok (record route { tags = "ci" ∷ "docs" ∷ [] })
unfolding Route.apply_tags Route.normalize Set.contains Set.insert string_dec
tags_are_normalized = refl
