-- ===== src/Wire.antt =====
-- bt-daemon/src/wire/envelope.rs: process evidence, routes and session settings. `V` and `O` are
-- the JSON values and objects; `T` is `SpanObjectType` of the Braintrust SDK, whose struct
-- `SpanComponents` is known here by the fields that the daemon names.
pub mod Envelope
use native.Mathlib.Decide.{ℕ_discrete}
use braintrust_coding_agent.Prelude.{ℕ, String, Bool, List, Option, none, some}
use braintrust_coding_agent.Collections.{Key}

pub record ProcessIdentity : Type 0 where
  pub pid : ℕ
  pub start_time_secs : ℕ

-- derived: field by field
process_eq_dec : Discrete ProcessIdentity
process_eq_dec = hlevel ℕ_discrete

unfoldable pub ProcessIdentity-discrete : Discrete ProcessIdentity
unfolding process_eq_dec
ProcessIdentity-discrete = process_eq_dec

instance abbrev pub process_key : Key ProcessIdentity
process_key = record { dec = ProcessIdentity-discrete }

pub record CaptureContext : Type 0 where
  pub process_chain : List ProcessIdentity
  pub truncated : Bool

pub record SpanComponents (O T : Type 0) : Type 0 where
  pub object_type : T
  pub object_id : Option String
  pub compute_object_metadata_args : Option O
  pub row_id : Option String
  pub span_id : Option String
  pub root_span_id : Option String
  pub span_parents : Option (List String)
  pub propagated_event : Option O

pub data TraceDestination (O T : Type 0) : Type 0 where
  project_logs : Option String → Option String → TraceDestination O T
  experiment : String → TraceDestination O T
  parent_span : SpanComponents O T → TraceDestination O T

pub data FlushMode : Type 0 where
  fire_and_forget flush_on_turn_end : FlushMode

pub data AuthSource : Type 0 where
  auto saved_profile environment : AuthSource

pub record AuthSelection : Type 0 where
  pub source : AuthSource
  pub profile_id : Option String
  pub profile : Option String
  pub org_name : Option String

pub record BackendAuth : Type 0 where
  pub token : String
  pub api_url : Option String
  pub app_url : Option String
  pub org_name : Option String
  pub org_id : Option String

pub record SessionRoute (V O T : Type 0) : Type 0 where
  pub auth : AuthSelection
  pub destination : Option (TraceDestination O T)
  pub flush_mode : FlushMode
  pub additional_metadata : Option V
  pub tags : List String
  pub span_plugins : List String

pub record SessionConfig (V O T : Type 0) : Type 0 where
  pub auth : BackendAuth
  pub destination : Option (TraceDestination O T)
  pub flush_mode : FlushMode
  pub additional_metadata : Option V
  pub tags : List String
  pub span_plugins : List String

module _ {O T : Type 0} where
  unfoldable pub attached_ids : Option (TraceDestination O T) → Option String × Option String
  attached_ids (some (parent_span c)) = (c.span_id, c.root_span_id)
  attached_ids _ = (none, none)

  unfoldable pub name_of : Option (TraceDestination O T) → Option String
  name_of (some (project_logs project_id project_name)) = project_name
  name_of _ = none

module _ {V O T : Type 0} where
  unfoldable pub attached_span_ids : SessionConfig V O T → Option String × Option String
  unfolding attached_ids
  attached_span_ids config = attached_ids config.destination

  unfoldable pub project_name : SessionConfig V O T → Option String
  unfolding name_of
  project_name config = name_of config.destination
