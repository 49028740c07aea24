-- ===== src/Wire/Envelope.antt =====
-- bt-daemon/src/wire/envelope.rs: one captured event, and the form of it that is kept on disk.
use braintrust_coding_agent.Prelude.{String, Option, ℤ}
use braintrust_coding_agent.Wire.{CaptureContext, SessionRoute, SessionConfig}

pub record Envelope (V O T : Type 0) : Type 0 where
  pub source : String
  pub source_version : Option String
  pub plugin_version : Option String
  pub session_id : String
  pub event : String
  pub ts_ms : ℤ
  pub managed_run_id : Option String
  pub capture : Option CaptureContext
  pub payload : V
  pub route : Option (SessionRoute V O T)
  pub config : Option (SessionConfig V O T)

-- without the resolved configuration, which holds the token
pub record RedactedEnvelope (V O T : Type 0) : Type 0 where
  pub source : String
  pub source_version : Option String
  pub plugin_version : Option String
  pub session_id : String
  pub event : String
  pub ts_ms : ℤ
  pub managed_run_id : Option String
  pub capture : Option CaptureContext
  pub payload : V
  pub route : Option (SessionRoute V O T)

module _ {V O T : Type 0} where
  unfoldable pub redacted : Envelope V O T → RedactedEnvelope V O T
  redacted e = record {
    source = e.source;
    source_version = e.source_version;
    plugin_version = e.plugin_version;
    session_id = e.session_id;
    event = e.event;
    ts_ms = e.ts_ms;
    managed_run_id = e.managed_run_id;
    capture = e.capture;
    payload = e.payload;
    route = e.route;
  }
