-- ===== src/Recovery.antt =====
-- bt-daemon/src/pipeline/recovery.rs: what a failed stage waits for before it runs again. Hashes
-- of files and settings are a parameter, the record `World`, and so is the time at a call.
pub mod Delay
pub mod Waiting
use mathlib.Core.Option
use braintrust_coding_agent.Prelude.{
  ℕ, ◌+◌, ◌*◌, ◌^◌, min, String, Bool, true, false, not, ◌&&◌, ◌||◌, List, map, Option, none, some,
  if◌then◌else◌, is_some, ltb, ℤ, pos, leb_ℤ,
}
use braintrust_coding_agent.Collections.{Key, string_key, same}
use braintrust_coding_agent.Wire.{SessionConfig}

pub data Boundary : Type 0 where
  plugin : Boundary
  sink : Boundary
  credentials : Boundary
  translation : Boundary
  journal : Boundary
  ledger : Boundary
  completion : Boundary

pub record TimeoutRetry : Type 0 where
  pub recheck_ms : Option ℤ
  pub version : String

-- `D` is the digest of a file's bytes; none for a file that cannot be read.
pub data Condition (D : Type 0) : Type 0 where
  plugin : String → Option D → String → Option (List (Option D)) → Option TimeoutRetry → Condition D
  configuration : String → Option ℤ → Condition D
  credentials : ℤ → Condition D
  delay : ℤ → Condition D
  revision : String → Condition D

pub data RetryCondition (D : Type 0) : Type 0 where
  plugin : Bool → String → Option D → List (Option D) → RetryCondition D
  credentials : RetryCondition D
  configuration : Bool → RetryCondition D
  transient : RetryCondition D

pub record RouteFailure (E D : Type 0) : Type 0 where
  pub cause : E
  pub retry : RetryCondition D
  pub emitted : ℕ
  pub report : Bool

pub record Failure (D : Type 0) : Type 0 where
  pub boundary : Boundary
  pub position : ℕ
  pub through : Option ℕ
  pub reason : String
  pub attempt : ℕ
  pub condition : Condition D

pub data RecoveryOutcome : Type 0 where
  waiting : RecoveryOutcome
  retry : RecoveryOutcome

-- `i64::MAX`
abbrev pub i64_max : ℕ
i64_max = 9223372036854775807

-- the milliseconds of the clock since 1970, 0 before
abbrev pub now_ms : ℕ → ℕ
now_ms millis = min millis i64_max

-- `saturating_add` and `saturating_mul` of two `i64` that are not negative
abbrev pub saturating_add_i64 : ℕ → ℕ → ℕ
saturating_add_i64 a b = min (a + b) i64_max

abbrev pub saturating_mul_i64 : ℕ → ℕ → ℕ
saturating_mul_i64 a b = min (a * b) i64_max

-- the wait before the attempt after `attempt` failed ones
unfoldable pub backoff : ℕ → ℕ
backoff attempt = min (saturating_mul_i64 250 (2 ^ min attempt 8)) 30000

module _ {D : Type 0} where
  unfoldable pub at : ℕ → Failure D → Failure D
  at position failure = record failure { position = position }

  unfoldable pub delayed : ℕ → Boundary → ℕ → String → ℕ → Failure D
  delayed millis boundary position reason attempt = record {
    boundary = boundary;
    position = position;
    through = none;
    reason = reason;
    attempt = attempt;
    condition = Condition.delay (pos (saturating_add_i64 (now_ms millis) (backoff attempt)));
  }

  unfoldable pub revised : Boundary → ℕ → String → String → Failure D
  revised boundary position reason version = record {
    boundary = boundary;
    position = position;
    through = none;
    reason = reason;
    attempt = 0;
    condition = Condition.revision version;
  }

  abbrev as_credentials : Condition D → Condition D
  as_credentials (Condition.delay recheck_ms) = Condition.credentials recheck_ms
  as_credentials c = c

  unfoldable pub credentials_failure : ℕ → String → ℕ → Failure D
  unfolding delayed
  credentials_failure millis reason attempt =
      let failure = delayed millis Boundary.credentials 0 reason attempt in
      record failure { condition = as_credentials failure.condition }

-- what the daemon reads from outside: digests of files and of settings, and texts of errors
pub record World (V O T E D : Type 0) : Type 0 where
  pub file_digest : String → Option D
  pub chain : SessionConfig V O T → String
  pub signature : SessionConfig V O T → String
  pub describe : E → String
  pub redact : String → String → String
  pub is_damaged : E → Bool

module _ {V O T E D : Type 0} (world : World V O T E D) where
  -- at most two timed retries of a plugin that timed out
  abbrev pub timed_retry : ℕ → ℕ → Option ℤ
  timed_retry millis attempt =
      if ltb attempt 2
      then some (pos (saturating_add_i64 (now_ms millis) (500 * 2 ^ min attempt 8)))
      else none

  abbrev timeout_retry : ℕ → ℕ → String → Bool → Option TimeoutRetry
  timeout_retry millis attempt version timed_out =
      if timed_out
      then some (record { recheck_ms = timed_retry millis attempt; version = version })
      else none

  abbrev pub classify :
      ℕ → SessionConfig V O T → ℕ → String → Option (RetryCondition D) → Failure D → Failure D
  classify millis config attempt version none failure = failure
  classify millis config attempt version (some RetryCondition.transient) failure = failure
  classify millis config attempt version (some (RetryCondition.plugin timed_out path digest ps))
        failure =
      record failure {
        boundary = Boundary.plugin;
        condition =
            Condition.plugin path digest (world.chain config) (some ps)
              (timeout_retry millis attempt version timed_out);
      }
  classify millis config attempt version (some RetryCondition.credentials) failure =
      record failure {
        boundary = Boundary.credentials;
        condition = Condition.credentials (pos (saturating_add_i64 (now_ms millis) 1000));
      }
  classify millis config attempt version (some (RetryCondition.configuration recheck)) failure =
      record failure {
        condition =
            Condition.configuration (world.signature config)
              (if recheck then some (pos (saturating_add_i64 (now_ms millis) 60000)) else none);
      }

  abbrev cause_of : E → Option (RouteFailure E D) → E
  cause_of error none = error
  cause_of error (some failure) = failure.cause

  abbrev pub retry_of : Option (RouteFailure E D) → Option (RetryCondition D)
  retry_of none = none
  retry_of (some failure) = some failure.retry

  abbrev redact_token : String → String → String
  redact_token token reason = if same token "" then reason else world.redact token reason

  -- `classified` is the error as a `RouteFailure`, if it is one
  unfoldable pub routing :
      ℕ → E → Option (RouteFailure E D) → SessionConfig V O T → ℕ → String → Failure D
  routing millis error classified config attempt version =
      let base =
        delayed millis Boundary.sink 0 (world.describe (cause_of error classified)) attempt in
      let failure = classify millis config attempt version (retry_of classified) base in
      record failure { reason = redact_token config.auth.token failure.reason }

  unfoldable pub legacy : String → ℕ → SessionConfig V O T → Failure D
  legacy reason position config = record {
    boundary = Boundary.sink;
    position = position;
    through = none;
    reason = reason;
    attempt = 0;
    condition = Condition.configuration (world.signature config) none;
  }

  unfoldable pub storage : ℕ → E → String → ℕ → Failure D
  storage millis error version attempt =
      if world.is_damaged error
      then revised Boundary.journal 0 (world.describe error) version
      else delayed millis Boundary.journal 0 (world.describe error) attempt

  module _ ⦃digests : Key (Option D)⦄ ⦃lists : Key (List (Option D))⦄ where
    -- `recheck_ms.is_some_and(|when| now_ms() >= when)`
    abbrev pub is_due : ℕ → Option ℤ → Bool
    is_due millis none = false
    is_due millis (some w) = leb_ℤ w (pos (now_ms millis))

    abbrev timeout_over : ℕ → String → Option TimeoutRetry → Bool
    timeout_over millis version none = false
    timeout_over millis version (some t) =
        is_due millis t.recheck_ms || not (same t.version version)

    -- whether a text computed from the configuration, if there is one, is another one now
    abbrev text_changed :
        (SessionConfig V O T → String) → Option (SessionConfig V O T) → String → Bool
    text_changed f none previous = false
    text_changed f (some config) previous = not (same (f config) previous)

    abbrev processors_changed : Option (SessionConfig V O T) → Option (List (Option D)) → Bool
    processors_changed (some config) (some previous) =
        not (same (map world.file_digest config.span_plugins) previous)
    processors_changed _ _ = false

    unfoldable pub is_ready : ℕ → Option (SessionConfig V O T) → String → Condition D → Bool
    is_ready millis config version (Condition.plugin path digest previous processors timeout) =
        timeout_over millis version timeout
        || text_changed world.chain config previous
        || not (same (world.file_digest path) digest)
        || processors_changed config processors
    is_ready millis config version (Condition.configuration signature recheck_ms) =
        text_changed world.signature config signature || is_due millis recheck_ms
    is_ready millis config version (Condition.credentials recheck_ms) =
        is_due millis (some recheck_ms)
    is_ready millis config version (Condition.delay recheck_ms) = is_due millis (some recheck_ms)
    is_ready millis config version (Condition.revision previous) = not (same version previous)

    unfoldable pub process : ℕ → Option (SessionConfig V O T) → String → Failure D → RecoveryOutcome
    process millis config version failure =
        if is_ready millis config version failure.condition
        then RecoveryOutcome.retry
        else RecoveryOutcome.waiting
