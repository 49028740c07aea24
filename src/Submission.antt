-- ===== src/Submission.antt =====
-- bt-daemon/src/pipeline/submission.rs: the stage that hands operations to a sink. The sink and the
-- errors of the Braintrust SDK are parameters.
pub mod Evidence
use braintrust_coding_agent.Prelude.{
  ℕ, String, Bool, true, false, ◌&&◌, ◌||◌, List, [], ◌∷◌, Option, none, some, if◌then◌else◌, eqb,
  leb,
}
use braintrust_coding_agent.Translator.{Result, ok, err}
use braintrust_coding_agent.Recovery.{RetryCondition, RouteFailure}

-- The methods of the trait `Sink` that the stage calls.
pub record Sink (S E Config Op : Type 0) : Type 0 where
  pub configure : Config → S → S
  pub emit_shared : List Op → S → Result E ℕ × S
  pub flush : S → Result E Unit × S
  pub has_pending_delivery : S → Bool
  pub permalink : S → Option String

-- `downcast_ref::<BraintrustError>()`: whether an error is the SDK's, the status of its variant
-- `Api`, and whether it is `Http`, `Network` or `ChannelClosed`
pub record SdkErrors (E : Type 0) : Type 0 where
  pub is_sdk : E → Bool
  pub api_status : E → Option ℕ
  pub is_transport : E → Bool

pub data Operation (Op : Type 0) : Type 0 where
  emit : List Op → Operation Op
  flush : Operation Op

pub record Input (Config Op : Type 0) : Type 0 where
  pub config : Config
  pub operation : Operation Op

pub record Report : Type 0 where
  pub pending : Bool
  pub permalink : Option String

pub record SubmissionFailure (E D : Type 0) : Type 0 where
  pub cause : E
  pub retry : RetryCondition D

pub data Outcome (E D : Type 0) : Type 0 where
  emitted : Result (SubmissionFailure E D) ℕ → Report → Outcome E D
  flushed : Result (SubmissionFailure E D) Unit → Report → Outcome E D

module _ {D : Type 0} where
  unfoldable pub of_status : ℕ → RetryCondition D
  of_status status =
      if eqb status 401
      then RetryCondition.credentials
      else if eqb status 403 || eqb status 404
      then RetryCondition.configuration true
      else if eqb status 408 || eqb status 429 || (leb 500 status && leb status 599)
      then RetryCondition.transient
      else RetryCondition.configuration false

-- `Submission::state`
abbrev report : {S E Config Op : Type 0} → Sink S E Config Op → S → Report
report sink s = record { pending = sink.has_pending_delivery s; permalink = sink.permalink s }

-- the failure of a route that a failed submission becomes
abbrev pub as_route_failure : {E D : Type 0} → SubmissionFailure E D → RouteFailure E D
as_route_failure failure = record {
  cause = failure.cause;
  retry = failure.retry;
  emitted = 0;
  report = false;
}

module _ {E D : Type 0} (errors : SdkErrors E) where
  abbrev pub retry_after : E → RetryCondition D
  retry_after cause =
      if errors.is_sdk cause
      then elim (errors.api_status cause) [
        | some status ↦ of_status status
        | none ↦
            if errors.is_transport cause
            then RetryCondition.transient
            else RetryCondition.configuration false
      ]
      else RetryCondition.transient

  unfoldable pub classified : E → SubmissionFailure E D
  classified cause = record { cause = cause; retry = retry_after cause }

  abbrev pub map_err : {A : Type 0} → Result E A → Result (SubmissionFailure E D) A
  map_err (ok a) = ok a
  map_err (err e) = err (classified e)

  module _ {S Config Op : Type 0} (sink : Sink S E Config Op) where
    abbrev emit_some : List Op → S → Result (SubmissionFailure E D) ℕ × S
    emit_some [] s = (ok 0, s)
    emit_some (op ∷ ops) s =
        let (result, s') = sink.emit_shared (op ∷ ops) s in (map_err result, s')

    unfoldable pub submit : Input Config Op → S → Outcome E D × S
    submit input s = elim input.operation [
      | emit ops ↦
          let (result, s') = emit_some ops (sink.configure input.config s) in
          (emitted result (report sink s'), s')
      | flush ↦
          let (result, s') = sink.flush (sink.configure input.config s) in
          (flushed (map_err result) (report sink s'), s')
    ]
