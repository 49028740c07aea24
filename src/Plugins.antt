-- ===== src/Plugins.antt =====
-- bt-daemon/src/pipeline/plugins.rs: the stage that runs the span plugins of a route, and holds a
-- route whose plugin has failed until a file of the chain changes.
pub mod Held
use braintrust_coding_agent.Prelude.{
  String, Bool, true, false, ◌&&◌, List, [], ◌∷◌, map, Option, none, some, if◌then◌else◌,
}
use braintrust_coding_agent.Collections.{Key, string_key}
use braintrust_coding_agent.Span.{SpanOp}
use braintrust_coding_agent.Translator.{Result, ok, err}
use braintrust_coding_agent.Processor.{
  Scripts, Engine, PluginFailure, ProcessResult, same_all, process_isolated, failed_digest,
  chain_digests,
}

pub record PluginRejected (D : Type 0) : Type 0 where
  pub failure : PluginFailure
  pub digest : Option D
  pub processors : List (Option D)

pub data PluginOutcome (D V : Type 0) : Type 0 where
  prepared : SpanOp V → PluginOutcome D V
  filtered : PluginOutcome D V
  failed : PluginRejected D → PluginOutcome D V
  unavailable : String → PluginOutcome D V

-- `source` and `session_id`, which do not change and only scripts see, belong to `Scripts.call`.
pub record Plugins (D : Type 0) : Type 0 where
  pub paths : List String
  pub blocked : Option (List String × PluginRejected D)

abbrev pub new : {D : Type 0} → Plugins D
new = record { paths = []; blocked = none }

module _ {D : Type 0} where
  abbrev pub timed_out_block : Option (List String × PluginRejected D) → Bool
  timed_out_block none = false
  timed_out_block (some (_, rejected)) = rejected.failure.timed_out

  unfoldable pub configure : List String → Plugins D → Plugins D
  configure paths s = record {
    paths = paths;
    blocked = if timed_out_block s.blocked then none else s.blocked;
  }

  abbrev pub seen_before : PluginRejected D → PluginRejected D
  seen_before rejected = record rejected {
    failure = record rejected.failure { newly_seen = false };
  }

module _ {D V : Type 0} (scripts : Scripts D V) ⦃key : Key (Option D)⦄ where
  -- a block that stands for the chain of now, with the files of now
  abbrev pub is_blocked : Plugins D → Option (List String × PluginRejected D) → Bool
  is_blocked s none = false
  is_blocked s (some (paths, rejected)) =
      same_all paths s.paths && same_all (map scripts.file_digest paths) rejected.processors

  abbrev pub rejected_by : Plugins D → PluginFailure → Option (Engine D) → PluginRejected D
  rejected_by s failure slot = record {
    failure = failure;
    digest = failed_digest failure.path slot;
    processors = chain_digests scripts s.paths failure.path slot;
  }

  abbrev pub Run : Type 0
  Run = PluginOutcome D V × Plugins D × Option (Engine D)

  -- on what the processor returned; nothing blocks the route any more
  abbrev pub settle : Plugins D → Option (SpanOp V) → Option PluginFailure → Option (Engine D) → Run
  settle s op (some failure) slot =
      let rejected = rejected_by s failure slot in
      (failed rejected, record s { blocked = some (s.paths, rejected) }, slot)
  settle s (some op) none slot = (prepared op, s, slot)
  settle s none none slot = (filtered, s, slot)

  abbrev pub settle_result : Plugins D → Result String (ProcessResult V) × Option (Engine D) → Run
  settle_result s (ok result, slot) = settle s result.op result.failure slot
  settle_result s (err error, slot) = (unavailable error, s, slot)

  unfoldable pub process_unblocked : SpanOp V → Plugins D → Option (Engine D) → Run
  process_unblocked op s slot =
      settle_result (record s { blocked = none }) (process_isolated scripts s.paths op slot)

  unfoldable pub process : SpanOp V → Plugins D → Option (Engine D) → Run
  process op s slot = elim s.blocked [
    | none ↦ process_unblocked op s slot
    | some (paths, rejected) ↦
        if is_blocked s (some (paths, rejected))
        then (failed (seen_before rejected), s, slot)
        else process_unblocked op s slot
  ]
