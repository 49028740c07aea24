-- ===== src/Recovery/Waiting.antt =====
-- A failure that waits for evidence is held until the evidence is there.
use braintrust_coding_agent.Prelude.{
  ℕ, ◌≤◌, String, ◌≡◌, Bool, false, Option, some, List, map, arith, ◌⊎◌,
}
use braintrust_coding_agent.Collections.{Key, string_key, same_self}
use braintrust_coding_agent.Wire.{SessionConfig}
use braintrust_coding_agent.Recovery.{
  RetryCondition, RouteFailure, World, waiting, routing, process, is_ready,
}

module _ {V O T E D : Type 0} (world : World V O T E D) where
  module _ ⦃digests : Key (Option D)⦄ ⦃lists : Key (List (Option D))⦄ where
    -- A plugin failure without a timeout, or from attempt 2 on, waits at any later time while the
    -- runtime, the file, the processors and the chain are unchanged.
    process-plugin_waits :
        (before now : ℕ) (error : E) (failure : RouteFailure E D) (timed_out : Bool) (path : String)
        (config : SessionConfig V O T) (attempt : ℕ) (version : String)
        → failure.retry
          ≡ RetryCondition.plugin timed_out path
              (world.file_digest path)
              (map world.file_digest config.span_plugins)
        → (timed_out ≡ false) ⊎ (2 ≤ attempt)
        → process world now
            (some config)
            version
            (routing world before error (some failure) config attempt version)
          ≡ waiting
    unfolding process is_ready routing
    process-plugin_waits before now error failure timed_out path config attempt version e late =
        rw e (
          ground (
            arith,
            late,
            same_self {K = Option D},
            same_self {K = String},
            same_self {K = List (Option D)},
          ))
