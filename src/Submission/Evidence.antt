-- ===== src/Submission/Evidence.antt =====
-- From the status of a refused request to what the route then waits for.
use braintrust_coding_agent.Prelude.{
  ℕ, ◌+◌, ◌≤◌, ◌<◌, String, ◌≡◌, ◌≢◌, true, false, Option, some, List, arith,
}
use braintrust_coding_agent.Collections.{Key, string_key, same_self}
use braintrust_coding_agent.Wire.{SessionConfig}
use braintrust_coding_agent.Recovery.{
  RetryCondition, World, waiting, retry, i64_max, routing, process, is_ready, delayed,
}
use braintrust_coding_agent.Recovery.Delay.{backoff-monotone}
use braintrust_coding_agent.Submission.{
  SdkErrors, of_status, retry_after, classified, as_route_failure,
}

of_status-server :
    {D : Type 0} (status : ℕ)
    → 500 ≤ status
    → status ≤ 599
    → of_status {D = D} status ≡ RetryCondition.transient
unfolding of_status
of_status-server status low high = ground arith

of_status-refused :
    {D : Type 0} (status : ℕ)
    → 404 < status
    → status < 500
    → status ≢ 408
    → status ≢ 429
    → of_status {D = D} status ≡ RetryCondition.configuration false
unfolding of_status
of_status-refused status low high a b = ground arith

module _ {V O T E D : Type 0} (world : World V O T E D) (errors : SdkErrors E) where
  retry_after-status :
      (e : E) (status : ℕ)
      → errors.is_sdk e ≡ true
      → errors.api_status e ≡ some status
      → retry_after {D = D} errors e ≡ of_status status
  retry_after-status e status sdk api = ground (arith, sdk, api)

  module _ ⦃digests : Key (Option D)⦄ ⦃lists : Key (List (Option D))⦄ where
    -- A request refused by the SDK with a status from 500 to 599 is retried from 30 s after it on;
    -- one refused with a status between 405 and 499 but 408 and 429 waits while the configuration
    -- is unchanged, within the clock's range.
    pub process-status :
        (before now : ℕ) (e : E) (status : ℕ) (config : SessionConfig V O T) (attempt : ℕ)
        (version : String)
        → errors.is_sdk e ≡ true
        → errors.api_status e ≡ some status
        → now ≤ i64_max
        → (500 ≤ status
            → status ≤ 599
            → before + 30000 ≤ now
            → process world now (some config) version (
                routing world before e
                  (some (as_route_failure (classified errors e)))
                  config
                  attempt
                  version)
              ≡ retry)
          × (404 < status
              → status < 500
              → status ≢ 408
              → status ≢ 429
              → process world now (some config) version (
                  routing world before e
                    (some (as_route_failure (classified errors e)))
                    config
                    attempt
                    version)
                ≡ waiting)
    unfolding process is_ready routing delayed classified
    process-status before now e status config attempt version sdk api fits = (
      λ low high late.
          rw (retry_after-status e status sdk api, of_status-server {D = D} status low high)
            (ground (arith, backoff-monotone attempt attempt, late, fits)),
      λ low high a b.
          rw (retry_after-status e status sdk api, of_status-refused {D = D} status low high a b)
            (ground (arith, same_self (world.signature config))),
    )
