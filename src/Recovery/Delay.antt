-- ===== src/Recovery/Delay.antt =====
-- The bounds of the wait before a retry.
use native.Mathlib.Nat.{pow-le-pow_right}
use braintrust_coding_agent.Prelude.{ℕ, ◌+◌, ◌^◌, ◌≤◌, ◌<◌, min, String, ◌≡◌, Option, List, arith}
use braintrust_coding_agent.Collections.{Key}
use braintrust_coding_agent.Wire.{SessionConfig}
use braintrust_coding_agent.Recovery.{
  Boundary, World, i64_max, backoff, delayed, is_ready, process, waiting, retry,
}

pow_le : (a b : ℕ) → a ≤ b → 2 ^ a ≤ 2 ^ b
pow_le a b h = pow-le-pow_right (omega arith) h

-- The wait lies between 250 ms and 30 s and does not shrink from one attempt to a later one.
pub backoff-monotone :
    (a b : ℕ) → a ≤ b → (250 ≤ backoff a) × (backoff a ≤ backoff b) × (backoff b ≤ 30000)
unfolding backoff
backoff-monotone a b h =
    (omega (arith, pow_le 0 (min a 8)), omega (arith, pow_le (min a 8) (min b 8)), omega arith)

module _ {V O T E D : Type 0} (world : World V O T E D) where
  module _ ⦃digests : Key (Option D)⦄ ⦃lists : Key (List (Option D))⦄ where
    -- A delayed failure is retried no earlier than 250 ms after it, and from 30 s after it on,
    -- within the clock's range.
    process-delayed :
        (before now : ℕ) (boundary : Boundary) (position : ℕ) (reason : String) (attempt : ℕ)
        (config : Option (SessionConfig V O T)) (version : String)
        → before + 30000 ≤ i64_max
        → now ≤ i64_max
        → (now < before + 250
            → process world now config version (delayed before boundary position reason attempt)
              ≡ waiting)
          × (before + 30000 ≤ now
              → process world now config version (delayed before boundary position reason attempt)
                ≡ retry)
    unfolding process is_ready delayed
    process-delayed before now boundary position reason attempt config version small fits = (
      λ early. ground (arith, backoff-monotone attempt attempt, early, small, fits),
      λ late. ground (arith, backoff-monotone attempt attempt, late, small, fits),
    )
