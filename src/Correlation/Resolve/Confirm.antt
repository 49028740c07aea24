-- ===== src/Correlation/Resolve/Confirm.antt =====
-- A pending parent is confirmed by strict ancestry only.
use braintrust_coding_agent.Prelude.{
  ◌≡◌, true, ◌&&◌, List, ◌∷◌, ◌++◌, some, arith, ◌⊎◌, inl, inr, Bool-cases, Option-cases,
}
use braintrust_coding_agent.Collections.Set
use braintrust_coding_agent.Wire.{ProcessIdentity, process_key, CaptureContext, SessionRoute}
use braintrust_coding_agent.Correlation.Agents.{valid_process, ancestors}
use braintrust_coding_agent.Correlation.Agents.Evidence.{ancestors_lem}
use braintrust_coding_agent.Correlation.Resolve.{standalone, parent, confirm_parent}

-- The candidate is a valid process that stands strictly above the valid child in the chain.
pub record IsAncestor (p child : ProcessIdentity) (chain : List ProcessIdentity) : Type 0 where
  pub below : List ProcessIdentity
  pub above : List ProcessIdentity
  pub splits : chain ≡ below ++ child ∷ above
  pub is_above : Set.contains p above ≡ true
  pub parent_valid : valid_process p ≡ true
  pub child_valid : valid_process child ≡ true

module _ {V O T : Type 0} where
  -- A confirmation answers the candidate's frozen route, and only if the candidate is a valid
  -- ancestor of a valid child; otherwise the child stands alone.
  pub confirm_parent-IsAncestor :
      (p : ProcessIdentity) (route : SessionRoute V O T) (capture : CaptureContext)
      (child : ProcessIdentity)
      → (confirm_parent p route capture child ≡ standalone)
        ⊎ ((confirm_parent p route capture child ≡ parent route)
            × IsAncestor p child capture.process_chain)
  unfolding confirm_parent
  confirm_parent-IsAncestor p route capture child =
      elim (Option-cases (ancestors capture (some child))) [
        | inl e ↦ inl (ground (arith, e))
        | inr (above, e) ↦ elim (Bool-cases (valid_process p && Set.contains p above)) [
          | inr out ↦ inl (ground (arith, e, out))
          | inl in_chain ↦
              let (below, splits, good) = ancestors_lem capture child above e in
              inr (
                ground (arith, e, in_chain),
                record {
                  below = below;
                  above = above;
                  splits = splits;
                  is_above = ground (arith, in_chain);
                  parent_valid = ground (arith, in_chain);
                  child_valid = good;
                },
              )
        ]
      ]
