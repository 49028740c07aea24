-- ===== src/Correlation/Agents/Evidence.antt =====
-- What two process chains prove about the agent.
use braintrust_coding_agent.Prelude.{
  String, ◌≡◌, refl, true, List, [], ◌∷◌, ◌++◌, none, some, arith, Bool-cases, inl, inr,
}
use braintrust_coding_agent.Collections.{string_key, same}
use braintrust_coding_agent.Collections.Set
use braintrust_coding_agent.Wire.{ProcessIdentity, process_key, CaptureContext}
use braintrust_coding_agent.Correlation.Agents.{
  valid_process, uses_command_hook, find_in, common_agent, session_agent_process, strictly_above,
  ancestors,
}

abbrev pub tail_of : List ProcessIdentity → List ProcessIdentity
tail_of [] = []
tail_of (p ∷ ps) = ps

contains-find_in :
    (others ps : List ProcessIdentity) (p : ProcessIdentity)
    → find_in others ps ≡ some p
    → (Set.contains p ps ≡ true) × (Set.contains p others ≡ true)
unfolding find_in Set.contains
contains-find_in others [] p h = absurd (cc)
contains-find_in others (q ∷ ps) p h = ground (arith, contains-find_in others ps p)

common_agent_lem :
    (ps qs : List ProcessIdentity) (p : ProcessIdentity)
    → common_agent ps qs ≡ some p
    → (valid_process p ≡ true)
      × (Set.contains p (tail_of ps) ≡ true)
      × (Set.contains p (tail_of qs) ≡ true)
unfolding common_agent
common_agent_lem [] qs p h = absurd (cc)
common_agent_lem (hook ∷ ps) [] p h = absurd (cc)
common_agent_lem (hook ∷ ps) (hook' ∷ qs) p h = ground (arith, h, contains-find_in ps qs p)

-- A command hook's agent is a valid process strictly above both hooks.
session_agent_process-above :
    (source : String) (previous latest : CaptureContext) (p : ProcessIdentity)
    → uses_command_hook source ≡ true
    → session_agent_process source previous (some latest) ≡ some p
    → (valid_process p ≡ true)
      × (Set.contains p (tail_of previous.process_chain) ≡ true)
      × (Set.contains p (tail_of latest.process_chain) ≡ true)
unfolding session_agent_process
session_agent_process-above source previous latest p hook h =
    common_agent_lem previous.process_chain latest.process_chain p (ground (arith, hook, h))

common_agent_self : (ps : List ProcessIdentity) → common_agent ps ps ≡ none
unfolding common_agent Set.contains find_in
common_agent_self [] = refl
common_agent_self (hook ∷ []) = ground arith
common_agent_self (hook ∷ prior ∷ ps) = ground arith

-- One command hook captured twice identifies no agent.
session_agent_process-repeated :
    (source : String) (capture : CaptureContext)
    → uses_command_hook source ≡ true
    → session_agent_process source capture (some capture) ≡ none
unfolding session_agent_process
session_agent_process-repeated source capture hook =
    ground (arith, hook, common_agent_self capture.process_chain)

strictly_above_lem :
    (child : ProcessIdentity) (ps above : List ProcessIdentity)
    → strictly_above child ps ≡ some above
    → (below : List ProcessIdentity) × (ps ≡ below ++ child ∷ above)
unfolding strictly_above
strictly_above_lem child [] above h = absurd (cc)
strictly_above_lem child (p ∷ ps) above h = elim (Bool-cases (same p child)) [
  | inl here ↦ ([], ground (arith, h, here))
  | inr there ↦
      let (below, e) = strictly_above_lem child ps above (ground (arith, h, there)) in
      (p ∷ below, ground (arith, e))
]

-- The ancestors of a child are what stands above a place of it in the chain, and it is valid.
pub ancestors_lem :
    (capture : CaptureContext) (child : ProcessIdentity) (above : List ProcessIdentity)
    → ancestors capture (some child) ≡ some above
    → (below : List ProcessIdentity) × (capture.process_chain ≡ below ++ child ∷ above)
      × (valid_process child ≡ true)
unfolding ancestors
ancestors_lem capture child above h = elim (Bool-cases (valid_process child)) [
  | inl good ↦
      let (below, e) =
        strictly_above_lem child capture.process_chain above (ground (arith, h, good)) in
      (below, e, good)
  | inr bad ↦ absurd (ground (arith, h, bad))
]
