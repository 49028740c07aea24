-- ===== src/Correlation/Agents.antt =====
-- Which process is the agent behind a hook, and what counts as an ancestor.
pub mod Evidence
use braintrust_coding_agent.Prelude.{
  String, Bool, false, not, ◌&&◌, ◌||◌, List, [], ◌∷◌, Option, none, some, if◌then◌else◌, eqb,
}
use braintrust_coding_agent.Collections.{string_key, same}
use braintrust_coding_agent.Collections.Set
use braintrust_coding_agent.Wire.{ProcessIdentity, process_key, CaptureContext}

abbrev pub valid_process : ProcessIdentity → Bool
valid_process p = not (eqb p.pid 0) && not (eqb p.start_time_secs 0)

unfoldable pub uses_command_hook : String → Bool
uses_command_hook source =
    same source "antigravity"
    || same source "claude-code"
    || same source "codex"
    || same source "grok"

-- `iter().find(|p| others.contains(p))`
unfoldable pub find_in : List ProcessIdentity → List ProcessIdentity → Option ProcessIdentity
find_in others [] = none
find_in others (p ∷ ps) = if Set.contains p others then some p else find_in others ps

-- `.filter(|p| valid_process(p))`
abbrev pub only_valid : Option ProcessIdentity → Option ProcessIdentity
only_valid none = none
only_valid (some p) = if valid_process p then some p else none

-- two hooks with one identity are two hooks if neither parent stands in the other chain
distinct_hooks : List ProcessIdentity → List ProcessIdentity → Bool
distinct_hooks (hook ∷ prior ∷ ps) (hook' ∷ parent ∷ qs) =
    not (Set.contains parent (hook ∷ prior ∷ ps)) && not (Set.contains prior (hook' ∷ parent ∷ qs))
distinct_hooks _ _ = false

-- the branch for command hooks, on the two process chains
unfoldable pub common_agent : List ProcessIdentity → List ProcessIdentity → Option ProcessIdentity
unfolding distinct_hooks find_in
common_agent [] _ = none
common_agent (hook ∷ ps) [] = none
common_agent (hook ∷ ps) (hook' ∷ qs) =
    if not (valid_process hook) || not (valid_process hook')
    then none
    else if same hook hook' && not (distinct_hooks (hook ∷ ps) (hook' ∷ qs))
    then none
    else only_valid (find_in ps qs)

abbrev pub first : List ProcessIdentity → Option ProcessIdentity
first [] = none
first (p ∷ ps) = some p

unfoldable pub session_agent_process :
    String → CaptureContext → Option CaptureContext → Option ProcessIdentity
session_agent_process source previous latest =
    if not (uses_command_hook source)
    then only_valid (first previous.process_chain)
    else elim latest [ none ↦ none | some l ↦ common_agent previous.process_chain l.process_chain ]

-- `iter().position(|process| process == child)`, and what stands behind it
unfoldable pub strictly_above :
    ProcessIdentity → List ProcessIdentity → Option (List ProcessIdentity)
strictly_above child [] = none
strictly_above child (p ∷ ps) = if same p child then some ps else strictly_above child ps

unfoldable pub ancestors : CaptureContext → Option ProcessIdentity → Option (List ProcessIdentity)
ancestors capture none = some capture.process_chain
ancestors capture (some child) =
    if valid_process child then strictly_above child capture.process_chain else none
