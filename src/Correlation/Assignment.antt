-- ===== src/Correlation/Assignment.antt =====
-- When a session's agent process changes.
use braintrust_coding_agent.Prelude.{
  String, ◌≡◌, ◌∙◌, refl, Bool, true, false, List, [], ◌∷◌, Option, none, some, arith, inl, inr,
  Bool-cases, Option-cases,
}
use braintrust_coding_agent.Collections.{string_key}
use braintrust_coding_agent.Collections.Set
use braintrust_coding_agent.Collections.Map
use braintrust_coding_agent.Wire.{ProcessIdentity, process_key, CaptureContext}
use braintrust_coding_agent.Correlation.State.{
  State, remove_process_mapping, add_process_mapping, processes_of,
}
use braintrust_coding_agent.Correlation.Agents.{uses_command_hook, session_agent_process}
use braintrust_coding_agent.Correlation.Sessions.{
  confirm, remember_capture, settle, learn, open_generation, mark_live, is_settled, observe_session,
}

module _ {V O T : Type 0} (key : String) where
  abbrev pub agents_of : State V O T → List ProcessIdentity
  agents_of s = processes_of key s.session_processes

  -- What proves a new agent: the capture of an in-process adapter, or the captures of two hooks, of
  -- which the registry remembers the first.
  pub data Proof (source : String) (capture : Option CaptureContext) (s : State V O T)
      (agent : ProcessIdentity) : Type 0 where
    direct :
        (c : CaptureContext)
        → capture ≡ some c
        → uses_command_hook source ≡ false
        → session_agent_process source c none ≡ some agent
        → Proof source capture s agent
    twice :
        (previous c : CaptureContext)
        → capture ≡ some c
        → uses_command_hook source ≡ true
        → Map.get key s.unconfirmed_processes ≡ some previous
        → session_agent_process source previous (some c) ≡ some agent
        → Proof source capture s agent

  pub data Change (source : String) (capture : Option CaptureContext) (s s' : State V O T)
      : Type 0 where
    kept : agents_of s' ≡ agents_of s → Change source capture s s'
    replaced :
        (agent : ProcessIdentity)
        → agents_of s' ≡ agent ∷ []
        → Proof source capture s agent
        → Change source capture s s'

  agents_of-confirm :
      (agent : ProcessIdentity) (s : State V O T) → agents_of (confirm key agent s) ≡ agent ∷ []
  unfolding confirm remove_process_mapping add_process_mapping Set.insert Set.contains
  agents_of-confirm agent s = elim (Option-cases (Map.get key s.session_processes)) [
    | inl e ↦ ground (arith, e, Map.get-insert key key (agent ∷ []) s.session_processes)
    | inr (old, e) ↦ ground (
      arith,
      e,
      Map.get-remove key key s.session_processes,
      Map.get-insert key key (agent ∷ []) (Map.remove key s.session_processes),
    )
  ]

  settle-Change :
      (source : String) (capture : CaptureContext) (agent : Option ProcessIdentity)
      (s : State V O T)
      → ((p : ProcessIdentity) → agent ≡ some p → Proof source (some capture) s p)
      → Change source (some capture) s (settle key source capture agent s)
  unfolding settle remember_capture
  settle-Change source capture (some agent) s proof =
      replaced agent (agents_of-confirm agent s) (proof agent refl)
  settle-Change source capture none s proof = kept (ground arith)

  learn-Change :
      (source : String) (capture : Option CaptureContext) (s : State V O T)
      → Change source capture s (learn key source capture s)
  unfolding learn remember_capture
  learn-Change source none s = kept refl
  learn-Change source (some capture) s = elim (Bool-cases (uses_command_hook source)) [
    | inr other ↦
        rw (other, learn) (settle-Change source capture _ s (λ p e. direct capture refl other e))
    | inl hook ↦ elim (Option-cases (Map.get key s.unconfirmed_processes)) [
      | inl first ↦ rw (hook, first, learn) (kept refl)
      | inr (previous, e) ↦
          rw (hook, e, learn)
            (settle-Change source capture _ s (λ p e'. twice previous capture refl hook e e'))
    ]
  ]

  Proof-moved :
      {source : String} {capture : Option CaptureContext} {s s' : State V O T}
      {agent : ProcessIdentity}
      → ((c : CaptureContext)
          → Map.get key s.unconfirmed_processes ≡ some c
          → Map.get key s'.unconfirmed_processes ≡ some c)
      → Proof source capture s agent
      → Proof source capture s' agent
  Proof-moved m (direct c e other p) = direct c e other p
  Proof-moved m (twice previous c e hook r p) = twice previous c e hook (m previous r) p

  Change-moved :
      {source : String} {capture : Option CaptureContext} {s t s' t' : State V O T}
      → Change source capture s t
      → agents_of s ≡ agents_of s'
      → agents_of t' ≡ agents_of t
      → ((c : CaptureContext)
          → Map.get key s.unconfirmed_processes ≡ some c
          → Map.get key s'.unconfirmed_processes ≡ some c)
      → Change source capture s' t'
  Change-moved (kept e) p q m = kept (q ∙ e ∙ p)
  Change-moved (replaced agent e proof) p q m = replaced agent (q ∙ e) (Proof-moved m proof)

  -- A hook leaves the session's agent as it was or replaces it by one proven agent; an ordinary
  -- hook of a settled session leaves it.
  pub observe_session-Change :
      (source : String) (capture : Option CaptureContext) (start : Bool) (s : State V O T)
      → Change source capture s (observe_session key source capture start s)
        × (start ≡ false
            → is_settled key s ≡ true
            → agents_of (observe_session key source capture start s) ≡ agents_of s)
  unfolding observe_session
  observe_session-Change source capture true s = (
    Change-moved (learn-Change source capture (open_generation key (mark_live key s)))
        (unfold open_generation mark_live in refl) refl
        (λ c e. ground (arith, e, Map.get-remove key key s.unconfirmed_processes)),
    λ e _. absurd (cc),
  )
  observe_session-Change source capture false s = (
    elim (Bool-cases (is_settled key s)) [
      | inl settled ↦ kept (ground (arith, settled))
      | inr unsettled ↦
          Change-moved (learn-Change source capture (mark_live key s)) (unfold mark_live in refl)
            (ground (arith, unsettled)) (λ c e. e)
    ],
    λ _ settled. ground (arith, settled),
  )
