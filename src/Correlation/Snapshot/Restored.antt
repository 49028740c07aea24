-- ===== src/Correlation/Snapshot/Restored.antt =====
-- A restore is all or nothing.
use braintrust_coding_agent.Prelude.{
  String, ◌≡◌, refl, ap, ◌∙◌, Bool, true, false, List, [], ◌∷◌, ◌++◌, Option, none, some, arith,
  is_some, is_empty, unwrap_or, Bool-cases, Option-cases, inl, inr,
}
use braintrust_coding_agent.Collections.{string_key}
use braintrust_coding_agent.Collections.Map
use braintrust_coding_agent.Collections.Set
use braintrust_coding_agent.Wire.{ProcessIdentity, process_key}
use braintrust_coding_agent.Correlation.State.{State, ActiveTool, add_process_mapping, processes_of}
use braintrust_coding_agent.Correlation.Agents.{valid_process}
use braintrust_coding_agent.Correlation.Index.{
  IsIndexed, Agree-moved, add_process_mapping-IsIndexed,
}
use braintrust_coding_agent.Correlation.Resolve.{
  active_values, active_tools_of, has_active_tools, session_is_open,
}
use braintrust_coding_agent.Correlation.Snapshot.{
  ActiveToolSnapshot, ActiveParentSnapshot, from_snapshot, named_tools, add_processes, add_tool,
  add_tools, add_session_span, is_refused, restore_spans, restore_active_parent,
}

nonempty_snoc {ℓ} : {A : Type ℓ} (xs : List A) (x : A) → is_empty (xs ++ x ∷ []) ≡ false
nonempty_snoc [] x = refl
nonempty_snoc (y ∷ xs) x = refl

module _ {V O T : Type 0} where
  is_known : String → State V O T → Bool
  is_known key s = Map.contains_key key s.session_processes

  known-add_process_mapping :
      (key : String) (p : ProcessIdentity) (s : State V O T)
      → is_known key (add_process_mapping key p s) ≡ true
  unfolding is_known add_process_mapping
  known-add_process_mapping key p s = ground (
    arith,
    Map.get-insert key key (Set.insert p (processes_of key s.session_processes))
        s.session_processes,
  )

  known-add_processes :
      (key : String) (ps : List ProcessIdentity) (s : State V O T)
      → is_known key s ≡ true
      → is_known key (add_processes key ps s) ≡ true
  unfolding add_processes
  known-add_processes key [] s h = h
  known-add_processes key (p ∷ ps) s h = elim (Bool-cases (valid_process p)) [
    | inl good ↦
        rw (good, add_processes)
          (known-add_processes key ps (add_process_mapping key p s)
            (known-add_process_mapping key p s))
    | inr bad ↦ rw (bad, add_processes) (known-add_processes key ps s h)
  ]

  -- processes that are all invalid leave the registry as it is
  add_processes_unknown :
      (key : String) (ps : List ProcessIdentity) (s : State V O T)
      → is_known key (add_processes key ps s) ≡ false
      → add_processes key ps s ≡ s
  unfolding add_processes
  add_processes_unknown key [] s h = refl
  add_processes_unknown key (p ∷ ps) s h = elim (Bool-cases (valid_process p)) [
    | inl good ↦ absurd (
        ground (
          arith,
          h,
          good,
          known-add_processes key ps (add_process_mapping key p s)
              (known-add_process_mapping key p s),
        ))
    | inr bad ↦ ground (arith, bad, h, add_processes_unknown key ps s)
  ]

  add_processes-IsIndexed :
      (key : String) (ps : List ProcessIdentity) (s : State V O T)
      → IsIndexed s
      → IsIndexed (add_processes key ps s)
  unfolding add_processes
  add_processes-IsIndexed key [] s h = h
  add_processes-IsIndexed key (p ∷ ps) s h = elim (Bool-cases (valid_process p)) [
    | inl good ↦
        rw (good, add_processes)
          (add_processes-IsIndexed key ps (add_process_mapping key p s)
            (add_process_mapping-IsIndexed key p s h))
    | inr bad ↦ rw (bad, add_processes) (add_processes-IsIndexed key ps s h)
  ]

  active_values-append :
      (m n : List (String × ActiveTool V O T))
      → active_values (m ++ n) ≡ active_values m ++ active_values n
  unfolding active_values
  active_values-append [] n = refl
  active_values-append ((k, t) ∷ m) n = ground (arith, active_values-append m n)

  add_tool_active :
      (k : String) (t : ActiveToolSnapshot V O T) (m : List (String × ActiveTool V O T))
      → is_empty (active_values (Map.insert k (from_snapshot t) m)) ≡ false
  unfolding Map.insert active_values
  add_tool_active k t m =
      ap is_empty (active_values-append (Map.remove k m) ((k, from_snapshot t) ∷ []))
      ∙ nonempty_snoc (active_values (Map.remove k m)) (from_snapshot t)

  add_tool_keeps :
      (t : ActiveToolSnapshot V O T) (id : Option String) (m : List (String × ActiveTool V O T))
      → is_empty (active_values m) ≡ false
      → is_empty (active_values (add_tool t id m)) ≡ false
  unfolding add_tool
  add_tool_keeps t none m h = h
  add_tool_keeps t (some k) m h = add_tool_active k t m

  add_tool_some :
      (t : ActiveToolSnapshot V O T) (id : Option String) (m : List (String × ActiveTool V O T))
      → is_some id ≡ true
      → is_empty (active_values (add_tool t id m)) ≡ false
  unfolding add_tool
  add_tool_some t none m h = absurd (cc)
  add_tool_some t (some k) m h = add_tool_active k t m

  add_tools_active :
      (ts : List (ActiveToolSnapshot V O T)) (m : List (String × ActiveTool V O T))
      → is_empty (active_values m) ≡ false
      → is_empty (active_values (add_tools ts m)) ≡ false
  unfolding add_tools
  add_tools_active [] m h = h
  add_tools_active (t ∷ ts) m h =
      add_tools_active ts (add_tool t t.components.span_id m)
        (add_tool_keeps t t.components.span_id m h)

  add_named_active :
      (ts : List (ActiveToolSnapshot V O T)) (m : List (String × ActiveTool V O T))
      → is_empty (named_tools ts) ≡ false
      → is_empty (active_values (add_tools (named_tools ts) m)) ≡ false
  unfolding named_tools add_tools
  add_named_active [] m h = absurd (cc)
  add_named_active (t ∷ ts) m h = ground (
    arith,
    h,
    add_named_active ts m,
    add_tools_active (named_tools ts) (add_tool t t.components.span_id m),
    add_tool_some t t.components.span_id m,
  )

  values_nonempty :
      (m : List (String × ActiveTool V O T))
      → is_empty (active_values m) ≡ false
      → is_empty m ≡ false
  unfolding active_values
  values_nonempty [] h = h
  values_nonempty (e ∷ m) h = refl

  -- A restored registry has the session open, and knows its process.
  pub record IsRestored (key : String) (s : State V O T) : Type 0 where
    pub known : Map.contains_key key s.session_processes ≡ true
    pub opened : session_is_open s key ≡ true

  module _ (x : ActiveParentSnapshot V O T) (s : State V O T) where
    abbrev kept_tools : List (String × ActiveTool V O T)
    kept_tools = unwrap_or (Map.get x.correlation_key s.active_tools) []

    tools_active :
        is_refused x ≡ false
        → x.session_span ≡ none
        → is_empty (active_values (add_tools (named_tools x.tools) kept_tools)) ≡ false
    tools_active h e = add_named_active x.tools kept_tools (ground (arith, h, e))

    restore_spans-true : is_refused x ≡ false → (restore_spans x s).1 ≡ true
    unfolding restore_spans add_session_span
    restore_spans-true h = elim (Option-cases x.session_span) [
      | inl e ↦
          ground (
            arith,
            e,
            tools_active h e,
            values_nonempty (add_tools (named_tools x.tools) kept_tools),
          )
      | inr (t, e) ↦ ground (
        arith,
        e,
        Map.get-insert x.correlation_key x.correlation_key (from_snapshot t) s.session_spans,
      )
    ]

    restore_spans-opened :
        is_refused x ≡ false → session_is_open (restore_spans x s).0 x.correlation_key ≡ true
    unfolding restore_spans add_session_span session_is_open has_active_tools active_tools_of
    restore_spans-opened h = elim (Option-cases x.session_span) [
      | inl e ↦ ground (
        arith,
        e,
        tools_active h e,
        Map.get-insert x.correlation_key x.correlation_key
            (add_tools (named_tools x.tools) kept_tools) s.active_tools,
      )
      | inr (t, e) ↦ ground (
        arith,
        e,
        Map.get-insert x.correlation_key x.correlation_key (from_snapshot t) s.session_spans,
      )
    ]

  restore_spans-known :
      (x : ActiveParentSnapshot V O T) (s : State V O T)
      → (restore_spans x s).0.session_processes ≡ s.session_processes
  unfolding restore_spans
  restore_spans-known x s = refl

  -- A restore that answers false changed nothing; one that answers true took a snapshot that is not
  -- refused, and leaves its session open with a known process.
  pub restore_all_or_nothing :
      (x : ActiveParentSnapshot V O T) (s : State V O T)
      → ((restore_active_parent x s).1 ≡ false → (restore_active_parent x s).0 ≡ s)
        × ((restore_active_parent x s).1 ≡ true
            → (is_refused x ≡ false) × IsRestored x.correlation_key (restore_active_parent x s).0)
  unfolding restore_active_parent is_known
  restore_all_or_nothing x s =
      let known = add_processes x.correlation_key x.processes s in
      elim (Bool-cases (is_refused x)) [
        | inl bad ↦ (λ h. ground (arith, bad), λ h. absurd (ground (arith, h, bad)))
        | inr fine ↦ elim (Bool-cases (is_known x.correlation_key known)) [
          | inr lost ↦ (
            λ h. ground (arith, fine, lost, add_processes_unknown x.correlation_key x.processes s),
            λ h. absurd (ground (arith, h, fine, lost)),
          )
          | inl found ↦ (
            λ h. absurd (ground (arith, h, fine, found, restore_spans-true x known fine)),
            λ h. (
              fine,
              record {
                known = ground (arith, fine, found, restore_spans-known x known);
                opened = ground (arith, fine, found, restore_spans-opened x known fine);
              },
            ),
          )
        ]
      ]

  -- A restore keeps the process index in agreement.
  pub restore-IsIndexed :
      (x : ActiveParentSnapshot V O T) (s : State V O T)
      → IsIndexed s
      → IsIndexed (restore_active_parent x s).0
  unfolding restore_active_parent restore_spans
  restore-IsIndexed x s v =
      let v' = add_processes-IsIndexed x.correlation_key x.processes s v in
      elim (Bool-cases (is_refused x)) [
        | inl bad ↦ Agree-moved v (ground (arith, bad)) (ground (arith, bad))
        | inr fine ↦ Agree-moved v' (ground (arith, fine)) (ground (arith, fine))
      ]
