-- ===== src/Correlation/Index.antt =====
-- The two directions of the process index agree, whatever the registry is told.
use braintrust_coding_agent.Prelude.{
  String, ◌≡◌, ◌≢◌, refl, not, ◌&&◌, List, [], ◌∷◌, some, arith, inl, inr, Option-cases,
}
use braintrust_coding_agent.Collections.{string_key, same}
use braintrust_coding_agent.Collections.Set
use braintrust_coding_agent.Collections.Map
use braintrust_coding_agent.Wire.{ProcessIdentity, process_key}
use braintrust_coding_agent.Correlation.State.{
  State, sessions_of, processes_of, forget_session, forget_sessions, remove_process_mapping,
  add_process_mapping,
}

-- A session is listed under a process exactly if the process is listed under the session, and no
-- process is listed with no session.
pub record Agree (ps : List (ProcessIdentity × List String))
    (sp : List (String × List ProcessIdentity)) : Type 0 where
  pub inverse :
      (p : ProcessIdentity) (k : String)
      → Set.contains k (sessions_of p ps) ≡ Set.contains p (processes_of k sp)
  pub nonempty : (p : ProcessIdentity) → Map.get p ps ≢ some []

pub Agree-moved :
    {ps ps' : List (ProcessIdentity × List String)} {sp sp' : List (String × List ProcessIdentity)}
    → Agree ps sp
    → ps' ≡ ps
    → sp' ≡ sp
    → Agree ps' sp'
Agree-moved v e e' = rw (e, e') v

pub Agree-initial : Agree [] []
unfolding Map.get Set.contains
Agree-initial = record { inverse = λ p k. refl; nonempty = λ p e. cc }

contains-forget_session :
    (key k : String) (p q : ProcessIdentity) (m : List (ProcessIdentity × List String))
    → Set.contains k (sessions_of q (forget_session key p m))
      ≡ (not (same p q && same key k) && Set.contains k (sessions_of q m))
unfolding forget_session Set.contains
contains-forget_session key k p q m = elim (Option-cases (Map.get p m)) [
  | inl e ↦ ground (arith, e)
  | inr (sessions, e) ↦ ground (
    arith,
    e,
    Map.get-remove q p m,
    Map.get-insert q p (Set.remove key sessions) m,
    Set.contains-remove k key sessions,
  )
]

contains-forget_sessions :
    (key k : String) (ps : List ProcessIdentity) (q : ProcessIdentity)
    (m : List (ProcessIdentity × List String))
    → Set.contains k (sessions_of q (forget_sessions key ps m))
      ≡ (not (Set.contains q ps && same key k) && Set.contains k (sessions_of q m))
unfolding forget_sessions Set.contains
contains-forget_sessions key k [] q m = refl
contains-forget_sessions key k (p ∷ ps) q m = ground (
  arith,
  contains-forget_sessions key k ps q (forget_session key p m),
  contains-forget_session key k p q m,
)

nonempty-forget_session :
    (key : String) (p : ProcessIdentity) (m : List (ProcessIdentity × List String))
    → ((q : ProcessIdentity) → Map.get q m ≢ some [])
    → (q : ProcessIdentity) → Map.get q (forget_session key p m) ≢ some []
unfolding forget_session
nonempty-forget_session key p m h q = elim (Option-cases (Map.get p m)) [
  | inl e ↦ ground (arith, e, h q)
  | inr (sessions, e) ↦
      ground (arith, e, h q, Map.get-remove q p m, Map.get-insert q p (Set.remove key sessions) m)
]

nonempty-forget_sessions :
    (key : String) (ps : List ProcessIdentity) (m : List (ProcessIdentity × List String))
    → ((q : ProcessIdentity) → Map.get q m ≢ some [])
    → (q : ProcessIdentity) → Map.get q (forget_sessions key ps m) ≢ some []
unfolding forget_sessions
nonempty-forget_sessions key [] m h = h
nonempty-forget_sessions key (p ∷ ps) m h =
    nonempty-forget_sessions key ps (forget_session key p m) (nonempty-forget_session key p m h)

module _ {V O T : Type 0} where
  abbrev pub IsIndexed : State V O T → Type 0
  IsIndexed s = Agree s.process_sessions s.session_processes

  pub remove_process_mapping-IsIndexed :
      (key : String) (s : State V O T) → IsIndexed s → IsIndexed (remove_process_mapping key s)
  unfolding remove_process_mapping Set.contains
  remove_process_mapping-IsIndexed key s h = elim (Option-cases (Map.get key s.session_processes)) [
    | inl e ↦ rw (e, remove_process_mapping) h
    | inr (processes, e) ↦
        rw (e, remove_process_mapping)
          (record {
            inverse = λ p k. ground (
              arith,
              e,
              contains-forget_sessions key k processes p s.process_sessions,
              h.inverse p k,
              h.inverse p key,
              Map.get-remove k key s.session_processes,
            );
            nonempty = nonempty-forget_sessions key processes s.process_sessions h.nonempty;
          })
  ]

  pub add_process_mapping-IsIndexed :
      (key : String) (agent : ProcessIdentity) (s : State V O T)
      → IsIndexed s
      → IsIndexed (add_process_mapping key agent s)
  unfolding add_process_mapping Set.contains
  add_process_mapping-IsIndexed key agent s h = record {
    inverse = λ p k. ground (
      arith,
      h.inverse p k,
      h.inverse agent k,
      h.inverse p key,
      h.inverse agent key,
      Map.get-insert p agent (Set.insert key (sessions_of agent s.process_sessions))
          s.process_sessions,
      Map.get-insert k key (Set.insert agent (processes_of key s.session_processes))
          s.session_processes,
      Set.contains-insert k key (sessions_of agent s.process_sessions),
      Set.contains-insert p agent (processes_of key s.session_processes),
    );
    nonempty = λ p. ground (
      arith,
      h.nonempty p,
      Map.get-insert p agent (Set.insert key (sessions_of agent s.process_sessions))
          s.process_sessions,
      Set.contains-insert key key (sessions_of agent s.process_sessions),
    );
  }
