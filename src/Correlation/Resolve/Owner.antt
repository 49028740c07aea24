-- ===== src/Correlation/Resolve/Owner.antt =====
-- A parent that is answered is the parent of exactly one open session of the nearest registered
-- ancestor.
use braintrust_coding_agent.Prelude.{
  String, ◌≡◌, refl, sym, ap, ◌∙◌, Bool, true, false, ◌&&◌, List, [], ◌∷◌, ◌++◌, Option, none, some,
  arith, is_some, ◌⊎◌, inl, inr, Bool-cases, Option-cases, All,
}
use braintrust_coding_agent.Collections.{string_key}
use braintrust_coding_agent.Collections.Set
use braintrust_coding_agent.Collections.Map
use braintrust_coding_agent.Wire.{ProcessIdentity, process_key, CaptureContext, SessionRoute}
use braintrust_coding_agent.Correlation.State.{State, sessions_of}
use braintrust_coding_agent.Correlation.Agents.{valid_process, ancestors}
use braintrust_coding_agent.Correlation.Resolve.{
  Resolution, standalone, parent, pending, native_session_key, session_is_open, parent_of,
  open_among, any_other_native, route_of_parent, select, decide, resolve_among, resolve,
}

-- the route that an answer carries
abbrev pub route_in : {V O T : Type 0} → Resolution V O T → Option (SessionRoute V O T)
route_in standalone = none
route_in (parent route) = some route
route_in (pending p route) = some route

native_among :
    (key j : String) (ks : List String)
    → any_other_native key ks ≡ false
    → Set.contains j ks ≡ true
    → native_session_key j ≡ native_session_key key
unfolding any_other_native Set.contains
native_among key j [] h m = cc
native_among key j (k ∷ ks) h m = ground (arith, native_among key j ks)

native_all :
    (j key : String) (ks : List String)
    → any_other_native key ks ≡ false
    → Set.contains j (key ∷ ks) ≡ true
    → native_session_key j ≡ native_session_key key
unfolding Set.contains
native_all j key ks h m = ground (arith, native_among key j ks h)

module _ {V O T : Type 0} (parent_route : SessionRoute V O T → Option (SessionRoute V O T))
    (s : State V O T) where
  abbrev pub Offers : String → SessionRoute V O T → Type 0
  Offers k route = route_of_parent parent_route (parent_of s k) ≡ some route

  pub record IsOwner (chain : List ProcessIdentity) (route : SessionRoute V O T) : Type 0 where
    pub process : ProcessIdentity
    pub in_chain : Set.contains process chain ≡ true
    pub is_valid : valid_process process ≡ true
    pub session : String
    pub listed : Set.contains session (sessions_of process s.process_sessions) ≡ true
    pub opened : session_is_open s session ≡ true
    pub offers : Offers session route
    pub one_native :
        (j : String)
        → Set.contains j (sessions_of process s.process_sessions) ≡ true
        → session_is_open s j ≡ true
        → native_session_key j ≡ native_session_key session
    pub unrivalled :
        (j : String) (other : SessionRoute V O T)
        → Set.contains j (sessions_of process s.process_sessions) ≡ true
        → session_is_open s j ≡ true
        → Offers j other
        → (j ≡ session) × (other ≡ route)

  contains-open_among :
      (k : String) (ks : List String)
      → Set.contains k (open_among s ks) ≡ (Set.contains k ks && session_is_open s k)
  unfolding open_among Set.contains
  contains-open_among k [] = refl
  contains-open_among k (j ∷ ks) = ground (arith, contains-open_among k ks)

  -- with a route selected, no further session has one
  select_rest :
      (ks : List String) (route : SessionRoute V O T) (r : Option (SessionRoute V O T))
      → select parent_route s ks (some route) ≡ some r
      → (r ≡ some route)
        × ((j : String)
            → Set.contains j ks ≡ true
            → route_of_parent parent_route (parent_of s j) ≡ none)
  unfolding select Set.contains
  select_rest [] route r h = (cc, λ j m. cc)
  select_rest (k ∷ ks) route r h =
      elim (Option-cases (route_of_parent parent_route (parent_of s k))) [
        | inl e ↦
            let (same_route, others) = select_rest ks route r (ground (arith, h, e)) in
            (same_route, λ j m. ground (arith, e, m, others j))
        | inr (x, e) ↦ absurd (ground (arith, h, e))
      ]

  -- the one session that is selected from none
  record Selected (ks : List String) (route : SessionRoute V O T) : Type 0 where
    session : String
    listed : Set.contains session ks ≡ true
    offers : Offers session route
    unrivalled :
        (j : String) (other : SessionRoute V O T)
        → Set.contains j ks ≡ true
        → Offers j other
        → (j ≡ session) × (other ≡ route)

  select-Selected :
      (ks : List String) (route : SessionRoute V O T)
      → select parent_route s ks none ≡ some (some route)
      → Selected ks route
  unfolding select Set.contains
  select-Selected [] route h = absurd (cc)
  select-Selected (k ∷ ks) route h =
      elim (Option-cases (route_of_parent parent_route (parent_of s k))) [
        | inl e ↦
            let w = select-Selected ks route (ground (arith, h, e)) in
            record {
              session = w.session;
              listed = ground (arith, w.listed);
              offers = w.offers;
              unrivalled = λ j other m o. w.unrivalled j other (ground (arith, m, o, e)) o;
            }
        | inr (x, e) ↦
            let (same_route, others) = select_rest ks x (some route) (ground (arith, h, e)) in
            record {
              session = k;
              listed = ground arith;
              offers = ground (arith, same_route, e);
              unrivalled = λ j other m o.
                  (ground (arith, others j, m, o), ground (arith, others j, m, o, e, same_route));
            }
      ]

  decide-IsOwner :
      (child : Option String) (known : Bool) (p : ProcessIdentity) (chain : List ProcessIdentity)
      (sessions : List String) (route : SessionRoute V O T)
      → Set.contains p chain ≡ true
      → valid_process p ≡ true
      → Map.get p s.process_sessions ≡ some sessions
      → (opens : List String) → opens ≡ open_among s sessions
      → route_in (decide parent_route s child known p opens) ≡ some route
      → IsOwner chain route
  unfolding decide Set.contains
  decide-IsOwner child known p chain sessions route inc v e [] o h = absurd (cc)
  decide-IsOwner child known p chain sessions route inc v e (k ∷ ks) o h =
      let among : (j : String)
          → Set.contains j (k ∷ ks) ≡ (Set.contains j sessions && session_is_open s j) =
        λ j. ap (Set.contains j) o ∙ contains-open_among j sessions in
      let w = select-Selected (k ∷ ks) route (ground (arith, h)) in
      let one : any_other_native k ks ≡ false = ground (arith, h) in
      record {
        process = p;
        in_chain = inc;
        is_valid = v;
        session = w.session;
        listed = ground (arith, among w.session, w.listed, e);
        opened = ground (arith, among w.session, w.listed);
        offers = w.offers;
        one_native = λ j listed opened.
            native_all j k ks one (ground (arith, among j, listed, opened, e))
            ∙ sym (native_all w.session k ks one w.listed);
        unrivalled = λ j other listed opened o'.
            w.unrivalled j other (ground (arith, among j, listed, opened, e)) o';
      }

  resolve_among-IsOwner :
      (child : Option String) (known : Bool) (chain ps : List ProcessIdentity)
      (route : SessionRoute V O T)
      → ((q : ProcessIdentity) → Set.contains q ps ≡ true → Set.contains q chain ≡ true)
      → route_in (resolve_among parent_route s child known ps) ≡ some route
      → IsOwner chain route
  unfolding resolve_among Set.contains
  resolve_among-IsOwner child known chain [] route sub h = absurd (cc)
  resolve_among-IsOwner child known chain (p ∷ ps) route sub h =
      let above : (q : ProcessIdentity) → Set.contains q ps ≡ true → Set.contains q chain ≡ true =
        λ q m. sub q (ground (arith, m)) in
      elim (Bool-cases (valid_process p)) [
        | inr bad ↦ resolve_among-IsOwner child known chain ps route above (ground (arith, h, bad))
        | inl good ↦ elim (Option-cases (Map.get p s.process_sessions)) [
          | inl e ↦
              resolve_among-IsOwner child known chain ps route above (ground (arith, h, good, e))
          | inr (sessions, e) ↦
              decide-IsOwner child known p chain sessions route (sub p (ground arith)) good e
                (open_among s sessions) refl (ground (arith, h, good, e))
        ]
      ]

  -- If `resolve` answers with a route, a valid registered process of the child's ancestors has an
  -- open session that offers it, all its open sessions are one native session, and no other open
  -- session of it offers a route, not even the same one.
  pub resolve-IsOwner :
      (child : Option String) (capture : CaptureContext) (agent : Option ProcessIdentity)
      (chain : List ProcessIdentity) (route : SessionRoute V O T)
      → ancestors capture agent ≡ some chain
      → route_in (resolve parent_route s child (some capture) agent) ≡ some route
      → IsOwner chain route
  unfolding resolve
  resolve-IsOwner child capture agent chain route a h =
      resolve_among-IsOwner child (is_some agent) chain chain route (λ q m. m)
        (ground (arith, a, h))

  abbrev pub Unregistered : ProcessIdentity → Type 0
  Unregistered p = (valid_process p ≡ false) ⊎ (Map.get p s.process_sessions ≡ none)

  -- The first valid, registered process of the chain decides alone; what stands above it has no
  -- influence.
  pub resolve_among-nearest :
      (child : Option String) (known : Bool) (below above : List ProcessIdentity)
      (p : ProcessIdentity) (sessions : List String)
      → All Unregistered below
      → valid_process p ≡ true
      → Map.get p s.process_sessions ≡ some sessions
      → resolve_among parent_route s child known (below ++ p ∷ above)
        ≡ decide parent_route s child known p (open_among s sessions)
  unfolding resolve_among
  resolve_among-nearest child known [] above p sessions u good e = ground (arith, good, e)
  resolve_among-nearest child known (q ∷ below) above p sessions u good e =
      ground (arith, u.0, resolve_among-nearest child known below above p sessions u.1 good e)
