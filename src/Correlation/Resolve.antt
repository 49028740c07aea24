-- ===== src/Correlation/Resolve.antt =====
-- Which open session is the parent of a new one.
pub mod Owner
pub mod Confirm
use Prim.Native.Char.{code}
use text.Mathlib.Text.{starts_with}
use braintrust_coding_agent.Prelude.{
  ℕ, String, Bool, true, false, not, ◌&&◌, ◌||◌, List, [], ◌∷◌, map, Option, none, some,
  if◌then◌else◌, is_some, unwrap_or, eqb,
}
use braintrust_coding_agent.Collections.{string_key, same}
use braintrust_coding_agent.Collections.Set
use braintrust_coding_agent.Collections.Map
use braintrust_coding_agent.Wire.{
  ProcessIdentity, process_key, CaptureContext, SessionRoute, TraceDestination,
}
use braintrust_coding_agent.Correlation.State.{State, ActiveTool}
use braintrust_coding_agent.Correlation.Agents.{valid_process, ancestors}

-- `rsplit_once('\u{1f}')`, the part before the last separator
before_last : String → Option String
before_last String.[] = none
before_last (String.◌∷◌ c s) = elim (before_last s) [
  | some before ↦ some (String.◌∷◌ c before)
  | none ↦ if eqb (code c) 0x1f then some String.[] else none
]

-- keys are `source␟session␟route`
unfoldable pub native_session_key : String → String
unfolding before_last
native_session_key key = unwrap_or (before_last key) key

-- `open.clone().any(|other| native_session_key(other) != native_session_key(session))`
unfoldable pub any_other_native : String → List String → Bool
any_other_native key [] = false
any_other_native key (k ∷ ks) =
    not (same (native_session_key k) (native_session_key key)) || any_other_native key ks

abbrev pub is_own : Option String → String → Bool
is_own none session = false
is_own (some child) session = starts_with session child

pub data Resolution (V O T : Type 0) : Type 0 where
  standalone : Resolution V O T
  parent : SessionRoute V O T → Resolution V O T
  pending : ProcessIdentity → SessionRoute V O T → Resolution V O T

module _ {V O T : Type 0} where
  abbrev pub to_link : ActiveTool V O T → SessionRoute V O T
  to_link tool = record tool.route {
    destination = some (TraceDestination.parent_span tool.components);
  }

  -- `.values().filter(|tool| tool.active)`
  unfoldable pub active_values : List (String × ActiveTool V O T) → List (ActiveTool V O T)
  active_values [] = []
  active_values ((k, t) ∷ m) = let rest = active_values m in if t.active then t ∷ rest else rest

  unfoldable pub active_tools_of : String → State V O T → List (ActiveTool V O T)
  active_tools_of key s = active_values (unwrap_or (Map.get key s.active_tools) [])

  unfoldable pub has_active_tools : String → State V O T → Bool
  unfolding active_tools_of
  has_active_tools key s = elim (active_tools_of key s) [ [] ↦ false | _ ∷ _ ↦ true ]

  any_active_tools : List String → State V O T → Bool
  any_active_tools [] s = false
  any_active_tools (key ∷ keys) s = has_active_tools key s || any_active_tools keys s

  unfoldable pub has_any_active_tools : State V O T → Bool
  unfolding any_active_tools
  has_any_active_tools s = any_active_tools s.live_sessions s

  -- `.filter(|span| span.active)`
  abbrev pub only_active : Option (ActiveTool V O T) → Option (ActiveTool V O T)
  only_active none = none
  only_active (some t) = if t.active then some t else none

  unfoldable pub session_is_open : State V O T → String → Bool
  session_is_open s key =
      has_active_tools key s || is_some (only_active (Map.get key s.session_spans))

  -- the one open tool, or else the open span of the session
  unfoldable pub parent_of : State V O T → String → Option (ActiveTool V O T)
  parent_of s key = elim (active_tools_of key s) [
    | [] ↦ only_active (Map.get key s.session_spans)
    | t ∷ ts ↦ elim ts [ [] ↦ some t | _ ∷ _ ↦ only_active (Map.get key s.session_spans) ]
  ]

  -- `sessions.iter().filter(|session| session_is_open(&state, session))`
  unfoldable pub open_among : State V O T → List String → List String
  open_among s [] = []
  open_among s (k ∷ ks) =
      let rest = open_among s ks in if session_is_open s k then k ∷ rest else rest

  module _ (parent_route : SessionRoute V O T → Option (SessionRoute V O T)) where
    abbrev pub route_of_parent : Option (ActiveTool V O T) → Option (SessionRoute V O T)
    route_of_parent none = none
    route_of_parent (some t) = parent_route (to_link t)

    -- the loop over the open sessions; `none` when two of them have a compatible route
    unfoldable pub select :
        State V O T
        → List String
        → Option (SessionRoute V O T)
        → Option (Option (SessionRoute V O T))
    select s [] selected = some selected
    select s (k ∷ ks) selected = elim (route_of_parent (parent_of s k)) [
      | none ↦ select s ks selected
      | some route ↦ if is_some selected then none else select s ks (some route)
    ]

    abbrev pub answer :
        ProcessIdentity → Bool → Option (Option (SessionRoute V O T)) → Resolution V O T
    answer p known none = standalone
    answer p known (some none) = standalone
    answer p known (some (some route)) = if known then parent route else pending p route

    -- the body of the loop, at the nearest registered process
    unfoldable pub decide :
        State V O T → Option String → Bool → ProcessIdentity → List String → Resolution V O T
    decide s child known p [] = standalone
    decide s child known p (session ∷ others) =
        if any_other_native session others || is_own child session
        then standalone
        else answer p known (select s (session ∷ others) none)

    unfoldable pub resolve_among :
        State V O T → Option String → Bool → List ProcessIdentity → Resolution V O T
    resolve_among s child known [] = standalone
    resolve_among s child known (p ∷ ps) =
        let rest = resolve_among s child known ps in
        if valid_process p
        then elim (Map.get p s.process_sessions) [
          | none ↦ rest
          | some sessions ↦ decide s child known p (open_among s sessions)
        ]
        else rest

    unfoldable pub resolve :
        State V O T
        → Option String
        → Option CaptureContext
        → Option ProcessIdentity
        → Resolution V O T
    resolve s child none child_agent = standalone
    resolve s child (some capture) child_agent = elim (ancestors capture child_agent) [
      | none ↦ standalone
      | some processes ↦ resolve_among s child (is_some child_agent) processes
    ]

  unfoldable pub confirm_parent :
      ProcessIdentity → SessionRoute V O T → CaptureContext → ProcessIdentity → Resolution V O T
  confirm_parent process route capture child_agent = elim (ancestors capture (some child_agent)) [
    | none ↦ standalone
    | some above ↦
        if valid_process process && Set.contains process above then parent route else standalone
  ]
