-- ===== src/Route.antt =====
-- Authentication and settings of a session's route: the methods of bt-daemon/src/wire/envelope.rs
-- and the overrides of bt-daemon/src/route.rs. Serialization and JSON parsing are parameters.
pub mod Auth
pub mod Tags
use Prim.Native.Char.{code}
use braintrust_coding_agent.Prelude.{
  String, Bool, true, false, not, ◌&&◌, ◌||◌, List, [], ◌∷◌, Option, none, some, if◌then◌else◌,
  is_some, is_empty, eqb,
}
use braintrust_coding_agent.Collections.{Key, string_key, same}
use braintrust_coding_agent.Collections.Set
use braintrust_coding_agent.Wire.{
  AuthSource, AuthSelection, BackendAuth, FlushMode, TraceDestination, SessionRoute, SessionConfig,
}
use braintrust_coding_agent.Translator.{Result, ok, err}

abbrev pub is_named : String → Option String → Bool
is_named name none = false
is_named name (some s) = same s name

abbrev pub source_of_auto : AuthSelection → AuthSource
source_of_auto a =
    if is_named "environment" a.profile
    then AuthSource.environment
    else if is_some a.profile_id || is_some a.profile
    then AuthSource.saved_profile
    else AuthSource.auto

abbrev pub effective_of : AuthSource → AuthSelection → AuthSource
effective_of AuthSource.auto a = source_of_auto a
effective_of source a = source

unfoldable pub effective_source : AuthSelection → AuthSource
effective_source a = effective_of a.source a

abbrev pub canonical_as : AuthSource → AuthSelection → Result String AuthSelection
canonical_as AuthSource.saved_profile a =
    if not (is_some a.profile_id) && not (is_some a.profile)
    then err "saved-profile auth requires a profile ID or name"
    else ok (record a { source = AuthSource.saved_profile })
canonical_as AuthSource.environment a =
    ok (record a { source = AuthSource.environment; profile_id = none; profile = none })
canonical_as AuthSource.auto a = ok (record a { source = AuthSource.auto })

unfoldable pub canonicalized : AuthSelection → Result String AuthSelection
canonicalized a = canonical_as (effective_source a) a

-- two profile identifiers that are both known and differ
abbrev pub ids_differ : Option String → Option String → Bool
ids_differ (some i) (some j) = not (same i j)
ids_differ _ _ = false

module _ (trim : String → String) where
  -- the loop of `apply_tags`; none for a tag that is blank
  unfoldable pub normalize : List String → List String → Option (List String)
  normalize [] normalized = some normalized
  normalize (tag ∷ tags) normalized =
      if same (trim tag) "" then none else normalize tags (Set.insert (trim tag) normalized)

module _ {V O T : Type 0} where
  unfoldable pub with_auth : SessionRoute V O T → BackendAuth → SessionConfig V O T
  with_auth r auth = record {
    auth = auth;
    destination = r.destination;
    flush_mode = r.flush_mode;
    additional_metadata = r.additional_metadata;
    tags = r.tags;
    span_plugins = r.span_plugins;
  }

  -- what `same_route` serializes: no identifier, and the effective source
  abbrev pub comparable : SessionRoute V O T → SessionRoute V O T
  comparable r = record r {
    auth = record r.auth {
      profile_id = none;
      source = effective_source (record r.auth { profile_id = none });
    };
  }

  -- `Self { auth, destination, ..Self::default() }`
  abbrev pub identity : SessionRoute V O T → SessionRoute V O T
  identity r = record {
    auth = r.auth;
    destination = r.destination;
    flush_mode = FlushMode.fire_and_forget;
    additional_metadata = none;
    tags = [];
    span_plugins = [];
  }

  -- `W` is a serialized route; `to_value` fails as `serde_json::to_value` does.
  module _ {W : Type 0} ⦃values : Key (Option W)⦄ (to_value : SessionRoute V O T → Option W) where
    unfoldable pub same_route : SessionRoute V O T → SessionRoute V O T → Bool
    same_route r r' =
        if ids_differ r.auth.profile_id r'.auth.profile_id
        then false
        else same (to_value (comparable r)) (to_value (comparable r'))

    unfoldable pub same_destination : SessionRoute V O T → SessionRoute V O T → Bool
    unfolding same_route
    same_destination r r' = same_route (identity r) (identity r')

    unfoldable pub same_replay_route : SessionRoute V O T → SessionRoute V O T → Bool
    unfolding same_route
    same_replay_route r r' =
        same_route (record r { span_plugins = [] }) (record r' { span_plugins = [] })

  abbrev pub with_tags :
      SessionRoute V O T → Option (List String) → Result String (SessionRoute V O T)
  with_tags r none = err "--tag must not be empty"
  with_tags r (some tags) = ok (record r { tags = tags })

  module _ (trim : String → String) where
    unfoldable pub apply_tags :
        SessionRoute V O T → List String → Result String (SessionRoute V O T)
    apply_tags r [] = ok r
    apply_tags r (tag ∷ tags) = with_tags r (normalize trim (tag ∷ tags) [])

  -- `parse` is `serde_json::from_str` with its error's text
  unfoldable pub apply_additional_metadata :
      (String → Result String V)
      → (V → Bool)
      → SessionRoute V O T
      → Option String
      → Result String (SessionRoute V O T)
  apply_additional_metadata parse is_object r none = ok r
  apply_additional_metadata parse is_object r (some text) = elim (parse text) [
    | err e ↦ err e
    | ok v ↦
        if is_object v
        then ok (record r { additional_metadata = some v })
        else err "--additional-metadata must be a JSON object"
  ]

-- `split_once(':')`
unfoldable pub split_colon : String → Option (String × String)
split_colon String.[] = none
split_colon (String.◌∷◌ c s) =
    let rest = split_colon s in
    if eqb (code c) 0x3a
    then some (String.[], s)
    else elim rest [ none ↦ none | some (kind, id) ↦ some (String.◌∷◌ c kind, id) ]

module _ {O T : Type 0} where
  abbrev destination_of : String → String → Result String (TraceDestination O T)
  destination_of kind id =
      if same id ""
      then err "destination id must not be empty"
      else if same kind "project_logs"
      then ok (TraceDestination.project_logs (some id) none)
      else if same kind "experiment"
      then ok (TraceDestination.experiment id)
      else err "unsupported destination; expected project_logs or experiment"

  unfoldable pub destination_from_str : String → Result String (TraceDestination O T)
  unfolding split_colon
  destination_from_str value = elim (split_colon value) [
    | none ↦ err "destination must be project_logs:<project-id> or experiment:<experiment-id>"
    | some (kind, id) ↦ destination_of kind id
  ]
