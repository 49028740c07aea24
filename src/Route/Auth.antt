-- ===== src/Route/Auth.antt =====
-- What canonical authentication looks like, and when two routes are the same.
use braintrust_coding_agent.Prelude.{
  String, ◌≡◌, ◌⊎◌, inl, inr, Option-cases, refl, sym, ap, ◌∙◌, true, false, Option, none, some,
  arith,
}
use braintrust_coding_agent.Collections.{Key, string_key, string_dec, same, same_self}
use braintrust_coding_agent.Wire.{
  AuthSource, AuthSelection, SessionRoute, auto, saved_profile, environment,
}
use braintrust_coding_agent.Translator.{Result, ok, err}
use braintrust_coding_agent.Route.{
  effective_source, effective_of, canonicalized, comparable, ids_differ, same_route,
}

-- The legacy form of environment authentication, without a source.
abbrev pub IsLegacy : AuthSelection → Type 0
IsLegacy a = (a.source ≡ auto) × (a.profile ≡ some "environment")

abbrev pub HasProfile : AuthSelection → Type 0
HasProfile a = ((i : String) × (a.profile_id ≡ some i)) ⊎ ((p : String) × (a.profile ≡ some p))

abbrev pub IsBare : AuthSelection → Type 0
IsBare a = (a.profile_id ≡ none) × (a.profile ≡ none)

-- The canonical form, by what the selection says. The cases exclude each other.
pub data IsCanonical (a : AuthSelection) (result : Result String AuthSelection) : Type 0 where
  by_environment :
      (a.source ≡ environment) ⊎ IsLegacy a
      → result
        ≡ ok (record {
          source = environment;
          profile_id = none;
          profile = none;
          org_name = a.org_name;
        })
      → IsCanonical a result
  by_profile :
      (a.source ≡ saved_profile) ⊎ ((a.source ≡ auto) × ¬ IsLegacy a)
      → HasProfile a
      → result
        ≡ ok (record {
          source = saved_profile;
          profile_id = a.profile_id;
          profile = a.profile;
          org_name = a.org_name;
        })
      → IsCanonical a result
  without_profile :
      a.source ≡ saved_profile
      → IsBare a
      → result ≡ err "saved-profile auth requires a profile ID or name"
      → IsCanonical a result
  automatic : a.source ≡ auto → IsBare a → result ≡ ok a → IsCanonical a result

profile-cases : (a : AuthSelection) → HasProfile a ⊎ IsBare a
profile-cases a = elim (Option-cases a.profile_id) [
  | inr (i, e) ↦ inl (inl (i, e))
  | inl no_id ↦ elim (Option-cases a.profile) [
    | inr (p, e) ↦ inl (inr (p, e))
    | inl no_name ↦ inr (no_id, no_name)
  ]
]

environment-IsCanonical :
    (a : AuthSelection) → a.source ≡ environment → IsCanonical a (canonicalized a)
unfolding canonicalized effective_source
environment-IsCanonical a e = by_environment (inl e) (rw e refl)

profile-IsCanonical :
    (a : AuthSelection) → a.source ≡ saved_profile → IsCanonical a (canonicalized a)
unfolding canonicalized effective_source
profile-IsCanonical a e = elim (profile-cases a) [
  | inl (inl (i, h)) ↦ by_profile (inl e) (inl (i, h)) (ground (arith, e, h))
  | inl (inr (p, h)) ↦ by_profile (inl e) (inr (p, h)) (ground (arith, e, h))
  | inr (no_id, no_name) ↦ without_profile e (no_id, no_name) (ground (arith, e, no_id, no_name))
]

auto-IsCanonical : (a : AuthSelection) → a.source ≡ auto → IsCanonical a (canonicalized a)
unfolding canonicalized effective_source
auto-IsCanonical a e = elim (Option-cases a.profile) [
  | inr (p, named) ↦ elim (string_dec p "environment") [
    | yes same_name ↦
        by_environment (inr (e, named ∙ ap some same_name)) (ground (arith, e, named, same_name))
    | no other ↦
        by_profile (inr (e, λ legacy. other (cc (named, legacy.1)))) (inr (p, named))
          (ground (arith, e, named, other))
  ]
  | inl no_name ↦ elim (Option-cases a.profile_id) [
    | inr (i, known) ↦
        by_profile (inr (e, λ legacy. absurd (cc (no_name, legacy.1)))) (inl (i, known))
          (ground (arith, e, no_name, known))
    | inl no_id ↦ automatic e (no_id, no_name) (ground (arith, e, no_name, no_id))
  ]
]

selection-IsCanonical :
    (a : AuthSelection) (source : AuthSource) → a.source ≡ source → IsCanonical a (canonicalized a)
selection-IsCanonical a auto e = auto-IsCanonical a e
selection-IsCanonical a saved_profile e = profile-IsCanonical a e
selection-IsCanonical a environment e = environment-IsCanonical a e

abbrev pub again : Result String AuthSelection → Result String AuthSelection
again (ok b) = canonicalized b
again (err e) = err e

canonicalized-environment :
    (org_name : Option String)
    → (let b : AuthSelection = record {
      source = environment;
      profile_id = none;
      profile = none;
      org_name = org_name;
    } in
        canonicalized b ≡ ok b)
unfolding canonicalized effective_source
canonicalized-environment org_name = refl

canonicalized-profile :
    (b : AuthSelection) → b.source ≡ saved_profile → HasProfile b → canonicalized b ≡ ok b
unfolding canonicalized effective_source
canonicalized-profile b e (inl (i, h)) = ground (arith, e, h)
canonicalized-profile b e (inr (p, h)) = ground (arith, e, h)

canonicalized-again : (a : AuthSelection) → again (canonicalized a) ≡ canonicalized a
canonicalized-again a = elim (selection-IsCanonical a a.source refl) [
  | by_environment e r ↦ ap again r ∙ canonicalized-environment a.org_name ∙ sym r
  | by_profile e h r ↦
      ap again r ∙ canonicalized-profile (record a { source = saved_profile }) refl h ∙ sym r
  | without_profile e h r ↦ ap again r ∙ sym r
  | automatic e h r ↦ ap again r
]

-- A selection of the environment, or without a source but with the legacy profile `environment`,
-- becomes one of the environment without a profile; any other with a profile's identifier or name
-- becomes one of a saved profile with both kept; without either, a saved profile is refused and a
-- selection without a source is left as it is. The organization is kept, and canonicalizing the
-- result again changes nothing.
pub canonicalized-IsCanonical :
    (a : AuthSelection)
    → IsCanonical a (canonicalized a) × (again (canonicalized a) ≡ canonicalized a)
canonicalized-IsCanonical a = (selection-IsCanonical a a.source refl, canonicalized-again a)

module _ {V O T : Type 0} where
  -- a named route after its profile's identifier was learned
  abbrev pub learned : String → SessionRoute V O T → SessionRoute V O T
  learned id r = record r { auth = record r.auth { source = saved_profile; profile_id = some id } }

  comparable-learned :
      (r : SessionRoute V O T) (i : String)
      → effective_source r.auth ≡ saved_profile
      → r.auth.profile_id ≡ none
      → comparable r ≡ comparable (learned i r)
  unfolding effective_source
  comparable-learned r i saved named = λ j. record r {
    auth = record r.auth {
      profile_id = none;
      source =
          (ap (λ x. effective_of r.auth.source (record r.auth { profile_id = x })) (sym named)
              ∙ saved)
            j;
    };
  }

module _ {V O T W : Type 0} ⦃values : Key (Option W)⦄
    (to_value : SessionRoute V O T → Option W) where
  -- A route by a saved profile's name is the same as the route with the identifier learned since;
  -- routes with two different identifiers are never the same.
  same_route-learned :
      (r r' : SessionRoute V O T) (i : String)
      → effective_source r.auth ≡ saved_profile
      → r.auth.profile_id ≡ none
      → (same_route to_value r (learned i r) ≡ true)
        × (ids_differ r.auth.profile_id r'.auth.profile_id ≡ true
            → same_route to_value r r' ≡ false)
  unfolding same_route effective_source
  same_route-learned r r' i saved named = (
    rw named (
        ap (λ x. same (to_value x) (to_value (comparable (learned i r))))
          (comparable-learned r i saved named)
        ∙ same_self (to_value (comparable (learned i r)))),
    λ differ. rw differ refl,
  )
