-- ===== src/Route/Tags.antt =====
-- The tags that an invocation puts on a route.
use braintrust_coding_agent.Prelude.{
  String, ◌≡◌, refl, ap, Bool, true, false, ◌||◌, List, [], ◌∷◌, map, none, some, arith, Bool-cases,
  is_empty, if◌then◌else◌, inl, inr,
}
use braintrust_coding_agent.Collections.{string_key}
use braintrust_coding_agent.Collections.Set
use braintrust_coding_agent.Collections.Set.{Distinct}
use braintrust_coding_agent.Wire.{SessionRoute}
use braintrust_coding_agent.Translator.{ok, err}
use braintrust_coding_agent.Route.{normalize, apply_tags, with_tags}

insert-Distinct : (k : String) (s : List String) → Distinct s → Distinct (Set.insert k s)
unfolding Set.insert
insert-Distinct k s d = elim (Bool-cases (Set.contains k s)) [
  | inl member ↦ rw member d
  | inr new ↦ rw new (Set.append-Distinct k s d new)
]

module _ (trim : String → String) where
  abbrev pub has_blank : List String → Bool
  has_blank tags = Set.contains "" (map trim tags)

  -- The list that the loop ends with, without repetition, has the members of both lists.
  normalize-total :
      (tags before : List String)
      → Distinct before
      → has_blank tags ≡ false
      → (after : List String) × (normalize trim tags before ≡ some after)
        × Distinct after
        × ((k : String)
            → Set.contains k after ≡ (Set.contains k before || Set.contains k (map trim tags)))
  unfolding normalize Set.contains
  normalize-total [] before d h = (before, refl, d, λ k. ground arith)
  normalize-total (t ∷ tags) before d h =
      let (after, e, distinct, members) =
        normalize-total tags (Set.insert (trim t) before) (insert-Distinct (trim t) before d)
          (ground (arith, h)) in
      (
        after,
        ground (arith, h, e),
        distinct,
        λ k. ground (arith, members k, Set.contains-insert k (trim t) before),
      )

  normalize-blank :
      (tags before : List String) → has_blank tags ≡ true → normalize trim tags before ≡ none
  unfolding normalize Set.contains
  normalize-blank [] before h = absurd (cc)
  normalize-blank (t ∷ tags) before h =
      ground (arith, h, normalize-blank tags (Set.insert (trim t) before))

  module _ {V O T : Type 0} where
    -- `apply_tags` fails if a tag is blank; else the route has the trimmed tags, each once, and no
    -- tags leave it as it is.
    pub apply_tags-normal :
        (r : SessionRoute V O T) (tags : List String)
        → (has_blank tags ≡ true → apply_tags trim r tags ≡ err "--tag must not be empty")
          × (has_blank tags ≡ false
              → (after : List String) × (apply_tags trim r tags
                  ≡ ok (if is_empty tags then r else record r { tags = after }))
                × Distinct after
                × ((k : String) → Set.contains k after ≡ Set.contains k (map trim tags)))
    unfolding apply_tags Set.contains
    apply_tags-normal r [] = (λ h. absurd (cc), λ h. ([], refl, tt, λ k. refl))
    apply_tags-normal r (t ∷ tags) = (
      λ h. ap (with_tags r) (normalize-blank (t ∷ tags) [] h),
      λ h.
          let (after, e, distinct, members) = normalize-total (t ∷ tags) [] tt h in
          (after, ap (with_tags r) e, distinct, members),
    )
