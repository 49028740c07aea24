-- ===== src/Recent/Dedup.antt =====
-- The set of recent identifiers is the window of the latest ones.
use mathlib.Core.Option
use mathlib.Core.List.{append-nil, append_assoc}
use braintrust_coding_agent.Prelude.{
  ℕ, zero, suc, ◌≤◌, ◌<◌, ◌≡◌, refl, sym, ap, ◌∙◌, true, false, not, List, [], ◌∷◌, ◌++◌, Option,
  some, length, arith, inl, inr, Bool-cases, length-append, if◌then◌else◌,
}
use braintrust_coding_agent.Collections.{Key}
use braintrust_coding_agent.Collections.Set
use braintrust_coding_agent.Collections.Set.{
  Distinct, append-Distinct, drop-Distinct, remove-Distinct, remove_absent, length-remove-le,
  contains-drop, not_contains_before, Distinct-of_append,
}
use braintrust_coding_agent.Recent.{RecentSet, evict, insert, remove, contains, empty_set}
use braintrust_coding_agent.Recent.Window.{
  latest, latest-latest-append, latest_short, latest_long, length-latest-le,
}

-- The table and the queue hold the same identifiers, each once, within the capacity.
pub record IsValid {K : Type 0} ⦃key : Key K⦄ (s : RecentSet K) : Type 0 where
  pub mirrors : s.values ≡ s.order
  pub distinct : Distinct s.order
  pub bounded : length s.order ≤ s.capacity

abbrev pub holding : {K : Type 0} → ℕ → List K → RecentSet K
holding cap xs = record { values = xs; order = xs; capacity = cap }

module _ {K : Type 0} ⦃key : Key K⦄ where
  eq-holding : (s : RecentSet K) → s.values ≡ s.order → s ≡ holding s.capacity s.order
  eq-holding s e = λ i. record { values = e i; order = s.order; capacity = s.capacity }

  remove_head : (x : K) (xs : List K) → Set.contains x xs ≡ false → Set.remove x (x ∷ xs) ≡ xs
  unfolding Set.remove
  remove_head x xs h = ground (arith, remove_absent x xs)

  -- With more fuel than entries the loop ends, and leaves the latest entries.
  evict-latest :
      (fuel : ℕ) (cap : ℕ) (xs : List K)
      → length xs < fuel
      → Distinct xs
      → evict fuel (holding cap xs) ≡ some (holding cap (latest cap xs))
  unfolding evict
  evict-latest zero n xs h d = absurd (omega arith)
  evict-latest (suc fuel) n [] h d = ground (arith, latest_short {A = K} n [])
  evict-latest (suc fuel) n (x ∷ xs) h d =
      ground (
        arith,
        evict-latest fuel n xs,
        remove_head x xs,
        latest_long n x xs,
        latest_short n (x ∷ xs),
      )

  abbrev pub after_insert : K → RecentSet K → List K
  after_insert value s =
      if Set.contains value s.order then s.order else latest s.capacity (s.order ++ value ∷ [])

  insert-holding :
      (value : K) (n : ℕ) (xs : List K)
      → Distinct xs
      → insert value (holding n xs)
        ≡ some (
            if Set.contains value xs
            then (holding n xs, false)
            else (holding n (latest n (xs ++ value ∷ [])), true))
  unfolding insert Set.insert
  insert-holding value n xs d = ground (
    arith,
    evict-latest (suc (suc (length xs))) n (xs ++ value ∷ []),
    length-append xs (value ∷ []),
    append-Distinct value xs d,
  )

  after_insert-Distinct :
      (value : K) (s : RecentSet K) → IsValid s → Distinct (after_insert value s)
  after_insert-Distinct value s v = elim (Bool-cases (Set.contains value s.order)) [
    | inl known ↦ rw known v.distinct
    | inr new ↦ rw new (drop-Distinct _ _ (append-Distinct value s.order v.distinct new))
  ]

  after_insert-le :
      (value : K) (s : RecentSet K) → IsValid s → length (after_insert value s) ≤ s.capacity
  after_insert-le value s v = elim (Bool-cases (Set.contains value s.order)) [
    | inl known ↦ rw known v.bounded
    | inr new ↦ rw new (length-latest-le s.capacity (s.order ++ value ∷ []))
  ]

  -- An insertion into a valid set ends, answers whether the identifier is new, and leaves a valid
  -- set of the latest identifiers.
  pub insert-latest :
      (value : K) (s : RecentSet K)
      → IsValid s
      → (insert value s ≡ some (holding s.capacity (after_insert value s), not (contains value s)))
        × IsValid (holding s.capacity (after_insert value s))
  unfolding contains
  insert-latest value s v = (
    ground (
      arith,
      ap (insert value) (eq-holding s v.mirrors),
      insert-holding value s.capacity s.order v.distinct,
      ap (Set.contains value) v.mirrors,
    ),
    record {
      mirrors = refl;
      distinct = after_insert-Distinct value s v;
      bounded = after_insert-le value s v;
    },
  )

  -- Taking an identifier out of a valid set leaves a valid set.
  remove-IsValid : (value : K) (s : RecentSet K) → IsValid s → IsValid (remove value s).0
  unfolding remove
  remove-IsValid value s v = elim (Bool-cases (Set.contains value s.values)) [
    | inl known ↦ rw known (record {
      mirrors = ap (Set.remove value) v.mirrors;
      distinct = remove-Distinct value s.order v.distinct;
      bounded = omega (arith, length-remove-le value s.order, v.bounded);
    })
    | inr absent ↦ rw absent v
  ]

  -- `insert` for each of the values in turn, from the left
  unfoldable pub insert_all : List K → RecentSet K → Option (RecentSet K)
  insert_all [] s = some s
  insert_all (x ∷ xs) s = Option.bind (insert x s) (λ r. insert_all xs r.0)

  insert_all-from :
      (n : ℕ) (ys xs : List K)
      → Distinct (ys ++ xs)
      → insert_all xs (holding n (latest n ys)) ≡ some (holding n (latest n (ys ++ xs)))
  unfolding insert_all Option.bind
  insert_all-from n ys [] d = rw append-nil
  insert_all-from n ys (x ∷ xs) d =
      let new : Set.contains x (latest n ys) ≡ false =
        contains-drop x _ ys (not_contains_before x ys xs d) in
      let d' : Distinct ((ys ++ x ∷ []) ++ xs) = rw append_assoc d in
      ground (
        arith,
        insert-holding x n (latest n ys) (drop-Distinct _ _ (Distinct-of_append ys (x ∷ xs) d)),
        new,
        latest-latest-append n ys (x ∷ []),
        insert_all-from n (ys ++ x ∷ []) xs d',
        append_assoc ys (x ∷ []) xs,
      )

  -- Inserting pairwise different identifiers into an empty set leaves the latest of them, as many
  -- as the capacity.
  pub insert_all-latest :
      (n : ℕ) (xs : List K)
      → Distinct xs
      → insert_all xs (empty_set n) ≡ some (holding n (latest n xs))
  unfolding insert_all
  insert_all-latest n xs d =
      ap (λ l. insert_all xs (holding n l)) (sym (latest_short {A = K} n [] (omega arith)))
      ∙ insert_all-from n [] xs d
