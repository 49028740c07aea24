-- ===== src/Collections/Set.antt =====
-- A hash set, as the list of its members.
use braintrust_coding_agent.Prelude.{
  ℕ, zero, suc, ◌≤◌, length, drop, ◌≡◌, refl, Bool, false, true, ◌&&◌, ◌||◌, not, List, [], ◌∷◌,
  ◌++◌, arith, if◌then◌else◌,
}
use braintrust_coding_agent.Collections.Keys.{Key, same}

module _ {ℓ} {K : Type ℓ} ⦃key : Key K⦄ where
  unfoldable pub contains : K → List K → Bool
  contains k [] = false
  contains k (x ∷ xs) = same x k || contains k xs

  -- `insert` of a member that is there changes nothing.
  unfoldable pub insert : K → List K → List K
  insert k s = if contains k s then s else s ++ k ∷ []

  unfoldable pub remove : K → List K → List K
  remove k [] = []
  remove k (x ∷ xs) = let rest = remove k xs in if same x k then rest else x ∷ rest

  pub contains-append :
      (k : K) (xs ys : List K) → contains k (xs ++ ys) ≡ (contains k xs || contains k ys)
  unfolding contains
  contains-append k [] ys = refl
  contains-append k (x ∷ xs) ys = ground (arith, contains-append k xs ys)

  pub contains-insert :
      (j k : K) (s : List K) → contains j (insert k s) ≡ (same k j || contains j s)
  unfolding insert contains
  contains-insert j k s = ground (arith, contains-append j s (k ∷ []))

  pub insert_member : (k : K) (s : List K) → contains k s ≡ true → insert k s ≡ s
  unfolding insert
  insert_member k s h = rw h refl

  pub contains-remove :
      (j k : K) (s : List K) → contains j (remove k s) ≡ (not (same k j) && contains j s)
  unfolding remove contains
  contains-remove j k [] = ground arith
  contains-remove j k (x ∷ xs) = ground (arith, contains-remove j k xs)

  -- No member twice.
  abbrev pub Distinct : List K → Type ℓ
  Distinct [] = Unit
  Distinct (x ∷ xs) = (contains x xs ≡ false) × Distinct xs

  pub remove_absent : (k : K) (s : List K) → contains k s ≡ false → remove k s ≡ s
  unfolding contains remove
  remove_absent k [] h = refl
  remove_absent k (x ∷ xs) h = ground (arith, remove_absent k xs)

  pub remove-Distinct : (k : K) (s : List K) → Distinct s → Distinct (remove k s)
  unfolding remove
  remove-Distinct k [] h = h
  remove-Distinct k (x ∷ xs) h = ground (arith, remove-Distinct k xs h.1, contains-remove x k xs)

  pub append-Distinct :
      (k : K) (s : List K) → Distinct s → contains k s ≡ false → Distinct (s ++ k ∷ [])
  unfolding contains
  append-Distinct k [] d h = (refl, tt)
  append-Distinct k (x ∷ xs) d h =
      ground (arith, append-Distinct k xs d.1, contains-append x xs (k ∷ []))

  pub drop-Distinct : (n : ℕ) (s : List K) → Distinct s → Distinct (drop n s)
  drop-Distinct zero s h = h
  drop-Distinct (suc n) [] h = h
  drop-Distinct (suc n) (x ∷ xs) h = drop-Distinct n xs h.1

  pub length-remove-le : (k : K) (s : List K) → length (remove k s) ≤ length s
  unfolding remove
  length-remove-le k [] = omega arith
  length-remove-le k (x ∷ xs) = ground (arith, length-remove-le k xs)

  pub contains-drop :
      (k : K) (n : ℕ) (s : List K) → contains k s ≡ false → contains k (drop n s) ≡ false
  unfolding contains
  contains-drop k zero s h = h
  contains-drop k (suc n) [] h = refl
  contains-drop k (suc n) (x ∷ xs) h = contains-drop k n xs (ground arith)

  -- What stands behind a list with no member twice is not in it.
  pub not_contains_before :
      (k : K) (xs ys : List K) → Distinct (xs ++ k ∷ ys) → contains k xs ≡ false
  unfolding contains
  not_contains_before k [] ys d = refl
  not_contains_before k (x ∷ xs) ys d =
      ground (arith, not_contains_before k xs ys d.1, contains-append x xs (k ∷ ys))

  pub Distinct-of_append : (xs ys : List K) → Distinct (xs ++ ys) → Distinct xs
  Distinct-of_append [] ys d = tt
  Distinct-of_append (x ∷ xs) ys d =
      (ground (arith, contains-append x xs ys, d.0), Distinct-of_append xs ys d.1)
