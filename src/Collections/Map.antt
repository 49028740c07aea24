-- ===== src/Collections/Map.antt =====
-- A hash map, as the list of its entries, the latest insertion last.
use mathlib.Core.List.{map-append}
use braintrust_coding_agent.Prelude.{
  ◌≡◌, refl, Bool, List, [], ◌∷◌, ◌++◌, Option, none, some, arith, if◌then◌else◌, is_some, ℕ, zero,
  suc, true, false, drop, map, ◌∙◌, ap, length, length-append, ◌≤◌,
}
use braintrust_coding_agent.Collections.Keys.{Key, same}
use braintrust_coding_agent.Collections.Set
use braintrust_coding_agent.Collections.Set.{
  Distinct, append-Distinct, contains-remove, contains-drop,
}

abbrev pub keys {ℓ κ} : {K : Type ℓ} {V : Type κ} → List (K × V) → List K
keys m = map (λ e. e.0) m

pub length-keys {ℓ κ} : {K : Type ℓ} {V : Type κ} (m : List (K × V)) → length (keys m) ≡ length m
length-keys [] = refl
length-keys (e ∷ m) = ap suc (length-keys m)

module _ {ℓ κ} {K : Type ℓ} {V : Type κ} ⦃key : Key K⦄ where
  unfoldable pub get : K → List (K × V) → Option V
  get k [] = none
  get k ((j, v) ∷ m) = if same j k then some v else get k m

  unfoldable pub remove : K → List (K × V) → List (K × V)
  remove k [] = []
  remove k ((j, v) ∷ m) = let rest = remove k m in if same j k then rest else (j, v) ∷ rest

  unfoldable pub insert : K → V → List (K × V) → List (K × V)
  insert k v m = remove k m ++ (k, v) ∷ []

  abbrev pub contains_key : K → List (K × V) → Bool
  contains_key k m = is_some (get k m)

  pub get-append :
      (j : K) (m n : List (K × V))
      → get j (m ++ n) ≡ (if is_some (get j m) then get j m else get j n)
  unfolding get
  get-append j [] n = refl
  get-append j ((i, w) ∷ m) n = ground (arith, get-append j m n)

  pub get-remove :
      (j k : K) (m : List (K × V)) → get j (remove k m) ≡ (if same k j then none else get j m)
  unfolding get remove
  get-remove j k [] = ground arith
  get-remove j k ((i, w) ∷ m) = ground (arith, get-remove j k m)

  pub get-insert :
      (j k : K) (v : V) (m : List (K × V))
      → get j (insert k v m) ≡ (if same k j then some v else get j m)
  unfolding get insert
  get-insert j k v m = rw (get-append, get-remove) (ground arith)

  pub remove_absent : (k : K) (m : List (K × V)) → Set.contains k (keys m) ≡ false → remove k m ≡ m
  unfolding remove Set.contains
  remove_absent k [] h = refl
  remove_absent k ((j, v) ∷ m) h = ground (arith, remove_absent k m)

  pub keys-remove : (k : K) (m : List (K × V)) → keys (remove k m) ≡ Set.remove k (keys m)
  unfolding remove Set.remove
  keys-remove k [] = refl
  keys-remove k ((j, v) ∷ m) = ground (arith, keys-remove k m)

  pub keys-drop : (n : ℕ) (m : List (K × V)) → keys (drop n m) ≡ drop n (keys m)
  keys-drop zero m = refl
  keys-drop (suc n) [] = refl
  keys-drop (suc n) (e ∷ m) = keys-drop n m

  pub keys-insert :
      (k : K) (v : V) (m : List (K × V)) → keys (insert k v m) ≡ Set.remove k (keys m) ++ k ∷ []
  unfolding insert
  keys-insert k v m =
      map-append (λ (e : K × V). e.0) (remove k m) ((k, v) ∷ [])
      ∙ ap (λ l. l ++ k ∷ []) (keys-remove k m)

  pub insert-Distinct :
      (k : K) (v : V) (m : List (K × V)) → Distinct (keys m) → Distinct (keys (insert k v m))
  insert-Distinct k v m d = rw keys-insert (
      append-Distinct k _ (Set.remove-Distinct k (keys m) d)
        (contains-remove k k (keys m) ∙ (ground arith)))

  pub remove-Distinct :
      (k : K) (m : List (K × V)) → Distinct (keys m) → Distinct (keys (remove k m))
  remove-Distinct k m d = rw keys-remove (Set.remove-Distinct k (keys m) d)

  pub get_absent : (k : K) (m : List (K × V)) → Set.contains k (keys m) ≡ false → get k m ≡ none
  unfolding get Set.contains
  get_absent k [] h = refl
  get_absent k ((j, v) ∷ m) h = ground (arith, get_absent k m)

  -- Dropping the oldest entries changes the value of no key that stays.
  pub get-drop :
      (k : K) (n : ℕ) (m : List (K × V))
      → Distinct (keys m)
      → Set.contains k (keys (drop n m)) ≡ true
      → get k (drop n m) ≡ get k m
  unfolding get Set.contains
  get-drop k zero m d h = refl
  get-drop k (suc n) [] d h = refl
  get-drop k (suc n) ((j, v) ∷ m) d h =
      ground (arith, get-drop k n m d.1 h, keys-drop n m, contains-drop k n (keys m), d.0)

  pub length-remove-le : (k : K) (m : List (K × V)) → length (remove k m) ≤ length m
  unfolding remove
  length-remove-le k [] = omega arith
  length-remove-le k ((j, v) ∷ m) = ground (arith, length-remove-le k m)

  pub length-insert-le : (k : K) (v : V) (m : List (K × V)) → length (insert k v m) ≤ suc (length m)
  unfolding insert
  length-insert-le k v m =
      omega (arith, length-append (remove k m) ((k, v) ∷ []), length-remove-le k m)
