-- ===== src/Recent/Lookup.antt =====
-- The map of recent entries: which entries stay, and what a lookup returns.
use braintrust_coding_agent.Prelude.{
  ℕ, zero, suc, ◌-◌, ◌≤◌, ◌<◌, ◌≡◌, refl, sym, ap, ◌∙◌, false, List, [], ◌∷◌, ◌++◌, none, some,
  length, drop, arith, inl, inr, Bool-cases, if◌then◌else◌,
}
use braintrust_coding_agent.Collections.{Key, same}
use braintrust_coding_agent.Collections.Set
use braintrust_coding_agent.Collections.Set.{Distinct, drop-Distinct}
use braintrust_coding_agent.Collections.Map
use braintrust_coding_agent.Collections.Map.{
  keys, length-keys, keys-drop, keys-insert, insert-Distinct, get-drop, get_absent, get-insert,
  length-insert-le,
}
use braintrust_coding_agent.Recent.{RecentMap, evict_entries, insert_entry, get}
use braintrust_coding_agent.Recent.Window.{latest, latest_short, latest_long, length-latest-le}

pub record IsValidMap {K V : Type 0} ⦃key : Key K⦄ (m : RecentMap K V) : Type 0 where
  pub mirrors : keys m.values ≡ m.order
  pub distinct : Distinct (keys m.values)
  pub bounded : length m.values ≤ m.capacity

abbrev pub mapping : {K V : Type 0} → ℕ → List (K × V) → RecentMap K V
mapping n es = record { values = es; order = keys es; capacity = n }

module _ {K V : Type 0} ⦃key : Key K⦄ where
  remove_first :
      (k : K) (v : V) (m : List (K × V))
      → Set.contains k (keys m) ≡ false
      → Map.remove k ((k, v) ∷ m) ≡ m
  unfolding Map.remove
  remove_first k v m h = ground (arith, Map.remove_absent k m)

  evict_entries-latest :
      (fuel n : ℕ) (m : List (K × V))
      → length m < fuel
      → Distinct (keys m)
      → evict_entries fuel (mapping n m) ≡ some (mapping n (latest n m))
  unfolding evict_entries
  evict_entries-latest zero n m h d = absurd (omega arith)
  evict_entries-latest (suc fuel) n [] h d = ground (arith, latest_short {A = K × V} n [])
  evict_entries-latest (suc fuel) n ((k, v) ∷ m) h d = ground (
    arith,
    evict_entries-latest fuel n m,
    remove_first k v m,
    latest_long n (k, v) m,
    latest_short n ((k, v) ∷ m),
  )

  keys-latest : (n : ℕ) (m : List (K × V)) → keys (latest n m) ≡ latest n (keys m)
  keys-latest n m = keys-drop _ m ∙ ap (λ l. drop (l - n) (keys m)) (sym (length-keys m))

  -- the entries that an insertion leaves
  abbrev pub after_insert : K → V → RecentMap K V → List (K × V)
  after_insert k v m = latest m.capacity (Map.insert k v m.values)

  insert_entry-mapping :
      (k : K) (v : V) (n : ℕ) (m : List (K × V))
      → Distinct (keys m)
      → insert_entry k v (mapping n m) ≡ some (mapping n (latest n (Map.insert k v m)), Map.get k m)
  unfolding insert_entry
  insert_entry-mapping k v n m d = ground (
    arith,
    evict_entries-latest (suc (suc (length m))) n (Map.insert k v m),
    keys-insert k v m,
    insert-Distinct k v m d,
    length-insert-le k v m,
  )

  eq-mapping : (m : RecentMap K V) → keys m.values ≡ m.order → m ≡ mapping m.capacity m.values
  eq-mapping m e = λ i. record { values = m.values; order = sym e i; capacity = m.capacity }

  -- An insertion into a valid map ends, returns the key's previous value, and leaves a valid map.
  pub insert_entry-latest :
      (k : K) (v : V) (m : RecentMap K V)
      → IsValidMap m
      → (insert_entry k v m ≡ some (mapping m.capacity (after_insert k v m), get k m))
        × IsValidMap (mapping m.capacity (after_insert k v m))
  unfolding get
  insert_entry-latest k v m h = (
    ap (insert_entry k v) (eq-mapping m h.mirrors)
        ∙ insert_entry-mapping k v m.capacity m.values h.distinct,
    record {
      mirrors = refl;
      distinct = rw keys-drop (drop-Distinct _ _ (insert-Distinct k v m.values h.distinct));
      bounded = length-latest-le m.capacity (Map.insert k v m.values);
    },
  )

  -- After an insertion into a valid map a lookup finds the new value at the key, the old values at
  -- the other keys still queued, and nothing at an evicted key.
  get-after_insert :
      (j k : K) (v : V) (m : RecentMap K V)
      → IsValidMap m
      → get j (mapping m.capacity (after_insert k v m)) ≡ (
          if Set.contains j (keys (after_insert k v m))
          then if same k j then some v else get j m
          else none)
  unfolding get
  get-after_insert j k v m h = elim (Bool-cases (Set.contains j (keys (after_insert k v m)))) [
    | inl kept ↦ rw kept (
        get-drop j _ (Map.insert k v m.values) (insert-Distinct k v m.values h.distinct) kept
        ∙ get-insert j k v m.values)
    | inr gone ↦ rw gone (get_absent j (after_insert k v m) gone)
  ]

  -- After an insertion into a valid map the queue is the old one with the key moved to the back,
  -- cut to the capacity from the front.
  keys-after_insert :
      (k : K) (v : V) (m : RecentMap K V)
      → IsValidMap m
      → keys (after_insert k v m) ≡ latest m.capacity (Set.remove k m.order ++ k ∷ [])
  keys-after_insert k v m h =
      keys-latest m.capacity (Map.insert k v m.values)
      ∙ ap (latest m.capacity)
          (keys-insert k v m.values ∙ ap (λ l. Set.remove k l ++ k ∷ []) h.mirrors)
