-- ===== src/Recent.antt =====
-- bt-daemon/src/translate/recent.rs: the bounded caches of recent identifiers. The eviction loop
-- takes fuel; `none` means that the fuel ran out.
pub mod Window
pub mod Dedup
pub mod Lookup
use mathlib.Core.Option
use braintrust_coding_agent.Prelude.{
  ℕ, zero, suc, Bool, true, false, List, [], ◌∷◌, ◌++◌, Option, none, some, length, ltb, is_some,
  if◌then◌else◌,
}
use braintrust_coding_agent.Collections.{Key}
use braintrust_coding_agent.Collections.Set
use braintrust_coding_agent.Collections.Map

abbrev pub recent_id_capacity : ℕ
recent_id_capacity = 1024

pub record RecentSet (K : Type 0) : Type 0 where
  pub values : List K
  pub order : List K
  pub capacity : ℕ

abbrev pub empty_set : {K : Type 0} → ℕ → RecentSet K
empty_set cap = record { values = []; order = []; capacity = cap }

-- `Default`
abbrev pub default_set : {K : Type 0} → RecentSet K
default_set = empty_set recent_id_capacity

pub record RecentMap (K V : Type 0) : Type 0 where
  pub values : List (K × V)
  pub order : List K
  pub capacity : ℕ

abbrev pub empty_map : {K V : Type 0} → ℕ → RecentMap K V
empty_map cap = record { values = []; order = []; capacity = cap }

module _ {K : Type 0} ⦃key : Key K⦄ where
  -- the body of the `while`; with nothing in `order` it changes nothing
  pop_oldest : List K → RecentSet K → RecentSet K
  pop_oldest [] s = s
  pop_oldest (oldest ∷ rest) s = record s { values = Set.remove oldest s.values; order = rest }

  unfoldable pub evict : ℕ → RecentSet K → Option (RecentSet K)
  unfolding pop_oldest
  evict zero s = none
  evict (suc fuel) s = elim (ltb s.capacity (length s.values)) [
    | false ↦ some s
    | true ↦ evict fuel (pop_oldest s.order s)
  ]

  unfoldable pub contains : K → RecentSet K → Bool
  contains value s = Set.contains value s.values

  unfoldable pub insert : K → RecentSet K → Option (RecentSet K × Bool)
  insert value s =
      if Set.contains value s.values
      then some (s, false)
      else Option.map (λ t. (t, true))
          (evict (suc (suc (length s.values)))
            (record s { values = Set.insert value s.values; order = s.order ++ value ∷ [] }))

  unfoldable pub remove : K → RecentSet K → RecentSet K × Bool
  remove value s =
      if Set.contains value s.values
      then (record s { values = Set.remove value s.values; order = Set.remove value s.order }, true)
      else (s, false)

  unfoldable pub clear : RecentSet K → RecentSet K
  clear s = record s { values = []; order = [] }

module _ {K V : Type 0} ⦃key : Key K⦄ where
  pop_oldest_entry : List K → RecentMap K V → RecentMap K V
  pop_oldest_entry [] m = m
  pop_oldest_entry (oldest ∷ rest) m = record m {
    values = Map.remove oldest m.values;
    order = rest;
  }

  unfoldable pub evict_entries : ℕ → RecentMap K V → Option (RecentMap K V)
  unfolding pop_oldest_entry
  evict_entries zero m = none
  evict_entries (suc fuel) m = elim (ltb m.capacity (length m.values)) [
    | false ↦ some m
    | true ↦ evict_entries fuel (pop_oldest_entry m.order m)
  ]

  unfoldable pub get : K → RecentMap K V → Option V
  get k m = Map.get k m.values

  unfoldable pub insert_entry : K → V → RecentMap K V → Option (RecentMap K V × Option V)
  insert_entry k v m =
      Option.map (λ t. (t, Map.get k m.values))
        (evict_entries (suc (suc (length m.values)))
          (record m { values = Map.insert k v m.values; order = Set.remove k m.order ++ k ∷ [] }))

  unfoldable pub remove_entry : K → RecentMap K V → RecentMap K V × Option V
  remove_entry k m =
      if is_some (Map.get k m.values)
      then (
        record m { values = Map.remove k m.values; order = Set.remove k m.order },
        Map.get k m.values,
      )
      else (m, none)
