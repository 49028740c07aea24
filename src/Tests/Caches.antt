-- ===== src/Tests/Caches.antt =====
-- The bounded caches and the buffer of captured events.
use braintrust_coding_agent.Prelude.{
  ℕ, String, ◌≡◌, ◌<◌, refl, not, inl, List, [], ◌∷◌, ◌++◌, none, some, arith, drop,
}
use braintrust_coding_agent.Collections.{string_key, string_dec}
use braintrust_coding_agent.Collections.Set
use braintrust_coding_agent.Collections.Map
use braintrust_coding_agent.Recent
use braintrust_coding_agent.Recent.{RecentSet, RecentMap, empty_set}
use braintrust_coding_agent.Recent.Dedup
use braintrust_coding_agent.Recent.Lookup
use braintrust_coding_agent.Recent.Window.{latest}
use braintrust_coding_agent.SourceInput
use braintrust_coding_agent.SourceInput.{SourceRecord, Buffer, SourceEvent}
use braintrust_coding_agent.SourceInput.Budget
use braintrust_coding_agent.SourceInput.Order

recent_program : Unit {0}
unfolding Recent.evict Recent.insert Recent.remove Recent.evict_entries Recent.insert_entry
    Recent.get Set.contains Set.insert Set.remove Map.get Map.insert Map.remove string_dec
recent_program = tt

abbrev three : List String
three = "a" ∷ "b" ∷ "c" ∷ []

-- the unit test of the program: with room for two, the third entry evicts the first
abbrev two_of_three : RecentSet String
two_of_three = record { values = "b" ∷ "c" ∷ []; order = "b" ∷ "c" ∷ []; capacity = 2 }

recent_set_evicts : Dedup.insert_all three (empty_set 2) ≡ some two_of_three
unfolding recent_program Dedup.insert_all mathlib.Core.Option.bind
recent_set_evicts = refl

two_of_three-IsValid : Dedup.IsValid two_of_three
unfolding recent_program
two_of_three-IsValid = record {
  mirrors = refl;
  distinct = (refl, (refl, tt));
  bounded = omega arith;
}

insert-latest_example :
    (Recent.insert "d" two_of_three
      ≡ some (
        Dedup.holding 2 (Dedup.after_insert "d" two_of_three),
        not (Recent.contains "d" two_of_three),
      ))
    × Dedup.IsValid (Dedup.holding 2 (Dedup.after_insert "d" two_of_three))
insert-latest_example = Dedup.insert-latest "d" two_of_three two_of_three-IsValid

three-Distinct : Set.Distinct three
unfolding recent_program
three-Distinct = (refl, (refl, (refl, tt)))

insert_all-latest_example :
    Dedup.insert_all three (empty_set 2) ≡ some (Dedup.holding 2 (latest 2 three))
insert_all-latest_example = Dedup.insert_all-latest 2 three three-Distinct

abbrev two_entries : RecentMap String ℕ
two_entries = record { values = ("a", 1) ∷ ("b", 2) ∷ []; order = "a" ∷ "b" ∷ []; capacity = 2 }

two_entries-IsValid : Lookup.IsValidMap two_entries
unfolding recent_program
two_entries-IsValid = record {
  mirrors = refl;
  distinct = (refl, (refl, tt));
  bounded = omega arith;
}

-- an update moves the key to the back, so the other key is evicted next
recent_map_evicts :
    Recent.insert_entry "c" 3
      (record two_entries { values = ("b", 2) ∷ ("a", 5) ∷ []; order = "b" ∷ "a" ∷ [] })
    ≡ some (record two_entries { values = ("a", 5) ∷ ("c", 3) ∷ []; order = "a" ∷ "c" ∷ [] }, none)
unfolding recent_program
recent_map_evicts = refl

insert_entry-latest_example :
    (Recent.insert_entry "a" 5 two_entries
      ≡ some (Lookup.mapping 2 (Lookup.after_insert "a" 5 two_entries), Recent.get "a" two_entries))
    × Lookup.IsValidMap (Lookup.mapping 2 (Lookup.after_insert "a" 5 two_entries))
insert_entry-latest_example = Lookup.insert_entry-latest "a" 5 two_entries two_entries-IsValid

-- a record of the journal bytes from `before` to `through`
abbrev bytes_at : ℕ → ℕ → SourceRecord String String
bytes_at before through = record {
  content = SourceEvent.event "hook";
  position = record { before = before; through = through };
}

abbrev two_records : List (SourceRecord String String)
two_records = bytes_at 10 30 ∷ bytes_at 30 35 ∷ []

abbrev buffered : Buffer String String
buffered = record { records = two_records; total = 25 }

buffered-IsValid : Budget.IsValid buffered
buffered-IsValid = record {
  counted = refl;
  few = omega arith;
  small = inl (omega arith);
  positions = omega arith;
  counted_fits = omega arith;
}

push-IsValid_example : Budget.IsValid (SourceInput.push (bytes_at 35 9000000) buffered)
push-IsValid_example =
    Budget.push-IsValid (bytes_at 35 9000000) buffered (omega arith) buffered-IsValid

take-IsValid_example : Budget.IsValid (SourceInput.take 30 40 buffered).1
take-IsValid_example = Budget.take-IsValid 30 40 buffered buffered-IsValid

-- an event above the byte budget evicts all others and travels alone
oversized_alone :
    (SourceInput.push (bytes_at 35 9000000) buffered).records ≡ bytes_at 35 9000000 ∷ []
unfolding SourceInput.push SourceInput.make_room
oversized_alone = refl

push-least_example :
    (n : ℕ) × ((SourceInput.push (bytes_at 35 40) buffered).records
      ≡ drop n two_records ++ bytes_at 35 40 ∷ [])
    × ((m : ℕ) → m < n → Order.IsFull 5 (drop m two_records))
    × (¬ Order.IsFull 5 (drop n two_records))
push-least_example = Order.push-least (bytes_at 35 40) buffered buffered-IsValid

-- the record that recovery consumed is skipped
drain-append_example :
    Order.drain 2 10 35 (record { records = bytes_at 0 10 ∷ two_records; total = 35 }) ≡ two_records
drain-append_example =
    Order.drain-append 2 10 35 (bytes_at 0 10 ∷ []) two_records 35 (omega arith) (omega arith)
      (omega arith) (omega arith)
