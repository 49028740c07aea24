-- ===== src/Ledger/Index.antt =====
-- The operations of bt-daemon/src/delivery_ledger/origins.rs: each is one transaction. The key of a
-- table is unique, and `INSERT OR IGNORE` leaves a row that is there.
use braintrust_coding_agent.Prelude.{
  String, List, [], ◌∷◌, Option, none, some, if◌then◌else◌, retain,
}
use braintrust_coding_agent.Collections.{string_key}
use braintrust_coding_agent.Collections.Set
use braintrust_coding_agent.Collections.Map
use braintrust_coding_agent.Span.{OriginSnapshot}
use braintrust_coding_agent.Ledger.{LedgerFile, OriginIndex}

-- `INSERT OR IGNORE` for each of the identifiers
unfoldable pub add_all : List String → List String → List String
add_all [] table = table
add_all (id ∷ ids) table = add_all ids (Set.insert id table)

unfoldable pub remember_completed : List String → List String → OriginIndex → OriginIndex
remember_completed spans late_merges index = record index {
  spans = add_all spans index.spans;
  late_merges = add_all late_merges index.late_merges;
}

-- the identifiers among those asked for that the table has
unfoldable pub completed : List String → List String → List String
completed asked table = retain (λ id. Set.contains id table) asked

abbrev or_ignore :
    String → OriginSnapshot → List (String × OriginSnapshot) → List (String × OriginSnapshot)
or_ignore span origin table =
    if Map.contains_key span table then table else Map.insert span origin table

unfoldable pub add_origins :
    List (String × OriginSnapshot) → List (String × OriginSnapshot) → List (String × OriginSnapshot)
add_origins [] table = table
add_origins ((span, origin) ∷ origins) table = add_origins origins (or_ignore span origin table)

unfoldable pub remember : List (String × OriginSnapshot) → OriginIndex → OriginIndex
remember origins index = record index { origins = add_origins origins index.origins }

unfoldable pub rebuild : List (String × OriginSnapshot) → OriginIndex → OriginIndex
unfolding remember
rebuild origins index = remember origins (record index { origins = [] })

abbrev found :
    String → Option OriginSnapshot → List (String × OriginSnapshot) → List (String × OriginSnapshot)
found span none origins = origins
found span (some origin) origins = Map.insert span origin origins

unfoldable pub find : List String → OriginIndex → List (String × OriginSnapshot)
find [] index = []
find (span ∷ spans) index = found span (Map.get span index.origins) (find spans index)

unfoldable pub remember_lines : List LedgerFile → OriginIndex → OriginIndex
remember_lines [] index = index
remember_lines (line ∷ lines) index =
    remember_lines lines (remember_completed line.completed_span_ids line.late_merge_ids index)

-- from the checkpoint's identifiers and every complete line
unfoldable pub rebuild_completed :
    List String → List String → List LedgerFile → OriginIndex → OriginIndex
unfolding remember_lines remember_completed
rebuild_completed spans late_merges journal index =
    remember_lines journal
      (remember_completed spans late_merges (record index { spans = []; late_merges = [] }))
