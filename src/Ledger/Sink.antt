-- ===== src/Ledger/Sink.antt =====
-- `LedgerSink`: the sink of a route behind the ledger of its destination.
use braintrust_coding_agent.Prelude.{
  String, Bool, true, false, not, ◌&&◌, List, [], ◌∷◌, Option, none, some, if◌then◌else◌, or_else,
  unwrap_or,
}
use braintrust_coding_agent.Collections.{string_key, same}
use braintrust_coding_agent.Collections.Set
use braintrust_coding_agent.Collections.Map
use braintrust_coding_agent.Collections.Map.{keys}
use braintrust_coding_agent.Span.{
  OriginSnapshot, LateMergeVersion, SpanOp, row_of, with_row, is_insert, span_id_of,
}
use braintrust_coding_agent.Wire.{SessionConfig, attached_span_ids}
use braintrust_coding_agent.Ledger.{DeliveryLedger}
use braintrust_coding_agent.Ledger.Versions.{version_allowed, remember_version}
use braintrust_coding_agent.Ledger.WeakOrigins
use braintrust_coding_agent.Ledger.WeakOrigins.{WeakOrigins}
use braintrust_coding_agent.Ledger.Journal.{Origins, View}
use braintrust_coding_agent.Ledger.Delivered.{late_merge_id, should_emit}

pub record LedgerSink (S : Type 0) : Type 0 where
  pub inner : S
  pub ledger : Option DeliveryLedger
  pub span_origins : WeakOrigins
  pub pending_origins : Origins
  pub plugin_version : Option String
  pub source_version : Option String
  pub bt_version : String
  pub attached_parent : Option String

abbrev is_named : Option String → String → Bool
is_named none span = false
is_named (some p) span = same p span

abbrev pub is_current : List (String × LateMergeVersion) → String → Option LateMergeVersion → Bool
is_current versions span none = true
is_current versions span (some version) = version_allowed (Map.get span versions) version

abbrev pub advance :
    String
    → Option LateMergeVersion
    → List (String × LateMergeVersion)
    → List (String × LateMergeVersion)
advance span none versions = versions
advance span (some version) versions = remember_version versions span version

abbrev waits : Option DeliveryLedger → String → OriginSnapshot → Origins → Origins
waits none span origin pending = pending
waits (some l) span origin pending = Map.insert span origin pending

-- a saved origin is used, and waits no more
unfoldable pub settle_saved : Origins → Origins × Origins → Origins × Origins
settle_saved [] found = found
settle_saved ((span, origin) ∷ saved) (origins, pending) =
    settle_saved saved (Map.insert span origin origins, Map.remove span pending)

-- The maps at the end of `emit_shared`'s preparation: the origins, those that wait, and the cache.
pub record Births : Type 0 where
  pub origins : Origins
  pub pending : Origins
  pub cache : WeakOrigins

-- no origin is made up for a span that is known to be delivered
unfoldable pub forget_known : List String → Origins → Births → Births
forget_known known [] b = b
forget_known known ((span, origin) ∷ waiting) b = forget_known known waiting (
    if Set.contains span known
    then record {
      origins = Map.remove span b.origins;
      pending = Map.remove span b.pending;
      cache = WeakOrigins.remove span b.cache;
    }
    else b)

module _ {V : Type 0} where
  -- the origins that the cache has for the operations
  unfoldable pub cached :
      (String → Bool) → List (SpanOp V) → WeakOrigins → Origins → Origins × WeakOrigins
  cached alive [] cache origins = (origins, cache)
  cached alive (op ∷ ops) cache origins =
      let (hit, cache') = WeakOrigins.get alive (span_id_of op) cache in
      cached alive ops cache'
        (elim hit [ none ↦ origins | some origin ↦ Map.insert (span_id_of op) origin origins ])

  abbrev pub keys_of : List (SpanOp V) → List String
  keys_of [] = []
  keys_of (op ∷ ops) = elim (row_of op).late_merge_key [
    | none ↦ keys_of ops
    | some key ↦ late_merge_id (row_of op).span_id key ∷ keys_of ops
  ]

  -- `known` and `merges` are what the index has of the identifiers that were asked for
  unfoldable pub passes :
      DeliveryLedger
      → List String
      → List String
      → List (String × LateMergeVersion)
      → SpanOp V
      → Bool
  passes l known merges versions op =
      should_emit l op known merges
      && is_current versions (span_id_of op) (row_of op).late_merge_version

  -- the loop of `retain`, which carries the latest versions
  unfoldable pub filtered :
      DeliveryLedger
      → List String
      → List String
      → List (String × LateMergeVersion)
      → List (SpanOp V)
      → List (SpanOp V)
  filtered l known merges versions [] = []
  filtered l known merges versions (op ∷ ops) =
      let dropped = filtered l known merges versions ops in
      let kept =
        op
        ∷ filtered l known merges (advance (span_id_of op) (row_of op).late_merge_version versions)
            ops in
      if passes l known merges versions op then kept else dropped

  abbrev pub stamped : Origins → SpanOp V → SpanOp V
  stamped origins op = with_row op (record (row_of op) { origin = Map.get (span_id_of op) origins })

  -- the cache after the rows that go out
  unfoldable pub remember_origins : (String → Bool) → List (SpanOp V) → WeakOrigins → WeakOrigins
  remember_origins alive [] cache = cache
  remember_origins alive (op ∷ ops) cache = remember_origins alive ops (elim (row_of op).origin [
    | none ↦ cache
    | some origin ↦ WeakOrigins.insert alive (span_id_of op) origin cache
  ])

abbrev ledger_of : Option View → Option DeliveryLedger
ledger_of none = none
ledger_of (some v) = some v.ledger

module _ {V O T : Type 0} where
  abbrev parent_of : Option (SessionConfig V O T) → Option String
  parent_of none = none
  parent_of (some config) = (attached_span_ids config).0

module _ {V O T S : Type 0} where
  -- `loaded` is what `DeliveryLedger::load` returned, where there is a ledger
  unfoldable pub new : S → Option (SessionConfig V O T) → Option View → String → LedgerSink S
  new inner config loaded bt_version = record {
    inner = inner;
    ledger = ledger_of loaded;
    span_origins = [];
    pending_origins = [];
    plugin_version = none;
    source_version = none;
    bt_version = bt_version;
    attached_parent = parent_of config;
  }

  unfoldable pub configure :
      (SessionConfig V O T → S → S) → SessionConfig V O T → LedgerSink S → LedgerSink S
  configure inner config s = record s {
    inner = inner config s.inner;
    attached_parent = parent_of (some config);
  }

module _ {S : Type 0} where
  -- the comparisons of the code only save a copy
  unfoldable pub set_capture_versions : Option String → Option String → LedgerSink S → LedgerSink S
  set_capture_versions plugin source s = record s {
    plugin_version = plugin;
    source_version = source;
  }

  abbrev own_origin : LedgerSink S → OriginSnapshot
  own_origin s = record {
    plugin_version = s.plugin_version;
    bt_version = s.bt_version;
    source_version = s.source_version;
  }

module _ {S V : Type 0} where
  abbrev birth : LedgerSink S → SpanOp V → OriginSnapshot
  birth s op =
      unwrap_or (or_else (Map.get (span_id_of op) s.pending_origins) (row_of op).origin)
        (own_origin s)

  -- a span that is created gets an origin, unless it is the external parent
  unfoldable pub born : SpanOp V → LedgerSink S → Origins → Origins × LedgerSink S
  born op s origins =
      let span = span_id_of op in
      if is_insert op
        && not (is_named s.attached_parent span)
        && not (Map.contains_key span origins)
      then (
        Map.insert span (birth s op) origins,
        record s { pending_origins = waits s.ledger span (birth s op) s.pending_origins },
      )
      else (origins, s)

  unfoldable pub births : List (SpanOp V) → LedgerSink S → Origins → Origins × LedgerSink S
  births [] s origins = (origins, s)
  births (op ∷ ops) s origins = let (origins', s') = born op s origins in births ops s' origins'
