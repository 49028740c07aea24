-- ===== src/Ledger/WeakOrigins.antt =====
-- bt-daemon/src/translate/origins.rs: the cache of origins. It owns none, so an entry is lost when
-- the last operation that owns it goes: `alive` tells the spans whose entry has an owner.
use braintrust_coding_agent.Prelude.{
  String, Bool, List, Option, none, if◌then◌else◌, is_some, retain,
}
use braintrust_coding_agent.Collections.{string_key}
use braintrust_coding_agent.Collections.Map
use braintrust_coding_agent.Span.{OriginSnapshot}

abbrev pub WeakOrigins : Type 0
WeakOrigins = List (String × OriginSnapshot)

abbrev upgrade : Bool → Option OriginSnapshot → Option OriginSnapshot
upgrade live origin = if live then origin else none

unfoldable pub get : (String → Bool) → String → WeakOrigins → Option OriginSnapshot × WeakOrigins
get alive span cache =
    let origin = upgrade (alive span) (Map.get span cache) in
    (origin, if is_some origin then cache else Map.remove span cache)

unfoldable pub insert : (String → Bool) → String → OriginSnapshot → WeakOrigins → WeakOrigins
insert alive span origin cache = Map.insert span origin (retain (λ e. alive e.0) cache)

unfoldable pub remove : String → WeakOrigins → WeakOrigins
remove span cache = Map.remove span cache
