-- ===== src/Ledger/Versions.antt =====
-- The watermark of a span that is merged late: the latest version that was delivered.
use braintrust_coding_agent.Prelude.{
  String, Bool, true, false, ◌||◌, List, [], ◌∷◌, Option, none, some, if◌then◌else◌, leb_ℤ,
}
use braintrust_coding_agent.Collections.{string_key, same}
use braintrust_coding_agent.Collections.Map
use braintrust_coding_agent.Span.{LateMergeVersion}

-- `next.native_id.is_some() && next.native_id == previous.native_id`
abbrev pub same_native : Option String → Option String → Bool
same_native (some i) (some j) = same i j
same_native _ _ = false

-- is `next` not older than `previous`
abbrev pub is_later : LateMergeVersion → LateMergeVersion → Bool
is_later previous next = leb_ℤ previous.ts_ms next.ts_ms

unfoldable pub version_allowed : Option LateMergeVersion → LateMergeVersion → Bool
version_allowed none next = true
version_allowed (some previous) next =
    is_later previous next || same_native next.native_id previous.native_id

abbrev pub is_news : Option LateMergeVersion → LateMergeVersion → Bool
is_news none next = true
is_news (some previous) next = is_later previous next

unfoldable pub remember_version :
    List (String × LateMergeVersion) → String → LateMergeVersion → List (String × LateMergeVersion)
remember_version versions span next =
    if is_news (Map.get span versions) next then Map.insert span next versions else versions

unfoldable pub remember_versions :
    List (String × LateMergeVersion)
    → List (String × LateMergeVersion)
    → List (String × LateMergeVersion)
remember_versions versions [] = versions
remember_versions versions ((span, next) ∷ rest) =
    remember_versions (remember_version versions span next) rest
