-- ===== src/Processor.antt =====
-- bt-daemon/src/span_processor.rs: the chain of span plugins of a route. Each worker has one engine,
-- `slot`. What a script does is a parameter: `call` stands for `Engine::call`, which runs QuickJS.
pub mod Identity
use braintrust_coding_agent.Prelude.{
  String, Bool, true, false, not, ◌&&◌, ◌||◌, List, [], ◌∷◌, map, Option, none, some, if◌then◌else◌,
  is_some,
}
use braintrust_coding_agent.Collections.{Key, string_key, same}
use braintrust_coding_agent.Collections.Map
use braintrust_coding_agent.Span.{SpanRow, SpanOp, row_of, with_row, is_insert}
use braintrust_coding_agent.Translator.{Result, ok, err, map_ok}

abbrev pub same_all {ℓ} : {K : Type ℓ} ⦃k : Key K⦄ → List K → List K → Bool
same_all [] [] = true
same_all (x ∷ xs) (y ∷ ys) = same x y && same_all xs ys
same_all _ _ = false

pub record FailedPlugin (D : Type 0) : Type 0 where
  pub fingerprint : Option D
  pub message : String
  pub timed_out : Bool

-- the fields of `Engine` that the chain reads: a compiled module is its fingerprint
pub record Engine (D : Type 0) : Type 0 where
  pub modules : List (String × D)
  pub failed_plugins : List (String × FailedPlugin D)
  pub last_fingerprint : Option D

abbrev empty_engine : {D : Type 0} → Engine D
empty_engine = record { modules = []; failed_plugins = []; last_fingerprint = none }

pub record PluginFailure : Type 0 where
  pub path : String
  pub message : String
  pub timed_out : Bool
  pub newly_seen : Bool

pub record ProcessResult (V : Type 0) : Type 0 where
  pub op : Option (SpanOp V)
  pub failure : Option PluginFailure

-- the text of an error of `Engine::call`, and whether it is a `PluginTimeout`
pub record CallError : Type 0 where
  pub message : String
  pub timed_out : Bool

-- what lies outside: the digests of files, whether QuickJS starts, and what a script makes of a row
pub record Scripts (D V : Type 0) : Type 0 where
  pub file_digest : String → Option D
  pub runtime : Result String (Unit {0})
  pub call : String → SpanRow V → Bool → Engine D → Result CallError (SpanRow V) × Engine D

module _ {V : Type 0} where
  abbrev pub same_identity : SpanRow V → SpanRow V → Bool
  same_identity candidate original =
      same candidate.span_id original.span_id
      && same candidate.root_span_id original.root_span_id
      && same_all candidate.parent_span_ids original.parent_span_ids

  -- what belongs to the translator
  abbrev pub retained : SpanRow V → SpanRow V → SpanRow V
  retained row candidate = record candidate {
    is_turn = row.is_turn;
    origin = row.origin;
    turn_span_id = row.turn_span_id;
    late_merge_key = row.late_merge_key;
    late_merge_version = row.late_merge_version;
  }

module _ {D : Type 0} where
  abbrev pub forget : String → Engine D → Engine D
  forget path e = record e { failed_plugins = Map.remove path e.failed_plugins }

  abbrev pub failing : String → String → Bool → Engine D → Engine D
  failing path message timed_out e = record e {
    failed_plugins =
        Map.insert path
          (record { fingerprint = e.last_fingerprint; message = message; timed_out = timed_out })
          e.failed_plugins;
  }

  -- a failure that is kept, where the caller uses those and it is no timeout
  abbrev pub lasting : Bool → Option (FailedPlugin D) → Option (FailedPlugin D)
  lasting use_failed_cache none = none
  lasting use_failed_cache (some failed) =
      if use_failed_cache && not failed.timed_out then some failed else none

abbrev fresh_failure : String → String → Bool → PluginFailure
fresh_failure path message timed_out = record {
  path = path;
  message = message;
  timed_out = timed_out;
  newly_seen = true;
}

module _ {D V : Type 0} where
  unfoldable pub judge :
      String
      → SpanRow V
      → SpanRow V
      → Result CallError (SpanRow V) × Engine D
      → Result PluginFailure (SpanRow V) × Engine D
  judge path original row (ok candidate, e) =
      if same_identity candidate original then (ok (retained row candidate), e) else (
        err (fresh_failure path "changed immutable span identity fields" false),
        failing path "changed immutable span identity fields" false e,
      )
  judge path original row (err error, e) = (
    err (fresh_failure path error.message error.timed_out),
    failing path error.message error.timed_out e,
  )

  abbrev finished :
      SpanOp V → Result PluginFailure (SpanRow V) × Engine D → ProcessResult V × Engine D
  finished op (ok row, e) = (record { op = some (with_row op row); failure = none }, e)
  finished op (err failure, e) = (record { op = none; failure = some failure }, e)

module _ {D V : Type 0} (scripts : Scripts D V) ⦃key : Key (Option D)⦄ where
  -- one round of the loop over the plugins
  unfoldable pub turn :
      Bool
      → String
      → SpanRow V
      → Bool
      → SpanRow V
      → Engine D
      → Result PluginFailure (SpanRow V) × Engine D
  turn use_failed_cache path original inserts row e =
      elim (lasting use_failed_cache (Map.get path e.failed_plugins)) [
        | none ↦ judge path original row (scripts.call path row inserts e)
        | some failed ↦
            if same failed.fingerprint (scripts.file_digest path)
            then (
              err (record {
                path = path;
                message = failed.message;
                timed_out = failed.timed_out;
                newly_seen = false;
              }),
              e,
            )
            else judge path original row (scripts.call path row inserts (forget path e))
      ]

  unfoldable pub chain :
      Bool
      → List String
      → SpanRow V
      → Bool
      → SpanRow V
      → Engine D
      → Result PluginFailure (SpanRow V) × Engine D
  chain use_failed_cache [] original inserts row e = (ok row, e)
  chain use_failed_cache (path ∷ paths) original inserts row e =
      let (result, e') = turn use_failed_cache path original inserts row e in
      elim result [
        | err failure ↦ (err failure, e')
        | ok row' ↦ chain use_failed_cache paths original inserts row' e'
      ]

  abbrev pub run : Bool → List String → SpanOp V → Engine D → ProcessResult V × Engine D
  run use_failed_cache paths op e =
      finished op (chain use_failed_cache paths (row_of op) (is_insert op) (row_of op) e)

  -- `ENGINE.with_borrow_mut`
  abbrev pub with_engine :
      Result String (Unit {0})
      → Bool
      → List String
      → SpanOp V
      → Option (Engine D)
      → Result String (ProcessResult V) × Option (Engine D)
  with_engine started use_failed_cache paths op (some e) =
      let (result, e') = run use_failed_cache paths op e in (ok result, some e')
  with_engine (err error) use_failed_cache paths op none = (err error, none)
  with_engine (ok _) use_failed_cache paths op none =
      let (result, e') = run use_failed_cache paths op empty_engine in (ok result, some e')

  unfoldable pub process_inner :
      Bool
      → List String
      → SpanOp V
      → Option (Engine D)
      → Result String (ProcessResult V) × Option (Engine D)
  process_inner use_failed_cache [] op slot = (ok (record { op = some op; failure = none }), slot)
  process_inner use_failed_cache (path ∷ paths) op slot =
      with_engine scripts.runtime use_failed_cache (path ∷ paths) op slot

  unfoldable pub process_isolated :
      List String
      → SpanOp V
      → Option (Engine D)
      → Result String (ProcessResult V) × Option (Engine D)
  process_isolated paths op slot = process_inner false paths op slot

module _ {D : Type 0} where
  abbrev fingerprint_of : Option (FailedPlugin D) → Option D
  fingerprint_of none = none
  fingerprint_of (some failed) = failed.fingerprint

  unfoldable pub failed_digest : String → Option (Engine D) → Option D
  failed_digest path none = none
  failed_digest path (some e) = fingerprint_of (Map.get path e.failed_plugins)

  abbrev module_digest : String → Option (Engine D) → Option D
  module_digest path none = none
  module_digest path (some e) = Map.get path e.modules

module _ {D V : Type 0} (scripts : Scripts D V) where
  -- `reached` tells whether the failed plugin stands before
  digests_from : Bool → List String → String → Option (Engine D) → List (Option D)
  unfolding failed_digest
  digests_from reached [] failed slot = []
  digests_from reached (path ∷ paths) failed slot =
      if same path failed
      then failed_digest path slot ∷ digests_from true paths failed slot
      else (if reached then scripts.file_digest path else module_digest path slot)
        ∷ digests_from reached paths failed slot

  unfoldable pub chain_digests : List String → String → Option (Engine D) → List (Option D)
  unfolding digests_from
  chain_digests paths failed slot = digests_from false paths failed slot
