-- ===== src/Journal/Context.antt =====
-- The contexts that Pi's lines leave out, restored.
use braintrust_coding_agent.Prelude.{
  ℕ, ◌≡◌, refl, ap, ◌≤◌, String, false, List, [], ◌∷◌, ◌++◌, none, some, drop, take, length, ltb,
  arith, Bool-cases, Option-cases, ◌⊎◌, inl, inr,
}
use braintrust_coding_agent.Collections.{string_key, string_dec, same_self}
use braintrust_coding_agent.Json.{Json, JsonArrays}
use braintrust_coding_agent.Translator.{ok}
use braintrust_coding_agent.Journal.Pi.{
  pi_messages_delta, common_prefix, delta_of, list_of, compact_context, number_of, field_of,
  messages_of, expand_delta, expand_native,
}

module _ (json : Json) (arrays : JsonArrays json) where
  open json use {Value, Object, as_object, object, get, insert, remove, empty}

  prefix_taken :
      (p m : List Value)
      → take (common_prefix json arrays p m) p ++ drop (common_prefix json arrays p m) m ≡ m
  unfolding common_prefix
  prefix_taken [] m = refl
  prefix_taken (x ∷ p) [] = refl
  prefix_taken (x ∷ p) (y ∷ m) = elim (Bool-cases (arrays.equal x y)) [
    | inl e ↦ rw e (cc (arrays.equal_eq x y e, prefix_taken p m))
    | inr e ↦ rw e refl
  ]

  common_prefix-le : (p m : List Value) → common_prefix json arrays p m ≤ length p
  unfolding common_prefix
  common_prefix-le [] m = omega arith
  common_prefix-le (x ∷ p) [] = omega arith
  common_prefix-le (x ∷ p) (y ∷ m) = ground (arith, common_prefix-le p m)

  -- A reader can follow a writer that starts anew, or that has its context.
  abbrev pub Linked : List Value → List Value → Type 0
  Linked w r = (w ≡ []) ⊎ (w ≡ r)

  messages_of-restores :
      (w r m : List Value)
      → Linked w r
      → messages_of json arrays
          (some (common_prefix json arrays w m))
          (some (drop (common_prefix json arrays w m) m))
          r
        ≡ ok m
  unfolding common_prefix
  messages_of-restores w r m (inl fresh) =
      let never : ltb (length r) 0 ≡ false = ground arith in rw (fresh, never) refl
  messages_of-restores w r m (inr same_context) =
      let short : ltb (length r) (common_prefix json arrays r m) ≡ false =
        ground (arith, common_prefix-le r m) in
      rw same_context (rw short (ap ok (prefix_taken r m)))

  get-object : (k : String) (o : Object) → field_of json arrays k (object o) ≡ get k o
  get-object k o = rw (json.as_object-object o, field_of) refl

  pub delta_prefix :
      (n : ℕ) (suffix : List Value)
      → number_of json arrays (field_of json arrays "common_prefix" (delta_of json arrays n suffix))
        ≡ some n
  unfolding string_dec
  delta_prefix n suffix =
      rw
        (
          get-object "common_prefix" (
              insert "suffix" (arrays.array suffix)
                (insert "common_prefix" (arrays.number n) empty)),
          json.get-insert "common_prefix" "suffix" (arrays.array suffix)
              (insert "common_prefix" (arrays.number n) empty),
          json.get-insert "common_prefix" "common_prefix" (arrays.number n) empty,
        )
        (arrays.as_u64-number n)

  delta_suffix :
      (n : ℕ) (suffix : List Value)
      → list_of json arrays (field_of json arrays "suffix" (delta_of json arrays n suffix))
        ≡ some suffix
  unfolding string_dec
  delta_suffix n suffix =
      rw
        (
          get-object "suffix" (
              insert "suffix" (arrays.array suffix)
                (insert "common_prefix" (arrays.number n) empty)),
          json.get-insert "suffix" "suffix" (arrays.array suffix)
              (insert "common_prefix" (arrays.number n) empty),
        )
        (arrays.as_array-array suffix)

  -- what a reader makes of the object of a context
  abbrev pub unpacked : Object → Value → List Value → Object
  unpacked native delta messages =
      insert "messages" (arrays.array messages)
        (remove pi_messages_delta (insert pi_messages_delta delta (remove "messages" native)))

  pub get-unpacked :
      (k : String) (native : Object) (delta : Value) (messages : List Value)
      → get pi_messages_delta native ≡ none
      → list_of json arrays (get "messages" native) ≡ some messages
      → get k (unpacked native delta messages) ≡ get k native
  get-unpacked k native delta messages no_delta there =
      elim (Option-cases (get "messages" native)) [
        | inl missing ↦ absurd (ground (arith, there, missing))
        | inr (v, found) ↦ ground (
          arith,
          no_delta,
          found,
          there,
          arrays.array-as_array v messages,
          json.get-insert k "messages" (arrays.array messages) (
              remove pi_messages_delta (insert pi_messages_delta delta (remove "messages" native))),
          json.get-remove k pi_messages_delta
              (insert pi_messages_delta delta (remove "messages" native)),
          json.get-insert k pi_messages_delta delta (remove "messages" native),
          json.get-remove k "messages" native,
        )
      ]

  expand_delta-ok :
      (native : Object) (r suffix messages : List Value) (delta : Value) (n : ℕ)
      → number_of json arrays (field_of json arrays "common_prefix" delta) ≡ some n
      → list_of json arrays (field_of json arrays "suffix" delta) ≡ some suffix
      → messages_of json arrays (some n) (some suffix) r ≡ ok messages
      → expand_delta json arrays native r (some delta)
        ≡ ok (insert "messages" (arrays.array messages) native, messages)
  expand_delta-ok native r suffix messages delta n a b c = rw (a, b, c, expand_delta) refl

  pub context-restores :
      (native : Object) (w r messages : List Value)
      → Linked w r
      → (let compact = compact_context json arrays native w (some messages) in
          let n = common_prefix json arrays w messages in
          expand_native json arrays compact.0 r
          ≡ ok (unpacked native (delta_of json arrays n (drop n messages)) messages, messages))
  unfolding expand_native
  context-restores native w r messages linked =
      let n = common_prefix json arrays w messages in
      let delta = delta_of json arrays n (drop n messages) in
      rw
        (
          json.get-insert pi_messages_delta pi_messages_delta delta (remove "messages" native),
          same_self pi_messages_delta,
        )
        (expand_delta-ok
          (remove pi_messages_delta (insert pi_messages_delta delta (remove "messages" native))) r
          (drop n messages) messages delta n (delta_prefix n (drop n messages))
          (delta_suffix n (drop n messages)) (messages_of-restores w r messages linked))
