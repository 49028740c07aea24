-- ===== src/Json.antt =====
-- `serde_json::Value`, a parameter of the model: what the program relies on is a record of
-- operations with their documented laws.
use braintrust_coding_agent.Prelude.{
  ℕ, String, ◌≡◌, Bool, true, false, List, Option, none, some, if◌then◌else◌,
}
use braintrust_coding_agent.Collections.{same, string_key}

-- `Value` is a JSON value and `Object` a `serde_json::Map`.
pub record Json : Type 1 where
  pub Value : Type 0
  pub Object : Type 0
  pub string : String → Value
  pub object : Object → Value
  pub as_bool : Value → Option Bool
  pub as_object : Value → Option Object
  pub empty : Object
  pub get : String → Object → Option Value
  pub insert : String → Value → Object → Object
  pub remove : String → Object → Object
  pub entries : Object → List (String × Value)
  pub as_object-object : (o : Object) → as_object (object o) ≡ some o
  pub object-as_object : (v : Value) (o : Object) → as_object v ≡ some o → object o ≡ v
  pub get-empty : (k : String) → get k empty ≡ none
  pub get-insert :
      (j k : String) (v : Value) (o : Object)
      → get j (insert k v o) ≡ (if same k j then some v else get j o)
  pub get-remove :
      (j k : String) (o : Object) → get j (remove k o) ≡ (if same k j then none else get j o)

module _ (json : Json) where
  open json use {Value, Object, as_bool, as_object, get}

  -- `value.get(key)`, which is `None` on what is no object
  abbrev pub field : String → Value → Option Value
  field k v = elim (as_object v) [ none ↦ none | some o ↦ get k o ]

  abbrev pub has_true : Option Bool → Bool
  has_true (some true) = true
  has_true _ = false

  -- `metadata.get(key) == Some(&Value::Bool(true))`
  abbrev pub is_flagged : String → Option Value → Bool
  is_flagged k none = false
  is_flagged k (some v) = elim (field k v) [ none ↦ false | some w ↦ has_true (as_bool w) ]

-- Arrays and numbers. `equal` is `==` on values; a float stands for all that are equal to it.
pub record JsonArrays (json : Json) : Type 0 where
  pub array : List json.Value → json.Value
  pub as_array : json.Value → Option (List json.Value)
  pub number : ℕ → json.Value
  pub as_u64 : json.Value → Option ℕ
  pub equal : json.Value → json.Value → Bool
  pub retain : (String → Bool) → json.Object → json.Object
  pub as_array-array : (vs : List json.Value) → as_array (array vs) ≡ some vs
  pub array-as_array : (v : json.Value) (vs : List json.Value) → as_array v ≡ some vs → array vs ≡ v
  pub as_u64-number : (n : ℕ) → as_u64 (number n) ≡ some n
  pub equal_eq : (v w : json.Value) → equal v w ≡ true → v ≡ w
  pub get-retain :
      (k : String) (p : String → Bool) (o : json.Object)
      → json.get k (retain p o) ≡ (if p k then json.get k o else none)
