-- ===== src/Tests/JsonValue.antt =====
-- JSON values, to run the model with.
use braintrust_coding_agent.Prelude.{
  ℕ, String, true, false, ◌≡◌, refl, sym, ap, ◌∙◌, Bool, List, [], ◌∷◌, Option, none, some, arith,
  if◌then◌else◌,
}
use braintrust_coding_agent.Collections.{string_key, string_dec, same}
use braintrust_coding_agent.Json.{Json, JsonArrays}

mutual
  pub data Value : Type 0 where
    boolean : Bool → Value
    text : String → Value
    object : Object → Value
    natural : ℕ → Value
    sequence : Values → Value

  pub data Values : Type 0 where
    nothing : Values
    first : Value → Values → Values

  pub data Object : Type 0 where
    end : Object
    field : String → Value → Object → Object

abbrev as_bool : Value → Option Bool
as_bool (boolean b) = some b
as_bool _ = none

abbrev as_object : Value → Option Object
as_object (object o) = some o
as_object _ = none

unfoldable pub get : String → Object → Option Value
get k end = none
get k (field j v o) = if same j k then some v else get k o

unfoldable pub insert : String → Value → Object → Object
insert k v end = field k v end
insert k v (field j w o) = if same j k then field k v o else field j w (insert k v o)

unfoldable pub remove : String → Object → Object
remove k end = end
remove k (field j w o) = let rest = remove k o in if same j k then rest else field j w rest

abbrev entries : Object → List (String × Value)
entries end = []
entries (field k v o) = (k, v) ∷ entries o

pub object-as_object : (v : Value) (o : Object) → as_object v ≡ some o → object o ≡ v
object-as_object (boolean b) o h = absurd (cc)
object-as_object (text t) o h = absurd (cc)
object-as_object (object p) o h = cc
object-as_object (natural n) o h = absurd (cc)
object-as_object (sequence vs) o h = absurd (cc)

pub get-insert :
    (j k : String) (v : Value) (o : Object)
    → get j (insert k v o) ≡ (if same k j then some v else get j o)
unfolding get insert
get-insert j k v end = refl
get-insert j k v (field i w o) = ground (arith, get-insert j k v o)

pub get-remove :
    (j k : String) (o : Object) → get j (remove k o) ≡ (if same k j then none else get j o)
unfolding get remove
get-remove j k end = ground arith
get-remove j k (field i w o) = ground (arith, get-remove j k o)

pub get-end : (k : String) → get k end ≡ none
unfolding get
get-end k = refl

abbrev pub plain_json : Json
plain_json = record {
  Value = Value;
  Object = Object;
  string = text;
  object = object;
  as_bool = as_bool;
  as_object = as_object;
  empty = end;
  get = get;
  insert = insert;
  remove = remove;
  entries = entries;
  as_object-object = λ o. refl;
  object-as_object = object-as_object;
  get-empty = get-end;
  get-insert = get-insert;
  get-remove = get-remove;
}

unfoldable pub of_list : List Value → Values
of_list [] = nothing
of_list (v ∷ vs) = first v (of_list vs)

unfoldable pub to_list : Values → List Value
to_list nothing = []
to_list (first v vs) = v ∷ to_list vs

abbrev pub array : List Value → Value
array vs = sequence (of_list vs)

abbrev as_array : Value → Option (List Value)
as_array (sequence vs) = some (to_list vs)
as_array _ = none

abbrev as_u64 : Value → Option ℕ
as_u64 (natural n) = some n
as_u64 _ = none

-- The tests compare texts only.
unfoldable pub equal : Value → Value → Bool
equal (text s) (text t) = same s t
equal _ _ = false

unfoldable pub retain : (String → Bool) → Object → Object
retain p end = end
retain p (field k v o) = let rest = retain p o in if p k then field k v rest else rest

pub to_list-of_list : (vs : List Value) → to_list (of_list vs) ≡ vs
unfolding to_list of_list
to_list-of_list [] = refl
to_list-of_list (v ∷ vs) = ap (λ ws. v ∷ ws) (to_list-of_list vs)

pub of_list-to_list : (vs : Values) → of_list (to_list vs) ≡ vs
unfolding to_list of_list
of_list-to_list nothing = refl
of_list-to_list (first v vs) = ap (first v) (of_list-to_list vs)

pub array-as_array : (v : Value) (vs : List Value) → as_array v ≡ some vs → array vs ≡ v
array-as_array (boolean b) vs h = absurd (cc)
array-as_array (text t) vs h = absurd (cc)
array-as_array (object o) vs h = absurd (cc)
array-as_array (natural n) vs h = absurd (cc)
array-as_array (sequence ws) vs h =
    let e : to_list ws ≡ vs = cc in ap sequence (ap of_list (sym e) ∙ of_list-to_list ws)

pub equal_eq : (v w : Value) → equal v w ≡ true → v ≡ w
unfolding equal
equal_eq (text s) (text t) h = elim (string_dec s t) [
  | yes e ↦ ap text e
  | no n ↦ absurd (ground (arith, h, n))
]
equal_eq (text s) (boolean b) h = absurd (cc)
equal_eq (text s) (object o) h = absurd (cc)
equal_eq (text s) (natural n) h = absurd (cc)
equal_eq (text s) (sequence vs) h = absurd (cc)
equal_eq (boolean b) w h = absurd (cc)
equal_eq (object o) w h = absurd (cc)
equal_eq (natural n) w h = absurd (cc)
equal_eq (sequence vs) w h = absurd (cc)

pub get-retain :
    (k : String) (p : String → Bool) (o : Object)
    → get k (retain p o) ≡ (if p k then get k o else none)
unfolding get retain
get-retain k p end = ground arith
get-retain k p (field j v o) = elim (string_dec j k) [
  | yes e ↦ rw e (ground (arith, get-retain k p o))
  | no n ↦ ground (arith, n, get-retain k p o)
]

abbrev pub plain_arrays : JsonArrays plain_json
plain_arrays = record {
  array = array;
  as_array = as_array;
  number = natural;
  as_u64 = as_u64;
  equal = equal;
  retain = retain;
  as_array-array = λ vs. ap some (to_list-of_list vs);
  array-as_array = array-as_array;
  as_u64-number = λ n. refl;
  equal_eq = equal_eq;
  get-retain = get-retain;
}
