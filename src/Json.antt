-- ===== src/Json.antt =====
-- The JSON values of the package serde_json, as the program reads them. A number is what `as_u64`
-- gives of it. A list in a value is a data type of its own; the accessors give the library's lists.
use deskquota.Common.{
  Bool, List, Option, Text, [], false, if◌then◌else◌, none, same_text, some, true, ℕ, ◌&&◌, ◌∷◌,
}

mutual
  pub data Value : Type 0 where
    null : Value
    bool : Bool → Value
    number : Option ℕ → Value
    string : Text → Value
    array : Items → Value
    object : Fields → Value

  pub data Items : Type 0 where
    nil : Items
    cons : Value → Items → Items

  pub data Fields : Type 0 where
    end : Fields
    field : Text → Value → Fields → Fields

abbrev pub items : Items → List Value
items nil = []
items (cons v vs) = v ∷ items vs

abbrev pub fields : Fields → List (Text × Value)
fields end = []
fields (field k v fs) = (k, v) ∷ fields fs

abbrev pub get_field : List (Text × Value) → Text → Option Value
get_field [] k = none
get_field ((j, v) ∷ fs) k = if same_text j k then some v else get_field fs k

-- `Value::get`.
abbrev pub get : Value → Text → Option Value
get (object fs) k = get_field (fields fs) k
get _ k = none

abbrev pub as_array : Value → Option (List Value)
as_array (array vs) = some (items vs)
as_array _ = none

abbrev pub as_object : Value → Option (List (Text × Value))
as_object (object fs) = some (fields fs)
as_object _ = none

abbrev pub as_str : Value → Option Text
as_str (string s) = some s
as_str _ = none

abbrev pub as_u64 : Value → Option ℕ
as_u64 (number n) = n
as_u64 _ = none

abbrev pub as_bool : Value → Option Bool
as_bool (bool b) = some b
as_bool _ = none

abbrev pub is_null : Value → Bool
is_null null = true
is_null _ = false

abbrev pub is_string : Value → Bool
is_string (string s) = true
is_string _ = false

abbrev pub is_array : Value → Bool
is_array (array vs) = true
is_array _ = false

abbrev pub is_boolean : Value → Bool
is_boolean (bool b) = true
is_boolean _ = false

-- `is_some_and` and `is_none_or`.
module _ {ℓ} {A : Type ℓ} where
  abbrev pub some_and : Option A → (A → Bool) → Bool
  some_and none p = false
  some_and (some a) p = p a

  abbrev pub none_or : Option A → (A → Bool) → Bool
  none_or none p = true
  none_or (some a) p = p a

  abbrev pub and_then {κ} : {B : Type κ} → Option A → (A → Option B) → Option B
  and_then none f = none
  and_then (some a) f = f a

  -- `iter().all(p)`.
  abbrev pub every : (A → Bool) → List A → Bool
  every p [] = true
  every p (a ∷ rest) = p a && every p rest

-- A value that is this string.
abbrev pub is_text : Text → Value → Bool
is_text t (string s) = same_text s t
is_text t _ = false

-- `value.get(k).and_then(Value::as_str)`, and a test on it.
abbrev pub get_str : Value → Text → Option Text
get_str v k = and_then (get v k) as_str

abbrev pub is_empty_array : Value → Bool
is_empty_array (array nil) = true
is_empty_array _ = false
