-- ===== src/Json.antt =====
-- `serde_json::Value`, with the accessors that the program calls on it. An object is a
-- `BTreeMap`, so its fields stand in the order of their keys; a float is its bit pattern.
pub mod Equality
use greentic_sorx.Prelude.{
  ℕ, String, ◌≡◌, refl, ap, Bool, true, false, ◌&&◌, ◌||◌, Option, none, some, List, [], ◌∷◌, ◌==◌,
  eqb,
}
use greentic_sorx.Prelude.Maps
use greentic_sorx.Prelude.Maps.{Map}

pub data Number : Type 0 where
  pos_int neg_int float : ℕ → Number

mutual
  pub data Value : Type 0 where
    null : Value
    bool : Bool → Value
    number : Number → Value
    string : String → Value
    array : Items → Value
    object : Fields → Value

  pub data Items : Type 0 where
    nil : Items
    cons : Value → Items → Items

  pub data Fields : Type 0 where
    end : Fields
    field : String → Value → Fields → Fields

abbrev pub items : Items → List Value
items nil = []
items (cons v vs) = v ∷ items vs

abbrev pub to_items : List Value → Items
to_items [] = nil
to_items (v ∷ vs) = cons v (to_items vs)

abbrev pub fields : Fields → Map Value
fields end = []
fields (field k v fs) = (k, v) ∷ fields fs

abbrev pub to_fields : Map Value → Fields
to_fields [] = end
to_fields ((k, v) ∷ m) = field k v (to_fields m)

pub fields-to_fields : (m : Map Value) → fields (to_fields m) ≡ m
fields-to_fields [] = refl
fields-to_fields ((k, v) ∷ m) = ap (λ r. (k, v) ∷ r) (fields-to_fields m)

-- `Value::Object(map)`
abbrev pub from_map : Map Value → Value
from_map m = object (to_fields m)

-- `value.get(key)`
unfoldable pub get : String → Value → Option Value
get k (object fs) = Maps.get k (fields fs)
get k null = none
get k _ = none

abbrev pub as_str : Value → Option String
as_str (string s) = some s
as_str null = none
as_str _ = none

abbrev pub as_bool : Value → Option Bool
as_bool (bool b) = some b
as_bool null = none
as_bool _ = none

abbrev pub as_array : Value → Option (List Value)
as_array (array vs) = some (items vs)
as_array null = none
as_array _ = none

abbrev pub as_object : Value → Option (Map Value)
as_object (object fs) = some (fields fs)
as_object null = none
as_object _ = none

-- `as_u64`: the integers that are not negative
abbrev pub as_u64 : Value → Option ℕ
as_u64 (number (pos_int n)) = some n
as_u64 null = none
as_u64 _ = none

abbrev pub and_then {ℓ κ} : {A : Type ℓ} {B : Type κ} → Option A → (A → Option B) → Option B
and_then none f = none
and_then (some a) f = f a

abbrev pub unwrap_or {ℓ} : {A : Type ℓ} → A → Option A → A
unwrap_or d none = d
unwrap_or d (some a) = a

abbrev pub or_else {ℓ} : {A : Type ℓ} → Option A → Option A → Option A
or_else none b = b
or_else (some a) b = some a

-- `value.get(key).and_then(Value::as_str)`, the program's `string_field`
unfoldable pub string_field : String → Value → Option String
unfolding get
string_field k v = and_then (get k v) as_str

-- 0.0 and -0.0
abbrev is_float_zero : ℕ → Bool
is_float_zero bits = eqb bits 0 || eqb bits 0x8000000000000000

-- `==` of numbers. A float of a value is finite, and only the two zeros are equal with other bits.
abbrev number_eq : Number → Number → Bool
number_eq (pos_int a) (pos_int b) = eqb a b
number_eq (neg_int a) (neg_int b) = eqb a b
number_eq (float a) (float b) = eqb a b || (is_float_zero a && is_float_zero b)
number_eq _ _ = false

abbrev bool_eq : Bool → Bool → Bool
bool_eq true b = b
bool_eq false true = false
bool_eq false false = true

-- `==` of values
unfoldable mutual
  pub value_eq : Value → Value → Bool
  value_eq null null = true
  value_eq (bool a) (bool b) = bool_eq a b
  value_eq (number a) (number b) = number_eq a b
  value_eq (string a) (string b) = a == b
  value_eq (array a) (array b) = items_eq a b
  value_eq (object a) (object b) = fields_eq a b
  value_eq _ _ = false

  pub items_eq : Items → Items → Bool
  items_eq nil nil = true
  items_eq (cons v vs) (cons w ws) = value_eq v w && items_eq vs ws
  items_eq _ _ = false

  pub fields_eq : Fields → Fields → Bool
  fields_eq end end = true
  fields_eq (field j v fs) (field k w gs) = j == k && (value_eq v w && fields_eq fs gs)
  fields_eq _ _ = false
