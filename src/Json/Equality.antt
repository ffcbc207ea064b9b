-- ===== src/Json/Equality.antt =====
-- The Boolean equality of values decides whether they are the same but for the signs of zeros.
use greentic_sorx.Prelude.{
  ◌≡◌, ◌↔◌, refl, ap, true, false, arith, ◌==◌, eq_iff, eqb, and-eq-true, if◌then◌else◌,
}
use greentic_sorx.Json.{
  Number, pos_int, neg_int, float, Value, null, bool, number, string, array, object, Items, nil,
  cons, Fields, end, field, number_eq, value_eq, items_eq, fields_eq,
}

-- A float -0.0 is written as 0.0.
abbrev pub unsigned_number : Number → Number
unsigned_number (pos_int n) = pos_int n
unsigned_number (neg_int n) = neg_int n
unsigned_number (float bits) = float (if eqb bits 0x8000000000000000 then 0 else bits)

-- Every float -0.0 inside of a value is written as 0.0.
unfoldable mutual
  pub unsigned_zeros : Value → Value
  unsigned_zeros null = null
  unsigned_zeros (bool b) = bool b
  unsigned_zeros (number n) = number (unsigned_number n)
  unsigned_zeros (string s) = string s
  unsigned_zeros (array vs) = array (unsigned_items vs)
  unsigned_zeros (object fs) = object (unsigned_fields fs)

  pub unsigned_items : Items → Items
  unsigned_items nil = nil
  unsigned_items (cons v vs) = cons (unsigned_zeros v) (unsigned_items vs)

  pub unsigned_fields : Fields → Fields
  unsigned_fields end = end
  unsigned_fields (field k v fs) = field k (unsigned_zeros v) (unsigned_fields fs)

number_sound : (a b : Number) → number_eq a b ≡ true → unsigned_number a ≡ unsigned_number b
number_sound (pos_int a) (pos_int b) h = ground arith
number_sound (neg_int a) (neg_int b) h = ground arith
number_sound (float a) (float b) h = ground arith
number_sound _ _ h = cc

number_equal : (a b : Number) → unsigned_number a ≡ unsigned_number b → number_eq a b ≡ true
number_equal (pos_int a) (pos_int b) h = ground arith
number_equal (neg_int a) (neg_int b) h = ground arith
number_equal (float a) (float b) h = ground arith
number_equal _ _ h = cc

mutual
  unfolding value_eq unsigned_zeros

  sound : (v w : Value) → value_eq v w ≡ true → unsigned_zeros v ≡ unsigned_zeros w
  sound null null h = refl
  sound (bool true) (bool b) h = ground arith
  sound (bool false) (bool b) h = ground arith
  sound (number a) (number b) h = ap number (number_sound a b h)
  sound (string a) (string b) h = ground (arith, eq_iff a b)
  sound (array a) (array b) h = cc (items_sound a b h)
  sound (object a) (object b) h = cc (fields_sound a b h)
  sound _ _ h = cc

  items_sound : (v w : Items) → items_eq v w ≡ true → unsigned_items v ≡ unsigned_items w
  items_sound nil nil h = refl
  items_sound (cons v vs) (cons w ws) h =
      let (same, rest) = and-eq-true (value_eq v w) _ h in
      cc (sound v w same, items_sound vs ws rest)
  items_sound _ _ h = cc

  fields_sound : (v w : Fields) → fields_eq v w ≡ true → unsigned_fields v ≡ unsigned_fields w
  fields_sound end end h = refl
  fields_sound (field j v fs) (field k w gs) h =
      let (same_key, rest) = and-eq-true (j == k) _ h in
      let (same_value, same_rest) = and-eq-true (value_eq v w) _ rest in
      cc ((eq_iff j k).0 same_key, sound v w same_value, fields_sound fs gs same_rest)
  fields_sound _ _ h = cc

mutual
  unfolding value_eq unsigned_zeros

  equal : (v w : Value) → unsigned_zeros v ≡ unsigned_zeros w → value_eq v w ≡ true
  equal null null h = refl
  equal (bool true) (bool b) h = ground arith
  equal (bool false) (bool b) h = ground arith
  equal (number a) (number b) h = number_equal a b (cc h)
  equal (string a) (string b) h = ground (arith, eq_iff a b)
  equal (array a) (array b) h = items_equal a b (cc h)
  equal (object a) (object b) h = fields_equal a b (cc h)
  equal _ _ h = cc

  items_equal : (v w : Items) → unsigned_items v ≡ unsigned_items w → items_eq v w ≡ true
  items_equal nil nil h = refl
  items_equal (cons v vs) (cons w ws) h =
      let first : unsigned_zeros v ≡ unsigned_zeros w = cc h in
      let rest : unsigned_items vs ≡ unsigned_items ws = cc h in
      rw (equal v w first) (items_equal vs ws rest)
  items_equal _ _ h = cc

  fields_equal : (v w : Fields) → unsigned_fields v ≡ unsigned_fields w → fields_eq v w ≡ true
  fields_equal end end h = refl
  fields_equal (field j v fs) (field k w gs) h =
      let same_key : j ≡ k = cc h in
      let first : unsigned_zeros v ≡ unsigned_zeros w = cc h in
      let rest : unsigned_fields fs ≡ unsigned_fields gs = cc h in
      rw ((eq_iff j k).1 same_key, equal v w first) (fields_equal fs gs rest)
  fields_equal _ _ h = cc

pub value_eq_iff : (v w : Value) → (value_eq v w ≡ true) ↔ (unsigned_zeros v ≡ unsigned_zeros w)
value_eq_iff v w = (sound v w, equal v w)
