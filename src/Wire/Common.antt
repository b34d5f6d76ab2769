-- ===== src/Wire/Common.antt =====
-- crates/yb-wire/src/common.rs: the fields of JSON objects.
pub mod Numbers
use sovereign_gateway.Base.{
  ℕ, ◌+◌, ◌-◌, ◌*◌, ◌%◌, String, ◌&&◌, Option, none, some, ◌∷◌, ◌==◌, ltb, leb, if◌then◌else◌, ◌^◌,
}
use sovereign_gateway.Core.Json.{
  Value, null, bool, number, string, array, object, Fields, end, field,
}
use Prim.Native.String.{[], ◌∷◌}
use Prim.Native.Char.{code}

unfoldable pub find_field : String → Fields → Option Value
find_field key end = none
find_field key (field k v fields) =
    let rest = find_field key fields in if k == key then some v else rest

-- `Value::get` with a text.
unfoldable pub get : Value → String → Option Value
unfolding find_field
get (object fields) key = find_field key fields
get null key = none
get (bool b) key = none
get (number n) key = none
get (string s) key = none
get (array items) key = none

unfoldable pub as_str : Value → Option String
as_str (string s) = some s
as_str null = none
as_str (bool b) = none
as_str (number n) = none
as_str (array items) = none
as_str (object fields) = none

unfoldable pub opt_str : Value → String → Option String
unfolding get as_str
opt_str obj key = elim (get obj key) [ none ↦ none | some v ↦ as_str v ]

-- The number that decimal digits write, after others.
unfoldable pub digits_value : ℕ → String → Option ℕ
digits_value n [] = some n
digits_value n (c ∷ t) =
    let rest = digits_value (n * 10 + (code c - 48)) t in
    if leb 48 (code c) && leb (code c) 57 then rest else none

-- `as_u64`: a number that is written with digits alone and is below 2^64.
unfoldable pub as_u64 : Value → Option ℕ
unfolding digits_value
as_u64 (number t) = elim (digits_value 0 t) [
  | none ↦ none
  | some n ↦ if t == "" then none else if ltb n (2 ^ 64) then some n else none
]
as_u64 null = none
as_u64 (bool b) = none
as_u64 (string s) = none
as_u64 (array items) = none
as_u64 (object fields) = none

-- The number is cut to its low 32 bits.
unfoldable pub opt_u32 : Value → String → Option ℕ
unfolding get as_u64
opt_u32 obj key = elim (get obj key) [
  | none ↦ none
  | some v ↦ elim (as_u64 v) [ none ↦ none | some n ↦ some (n % 2 ^ 32) ]
]
