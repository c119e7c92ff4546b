-- ===== src/Json.antt =====
-- The values of serde_json and the accessors that the program calls on them. Reading and printing
-- JSON text is the library's own code, and a parameter wherever it is used.
use cobrust_studio.Base.{ℕ, Bool, Option, none, some, List, [], ◌∷◌, Text, eq_text, if◌then◌else◌}

-- `serde_json::Number`: an unsigned, a negative (by its absolute value) or a float by its bits
pub data Number : Type 0 where
  pos_int : ℕ → Number
  neg_int : ℕ → Number
  float : ℕ → Number

mutual
  -- `serde_json::Value`
  pub data Value : Type 0 where
    null : Value
    bool : Bool → Value
    number : Number → Value
    string : Text → Value
    array : Items → Value
    object : Fields → Value

  pub data Items : Type 0 where
    nil : Items
    cons : Value → Items → Items

  pub data Fields : Type 0 where
    end : Fields
    field : Text → Value → Fields → Fields

-- the elements of an array, as a list
unfoldable pub to_list : Items → List Value
to_list nil = []
to_list (cons v vs) = v ∷ to_list vs

unfoldable pub of_list : List Value → Items
of_list [] = nil
of_list (v ∷ vs) = cons v (of_list vs)

unfoldable pub find_field : Text → Fields → Option Value
find_field k end = none
find_field k (field j v rest) = if eq_text j k then some v else find_field k rest

-- `Value::get` with a text
unfoldable pub get : Text → Value → Option Value
unfolding find_field
get k (object fs) = find_field k fs
get k null = none
get k (bool b) = none
get k (number n) = none
get k (string s) = none
get k (array vs) = none

-- `Value::as_str`, `Value::as_u64` and `Value::as_array`
unfoldable pub as_str : Value → Option Text
as_str (string s) = some s
as_str null = none
as_str (bool b) = none
as_str (number n) = none
as_str (array vs) = none
as_str (object fs) = none

as_number : Number → Option ℕ
as_number (pos_int n) = some n
as_number (neg_int n) = none
as_number (float n) = none

unfoldable pub as_u64 : Value → Option ℕ
unfolding as_number
as_u64 (number n) = as_number n
as_u64 null = none
as_u64 (bool b) = none
as_u64 (string s) = none
as_u64 (array vs) = none
as_u64 (object fs) = none

unfoldable pub as_array : Value → Option (List Value)
unfolding to_list
as_array (array vs) = some (to_list vs)
as_array null = none
as_array (bool b) = none
as_array (number n) = none
as_array (string s) = none
as_array (object fs) = none
