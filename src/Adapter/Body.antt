-- ===== src/Adapter/Body.antt =====
-- The JSON bodies that crates/studio-router/src/anthropic.rs and crates/studio-router/src/openai.rs
-- send, as the values of serde_json: its object is a map that is ordered by the keys.
pub mod Lookup
use cobrust_studio.Base.{
  ℕ, Bool, Option, none, some, List, [], ◌∷◌, map, Text, String, codes, eq_text, lt_text,
  if◌then◌else◌,
}
use cobrust_studio.Json.{Value, string, array, number, pos_int, object, Fields, end, field, of_list}

unfoldable pub insert_field : Text → Value → Fields → Fields
insert_field k v end = field k v end
insert_field k v (field j w rest) =
    if eq_text k j
    then field k v rest
    else if lt_text k j
    then field k v (field j w rest)
    else field j w (insert_field k v rest)

-- `body[key] = value`, with a literal for the key
unfoldable pub put : String → Value → Fields → Fields
unfolding insert_field
put k v fs = insert_field (codes k) v fs

-- the same for a value that may be missing
unfoldable pub put_some : {A : Type 0} → String → (A → Value) → Option A → Fields → Fields
unfolding put
put_some k f none fs = fs
put_some k f (some a) fs = put k (f a) fs

unfoldable pub put_if : Bool → String → Value → Fields → Fields
unfolding put
put_if test k v fs = if test then put k v fs else fs

unfoldable pub natural : ℕ → Value
natural n = number (pos_int n)

unfoldable pub texts : List Text → Value
texts ts = array (of_list (map string ts))

-- `json!({"role": role, "content": content})`
unfoldable pub turn_of : String → Text → Value
unfolding put
turn_of role content =
    object (put "content" (string content) (put "role" (string (codes role)) end))
