-- ===== src/Store/Yaml.antt =====
-- The YAML of the documents of crates/studio-store/src/adr.rs and crates/studio-store/src/finding.rs:
-- values, numbers, and the texts that are written into a frontmatter. serde_yaml is a parameter.
use cobrust_studio.Base.{
  ℕ, ◌+◌, ◌-◌, ◌*◌, ◌^◌, ◌==◌, Bool, true, false, ◌||◌, List, [], ◌∷◌, ◌++◌, Option, none, some,
  Text, codes, padded, trim, strip_prefix, is_empty, within, ltb, if◌then◌else◌, contains_char,
}

-- `serde_yaml::Value`; a number has its `as_u64`
pub data Value : Type 0 where
  string : Text → Value
  number : Option ℕ → Value
  other : Value

digits_value : ℕ → Text → Option ℕ
digits_value n [] = some n
digits_value n (c ∷ s) =
    let rest = digits_value (n * 10 + (c - b'0')) s in if within b'0' b'9' c then rest else none

unfoldable pub u32_only : Option ℕ → Option ℕ
u32_only none = none
u32_only (some n) = if ltb n (2 ^ 32) then some n else none

unsigned : Text → Text
unsigned [] = []
unsigned (c ∷ s) = if c == b'+' then s else c ∷ s

-- `str::parse::<u32>`: a sign, digits, and no overflow
unfoldable pub parse_u32 : Text → Option ℕ
unfolding unsigned u32_only digits_value
parse_u32 s = if is_empty (unsigned s) then none else u32_only (digits_value 0 (unsigned s))

-- `u32::try_from`
unfoldable pub u32_of : Option ℕ → Option ℕ
unfolding u32_only
u32_of o = u32_only o

cons_some : {A : Type 0} → Option A → List A → List A
cons_some none xs = xs
cons_some (some x) xs = x ∷ xs

id_value : Value → Option ℕ
id_value (string s) = parse_u32 (trim s)
id_value (number n) = u32_of n
id_value other = none

-- `coerce_id_list`
unfoldable pub coerce_id_list : List Value → List ℕ
unfolding cons_some id_value parse_u32 u32_of
coerce_id_list [] = []
coerce_id_list (v ∷ vs) = cons_some (id_value v) (coerce_id_list vs)

text_value : Value → Option Text
text_value (string s) = some s
text_value (number n) = none
text_value other = none

-- `coerce_str_list`
unfoldable pub coerce_str_list : List Value → List Text
unfolding cons_some text_value
coerce_str_list [] = []
coerce_str_list (v ∷ vs) = cons_some (text_value v) (coerce_str_list vs)

-- `join(", ")`
join_commas : List Text → Text
join_commas [] = []
join_commas (s ∷ []) = s
join_commas (s ∷ t ∷ ss) = s ++ codes ", " ++ join_commas (t ∷ ss)

quoted : Text → Text
quoted s = b'"' ∷ s ++ b'"' ∷ []

quoted_all : List Text → List Text
unfolding quoted
quoted_all [] = []
quoted_all (s ∷ ss) = quoted s ∷ quoted_all ss

-- `format_str_list`
unfoldable pub format_str_list : List Text → Text
unfolding join_commas quoted_all
format_str_list [] = codes "[]"
format_str_list (s ∷ ss) = b'[' ∷ join_commas (quoted_all (s ∷ ss)) ++ b']' ∷ []

padded_all : List ℕ → List Text
padded_all [] = []
padded_all (n ∷ ns) = padded 4 n ∷ padded_all ns

-- `format_id_list`
unfoldable pub format_id_list : List ℕ → Text
unfolding padded_all join_commas quoted_all
format_id_list [] = codes "[]"
format_id_list (n ∷ ns) = b'[' ∷ join_commas (quoted_all (padded_all (n ∷ ns))) ++ b']' ∷ []

starts_with : Text → Text → Bool
starts_with p s = elim (strip_prefix p s) [ none ↦ false | some r ↦ true ]

contains : Text → Text → Bool
unfolding starts_with
contains p [] = starts_with p []
contains p (c ∷ s) = starts_with p (c ∷ s) || contains p s

escaped_quotes : Text → Text
escaped_quotes [] = []
escaped_quotes (c ∷ s) = if c == b'"' then b'\\' ∷ c ∷ escaped_quotes s else c ∷ escaped_quotes s

starts_special : Text → Bool
starts_special [] = true
starts_special (c ∷ s) = contains_char c (codes "[{&*!|>%@`'\"")

-- `yaml_escape_inline`
unfoldable pub yaml_escape_inline : Text → Text
unfolding starts_special contains escaped_quotes
yaml_escape_inline s =
    if starts_special s || contains (codes ": ") s || contains (codes " #") s
    then b'"' ∷ escaped_quotes s ++ b'"' ∷ []
    else s
