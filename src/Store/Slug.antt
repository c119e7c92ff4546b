-- ===== src/Store/Slug.antt =====
-- `slugify` in crates/studio-store/src/adr.rs: the part of a file's name that comes from a title. The
-- lower case of a character, `char::to_lowercase`, is a parameter.
pub mod Shape
use cobrust_studio.Base.{
  ℕ, ◌==◌, Bool, true, false, not, ◌&&◌, ◌||◌, List, [], ◌∷◌, ◌++◌, Text, codes, is_empty, ltb,
  within, if◌then◌else◌,
}

-- `char::is_ascii_alphanumeric`
unfoldable pub is_ascii_alphanumeric : ℕ → Bool
is_ascii_alphanumeric c = within b'0' b'9' c || within b'A' b'Z' c || within b'a' b'z' c

-- one character, on the text so far and `prev_dash`
slug_char : ℕ → Text × Bool → Text × Bool
unfolding is_ascii_alphanumeric
slug_char c (out, prev_dash) =
    if is_ascii_alphanumeric c
    then (out ++ c ∷ [], false)
    else if not prev_dash && not (is_empty out)
    then (out ++ b'-' ∷ [], true)
    else (out, prev_dash)

slug_chars : Text → Text × Bool → Text × Bool
unfolding slug_char
slug_chars [] s = s
slug_chars (c ∷ cs) s = slug_chars cs (slug_char c s)

flat_map_lower : (ℕ → Text) → Text → Text
flat_map_lower lower [] = []
flat_map_lower lower (c ∷ cs) = lower c ++ flat_map_lower lower cs

keep_dashes : ℕ → Text → Text
keep_dashes c [] = if c == b'-' then [] else c ∷ []
keep_dashes c (d ∷ s) = c ∷ d ∷ s

-- the loop that pops the dashes at the end
pop_dashes : Text → Text
unfolding keep_dashes
pop_dashes [] = []
pop_dashes (c ∷ s) = keep_dashes c (pop_dashes s)

or_untitled : Text → Text
or_untitled [] = codes "untitled"
or_untitled (c ∷ s) = c ∷ s

-- `slugify`
unfoldable pub slugify : (ℕ → Text) → Text → Text
unfolding slug_chars slug_char is_ascii_alphanumeric flat_map_lower pop_dashes keep_dashes
    or_untitled
slugify lower title =
    let (out, prev_dash) = slug_chars (flat_map_lower lower title) ([], false) in
    or_untitled (pop_dashes out)
