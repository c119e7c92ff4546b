-- ===== src/Tests/Tools.antt =====
-- Runs of crates/studio-server/src/agent_loop.rs.
use cobrust_studio.Base.{
  ℕ, zero, suc, ◌*◌, ◌∙◌, ◌≡◌, ◌↔◌, refl, arith, true, false, none, some, List, [], ◌∷◌, ◌++◌, Text,
  codes, if◌then◌else◌, Result, ok, err, eq_text, trim, trim_start, trim_end, is_whitespace,
  contains_text, contains_char, set_insert, lt_text, len, len_utf8, replicate, strip_prefix,
}
use cobrust_studio.Json.{null, object, field, end, get, as_str, as_array}
use cobrust_studio.Host.{FilePath, eq_path}
use cobrust_studio.Agent.Policy.{
  is_known_tool, is_write_tool, tool_error, normalise_tools_allowed, admit, ToolCall,
  admit-normalise_tools_allowed,
}
use cobrust_studio.Agent.Output.{truncate_output}
use cobrust_studio.Agent.Directive.{
  Reader, tool_use, parse_agent_directive, parse_json_value, parse_tool_calls, unfenced, then_some,
  returns, panics,
}
use cobrust_studio.Agent.Directive.Panics.{parse_agent_directive_panics}
use cobrust_studio.Agent.Paths.{
  Links, resolve_existing, resolve_write_path, checked_relative_path, components, segments,
  starts_with,
}
use cobrust_studio.Agent.Paths.Inside.{
  IsInside, resolve_existing-IsInside, resolve_write_path-IsInside,
}

abbrev asked : List Text
asked = codes " fs.read" ∷ codes "" ∷ codes "fs.list" ∷ []

abbrev allowed : List Text
allowed = codes "fs.list" ∷ codes "fs.read" ∷ []

normalise_test : normalise_tools_allowed asked false ≡ ok allowed
unfolding normalise_tools_allowed is_known_tool is_write_tool contains_text eq_text codes trim
    set_insert lt_text
normalise_test = refl

admit-normalise_tools_allowed_example :
    (admit false allowed (codes "git.diff") ≡ ok tt)
    ↔ (contains_text (codes "git.diff") allowed ≡ true)
admit-normalise_tools_allowed_example =
    admit-normalise_tools_allowed asked false allowed (codes "git.diff") normalise_test

admit_test : admit true (codes "fs.write" ∷ []) (codes "fs.write") ≡ ok tt
unfolding admit is_known_tool is_write_tool contains_text eq_text codes
admit_test = refl

truncate_test : truncate_output (codes "done") ≡ some (codes "done")
unfolding truncate_output len len_utf8 codes
truncate_test = refl

len-replicate : (n c : ℕ) → len (replicate n c) ≡ n * len_utf8 c
unfolding len
len-replicate zero c = omega arith
len-replicate (suc n) c = omega (arith, len-replicate n c)

long_line : len (replicate 65535 b'a') ≡ 65535
unfolding len_utf8
long_line = len-replicate 65535 b'a' ∙ refl

-- a reader that knows one call of a tool, and nothing else
abbrev pub one_call : ToolCall
one_call = record { tool = codes "fs.list"; input = null }

-- serde_json, as far as `call` and `}x{` go
abbrev pub reader : Reader
reader = record {
  from_str = λ s.
      if eq_text s (codes "call") then some (object (field (codes "tool_call") null end)) else none;
  tool_call_of = λ v. some one_call;
}

call_test : parse_agent_directive reader (codes "call") ≡ returns (tool_use (one_call ∷ []))
unfolding parse_agent_directive parse_json_value parse_tool_calls then_some get as_str as_array trim
    eq_text codes
call_test = refl

parse_agent_directive_panics_example : parse_agent_directive reader (codes " }x{\n") ≡ panics
unfolding contains_char unfenced then_some trim trim_start trim_end is_whitespace eq_text codes
    strip_prefix
parse_agent_directive_panics_example =
    parse_agent_directive_panics reader (codes " }x{\n") [] (codes "x") [] refl refl refl refl refl
      refl refl refl

-- a file system with one link, from `/p/l` to `/p/d`
abbrev pub followed : FilePath → Result Text FilePath
followed p =
    if eq_path p (codes "p" ∷ codes "l" ∷ codes "f" ∷ [])
    then ok (codes "p" ∷ codes "d" ∷ codes "f" ∷ [])
    else if eq_path p (codes "p" ∷ codes "l" ∷ [])
    then ok (codes "p" ∷ codes "d" ∷ [])
    else ok p

abbrev pub links : Links
links = record { canonicalize = followed }

abbrev pub project : FilePath
project = codes "p" ∷ []

abbrev file : FilePath
file = codes "p" ∷ codes "d" ∷ codes "f" ∷ []

relative_test : checked_relative_path (codes " /l/f") ≡ ok (codes "l/f")
unfolding checked_relative_path components segments trim strip_prefix eq_text codes
relative_test = refl

escape_test :
    checked_relative_path (codes "a/../../b")
    ≡ err (tool_error "path_escape" (codes "path traversal is not allowed"))
unfolding checked_relative_path components segments trim strip_prefix eq_text codes tool_error
escape_test = refl

existing_test : resolve_existing links project (codes "l/f") ≡ ok file
unfolding resolve_existing checked_relative_path components segments trim strip_prefix eq_text codes
    eq_path starts_with
existing_test = refl

resolve_existing-IsInside_example :
    ((q : FilePath) × (followed q ≡ ok file)) × IsInside links project file
resolve_existing-IsInside_example =
    resolve_existing-IsInside links project (codes "l/f") file existing_test

write_test : resolve_write_path links project (codes "l/f") ≡ ok file
unfolding resolve_write_path checked_relative_path components segments trim strip_prefix eq_text
    codes eq_path starts_with
write_test = refl

resolve_write_path-IsInside_example :
    ((parent : FilePath) × (name : Text) × (file ≡ parent ++ name ∷ [])
      × ((q : FilePath) × (followed q ≡ ok parent))
      × IsInside links project parent)
    × IsInside links project file
resolve_write_path-IsInside_example =
    resolve_write_path-IsInside links project (codes "l/f") file write_test
