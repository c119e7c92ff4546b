-- ===== src/Agent/Paths.antt =====
-- crates/studio-server/src/agent_loop.rs: the paths that the file tools accept. `canonicalize`, which
-- follows symbolic links, is the file system's, and a parameter. Paths are Unix paths.
pub mod Inside
use cobrust_studio.Base.{
  ℕ, Bool, true, false, not, ◌&&◌, ◌||◌, Option, none, some, List, [], ◌∷◌, ◌++◌, ◌≡◌, ◌≢◌, ◌⊎◌,
  inl, inr, refl, sym, ap, ◌∙◌, arith, Text, String, codes, trim, strip_prefix, is_empty, eq_text,
  eq_text_iff, Result, ok, err, ◌>>=◌, ◌>>◌, refuse_if, ◌==◌, if◌then◌else◌, Bool-cases, All,
  >>=-eq-ok, >>-eq-ok, ok_injective, map_err, ok_or,
}
use mathlib.Core.Path.{subst}
use cobrust_studio.Host.{FilePath}
use cobrust_studio.Agent.Policy.{ToolExecutionError, tool_error}

-- `std::path::Component`; a Unix path has no prefix
pub data Component : Type 0 where
  root_dir cur_dir parent_dir : Component
  normal : Text → Component

cons_head : ℕ → List Text → List Text
cons_head c [] = (c ∷ []) ∷ []
cons_head c (s ∷ ss) = (c ∷ s) ∷ ss

-- the pieces of a text between its slashes
unfoldable pub segments : Text → List Text
unfolding cons_head
segments [] = [] ∷ []
segments (c ∷ s) = if c == b'/' then [] ∷ segments s else cons_head c (segments s)

-- A piece behind the first: empty pieces and `.` are passed over.
later_component : Text → Option Component
later_component s =
    if is_empty s || eq_text s (codes ".")
    then none
    else if eq_text s (codes "..")
    then some parent_dir
    else some (normal s)

cons_some : {A : Type 0} → Option A → List A → List A
cons_some none xs = xs
cons_some (some x) xs = x ∷ xs

later_components : List Text → List Component
later_components [] = []
later_components (s ∷ ss) = cons_some (later_component s) (later_components ss)

-- The first piece is empty in a path from the root, and a `.` there is kept.
first_component : Text → Option Component
first_component s = if eq_text s (codes ".") then some cur_dir else later_component s

components_of : List Text → List Component
components_of [] = []
components_of (s ∷ []) = cons_some (first_component s) []
components_of (s ∷ t ∷ ss) =
    cons_some (if is_empty s then some root_dir else first_component s) (later_components (t ∷ ss))

-- `Path::components`
unfoldable pub components : Text → List Component
unfolding components_of first_component later_components later_component cons_some segments
components s = components_of (segments s)

is_inside : Component → Bool
is_inside cur_dir = true
is_inside (normal s) = true
is_inside parent_dir = false
is_inside root_dir = false

abbrev escape : ToolExecutionError
escape = tool_error "path_escape" (codes "path traversal is not allowed")

-- the loop over the components
check_components : List Component → Result ToolExecutionError (Unit {0})
check_components [] = ok tt
check_components (c ∷ cs) = refuse_if (not (is_inside c)) escape >> check_components cs

stripped : Text → Option Text → Text
stripped s none = s
stripped s (some rest) = rest

-- the path relative to the root that an input stands for
relative : Text → Text
unfolding stripped
relative input =
    let trimmed = trim input in
    if is_empty trimmed || eq_text trimmed (codes "/")
    then codes "."
    else stripped trimmed (strip_prefix (codes "/") trimmed)

-- `checked_relative_path`
unfoldable pub checked_relative_path : Text → Result ToolExecutionError Text
unfolding check_components is_inside relative
checked_relative_path input = do check_components (components (relative input)); ok (relative input)

-- the names of a relative path, behind which `Path::join` sets it
names : List Component → FilePath
names [] = []
names (normal s ∷ cs) = s ∷ names cs
names (c ∷ cs) = names cs

-- `Path::starts_with`
unfoldable pub starts_with : FilePath → FilePath → Bool
starts_with path [] = true
starts_with [] (r ∷ root) = false
starts_with (p ∷ path) (r ∷ root) = eq_text p r && starts_with path root

split_last : FilePath → Option (FilePath × Text)
split_last [] = none
split_last (p ∷ []) = some ([], p)
split_last (p ∷ q ∷ rest) = elim (split_last (q ∷ rest)) [
  | none ↦ none
  | some (parent, name) ↦ some (p ∷ parent, name)
]

-- the file system's `canonicalize`, at one moment: its path without links, or the error's message
pub record Links : Type 0 where
  pub canonicalize : FilePath → Result Text FilePath

module _ (links : Links) where
  canonical : FilePath → Result ToolExecutionError FilePath
  canonical p = map_err (tool_error "fs_error") (links.canonicalize p)

  outside : ToolExecutionError
  outside = tool_error "path_escape" (codes "path is outside project root")

  -- `resolve_existing`
  unfoldable pub resolve_existing : FilePath → Text → Result ToolExecutionError FilePath
  unfolding canonical outside names
  resolve_existing project_root input = do
    root ← canonical project_root
    rel ← checked_relative_path input
    resolved ← canonical (root ++ names (components rel))
    refuse_if (not (starts_with resolved root)) outside
    ok resolved

  -- `resolve_write_path`: only the parent is followed, the file need not exist
  unfoldable pub resolve_write_path : FilePath → Text → Result ToolExecutionError FilePath
  unfolding canonical outside names split_last
  resolve_write_path project_root input = do
    root ← canonical project_root
    rel ← checked_relative_path input
    place ←
        ok_or (split_last (root ++ names (components rel)))
          (tool_error "invalid_path" (codes "path has no parent"))
    parent ← canonical place.0
    refuse_if (not (starts_with parent root)) outside
    ok (parent ++ place.1 ∷ [])
