-- ===== src/Agent/Tools.antt =====
-- crates/studio-server/src/agent_loop.rs: the tools, behind the guards of Policy.antt.
pub mod Effects
use cobrust_studio.Agent.System.{
  Metadata, FileKind, dir, file, symlink, other, Output, ProcessError, timed_out, not_run, System,
  Effect, wrote, removed, ran, Answer, value, failed, panicked, World, Tool, ◌>>=◌, ◌>>◌, give,
  refuse, lift, ask, act,
}
use mathlib.Core.List.{reverse}
use cobrust_studio.Base.{
  ℕ, zero, suc, ◌+◌, min, Bool, true, false, not, ◌&&◌, ◌||◌, Option, none, some, List, [], ◌∷◌,
  ◌++◌, map, Text, String, codes, trim, is_empty, is_whitespace, eq_text, lt_text, len, length, leb,
  ltb, any, contains_text, Result, ok, err, ok_or, refuse_if, if◌then◌else◌,
}
use cobrust_studio.Json.{
  Value, null, bool, number, string, array, object, pos_int, end, field, get, as_str, as_u64,
  as_array, of_list,
}
use cobrust_studio.Host.{FilePath}
use cobrust_studio.Router.Policy.{sort_by}
use cobrust_studio.Agent.Policy.{ToolCall, ToolExecutionError, tool_error, admit}
use cobrust_studio.Agent.Output.{truncate_output}
use cobrust_studio.Agent.Directive.{then_some}
use cobrust_studio.Agent.Paths.{Links, resolve_existing, resolve_write_path, checked_relative_path}

abbrev pub max_file_bytes : ℕ
max_file_bytes = 1048576

abbrev pub max_tree_entries : ℕ
max_tree_entries = 10000

abbrev default_shell_timeout_ms : ℕ
default_shell_timeout_ms = 30000

abbrev max_shell_timeout_ms : ℕ
max_shell_timeout_ms = 300000

pub join : List Text → Text
join [] = []
join (p ∷ []) = p
join (p ∷ q ∷ rest) = p ++ b'/' ∷ join (q ∷ rest)

-- `Path::strip_prefix`
pub strip_path : FilePath → FilePath → Option FilePath
strip_path [] p = some p
strip_path (r ∷ root) [] = none
strip_path (r ∷ root) (c ∷ p) = if eq_text r c then strip_path root p else none

-- `split_whitespace().any(|word| word == "sudo")`, with the word read so far, reversed
has_word : Text → Text → Text → Bool
has_word word so_far [] = eq_text (reverse so_far) word
has_word word so_far (c ∷ s) =
    if is_whitespace c
    then eq_text (reverse so_far) word || has_word word [] s
    else has_word word (c ∷ so_far) s

-- `should_skip_tree_entry`
pub should_skip_tree_entry : Text → Bool
should_skip_tree_entry name =
    contains_text name
      (codes ".git" ∷ codes "target" ∷ codes "node_modules" ∷ codes ".svelte-kit" ∷ [])

-- `optional_string` and `required_string`
optional_string : Value → Text → Option Text
unfolding then_some
optional_string input key = then_some (get key input) as_str

required_from : Text → Option Text → Result ToolExecutionError Text
required_from key none = err (tool_error "invalid_input" (key ++ codes " must be a string"))
required_from key (some s) = ok s

required_string : Value → Text → Result ToolExecutionError Text
unfolding required_from
required_string input key = required_from key (optional_string input key)

pub or_default : {A : Type 0} → Option A → A → A
or_default none d = d
or_default (some a) d = a

-- the JSON object of an execution
outcome_value : Option Text → Option Text → Value → Option Value
outcome_value (some out) (some errs) exit = some (
    object (
      field (codes "exit_code") exit
        (field (codes "stdout") (string out) (field (codes "stderr") (string errs) end))))
outcome_value none errs exit = none
outcome_value (some out) none exit = none

or_panic : Option Value → Answer Value
or_panic none = panicked
or_panic (some v) = value v

-- the end of `run_shell` and of `run_command`
process_answer : Result ProcessError Output → Answer Value
unfolding outcome_value or_panic
process_answer (err timed_out) = failed (tool_error "timeout" (codes "command timed out"))
process_answer (err (not_run m)) = failed (tool_error "process_error" m)
process_answer (ok o) =
    or_panic (outcome_value (truncate_output o.stdout) (truncate_output o.stderr) o.exit_code)

tracks_answer : Result ProcessError Output → Answer Bool
tracks_answer (err timed_out) = failed (tool_error "process_error" [])
tracks_answer (err (not_run m)) = failed (tool_error "process_error" m)
tracks_answer (ok o) = value o.success

entry_value : Text × FileKind → Value
entry_value (name, kind) =
    object (field (codes "name") (string name) (field (codes "kind") (string (kind_name kind)) end))
  where
    kind_name : FileKind → Text
    kind_name dir = codes "dir"
    kind_name file = codes "file"
    kind_name symlink = codes "symlink"
    kind_name other = codes "other"

-- the arguments of `git diff` that the loop over `paths` adds
diff_paths : List Value → Result ToolExecutionError (List Text)
diff_paths [] = ok []
diff_paths (v ∷ vs) = elim (as_str v) [
  | none ↦ err (tool_error "invalid_input" (codes "paths must be strings"))
  | some path ↦ elim (checked_relative_path path) [
    | err e ↦ err e
    | ok rel ↦ map_ok rel (diff_paths vs)
  ]
]
  where
    map_ok : Text → Result ToolExecutionError (List Text) → Result ToolExecutionError (List Text)
    map_ok rel (ok rest) = ok (rel ∷ rest)
    map_ok rel (err e) = err e

diff_arguments : Option (List Value) → Result ToolExecutionError (List Text)
diff_arguments none = ok []
diff_arguments (some paths) = diff_paths paths

module _ (sys : System) (project_root : FilePath) where
  open sys use {W, canonicalize, metadata, read, read_dir, write, remove_file, output}

  abbrev pub at : W → Links
  at w = record { canonicalize = λ p. canonicalize p w }

  relative_text : FilePath → Option FilePath → Text
  relative_text path none = b'/' ∷ join path
  relative_text path (some p) = b'/' ∷ join p

  displayed : FilePath → Result Text FilePath → Text
  unfolding relative_text strip_path
  displayed path (err e) = b'/' ∷ join path
  displayed path (ok root) = relative_text path (strip_path root path)

  -- `display_relative`
  display_relative : FilePath → W → Text
  unfolding displayed
  display_relative path w = displayed path (canonicalize project_root w)

  existing : Text → Tool sys FilePath
  existing path s = lift (resolve_existing (at s.outside) project_root path) s

  writable : Text → Tool sys FilePath
  writable path s = lift (resolve_write_path (at s.outside) project_root path) s

  shown : FilePath → (Text → Value) → Tool sys Value
  unfolding display_relative
  shown path f s = (value (f (display_relative path s.outside)), s)

  text_or_refuse : Option Text → Tool sys Text
  text_or_refuse bytes =
      lift (ok_or bytes (tool_error "non_utf8" (codes "file is not valid UTF-8")))

  refuse_when : Bool → String → String → Tool sys (Unit {0})
  refuse_when b c m = lift (refuse_if b (tool_error c (codes m)))

  -- `fs_read`
  pub fs_read : Value → Tool sys Value
  unfolding existing shown text_or_refuse refuse_when required_string
  fs_read input = do
    path ← lift (required_string input (codes "path"))
    resolved ← existing path
    meta ← ask (metadata resolved)
    refuse_when (not meta.is_file) "not_file" "path is not a file"
    refuse_when (ltb max_file_bytes meta.size) "file_too_large" "file exceeds 1 MiB cap"
    bytes ← ask (read resolved)
    content ← text_or_refuse bytes
    shown resolved
        λ p. object (field (codes "path") (string p) (field (codes "content") (string content) end))

  -- `fs_list`
  pub fs_list : Value → Tool sys Value
  unfolding existing shown or_default optional_string entry_value
  fs_list input = do
    resolved ← existing (or_default (optional_string input (codes "dir")) (codes "/"))
    entries ← ask (read_dir resolved)
    shown resolved λ p. object (
        field (codes "dir") (string p) (
          field (codes "entries")
            (array (of_list (map entry_value (sort_by (λ a b. lt_text b.0 a.0) entries)))) end))

  -- `run_command`, with its timeout
  run_command : List Text → Tool sys Value
  unfolding process_answer
  run_command args s =
      let (r, w) =
        output (codes "git") args project_root (some default_shell_timeout_ms) s.outside in
      (
        process_answer r,
        record { outside = w; effects = s.effects ++ ran (codes "git") args project_root ∷ [] },
      )

  -- `git_status`
  pub git_status : Tool sys Value
  unfolding run_command
  git_status = run_command (codes "status" ∷ codes "--porcelain=v1" ∷ codes "--branch" ∷ [])

  -- `git_diff`
  pub git_diff : Value → Tool sys Value
  unfolding run_command diff_arguments
  git_diff input = do
    rels ← lift (diff_arguments (then_some (get (codes "paths") input) as_array))
    run_command (codes "diff" ∷ codes "--" ∷ rels)

  -- `git_tracks_path`
  git_tracks_path : FilePath → Tool sys Bool
  unfolding tracks_answer strip_path
  git_tracks_path path = do
    root ← ask (canonicalize project_root)
    rel ← lift (
        ok_or (strip_path root path)
          (tool_error "path_escape" (codes "path is outside project root")))
    λ s.
        let args = codes "ls-files" ∷ codes "--error-unmatch" ∷ codes "--" ∷ join rel ∷ [] in
        let (r, w) = output (codes "git") args root none s.outside in
        (
          tracks_answer r,
          record { outside = w; effects = s.effects ++ ran (codes "git") args root ∷ [] },
        )

  -- `fs_write`
  pub fs_write : Value → Tool sys Value
  unfolding writable shown refuse_when required_string
  fs_write input = do
    path ← lift (required_string input (codes "path"))
    content ← lift (required_string input (codes "content"))
    refuse_when (ltb max_file_bytes (len content)) "file_too_large" "content exceeds 1 MiB cap"
    resolved ← writable path
    act (wrote resolved content) (write resolved content)
    shown resolved λ p. object (
        field (codes "path") (string p)
          (field (codes "bytes") (number (pos_int (len content))) end))

  -- `fs_delete`
  pub fs_delete : Value → Tool sys Value
  unfolding existing shown refuse_when required_string git_tracks_path
  fs_delete input = do
    path ← lift (required_string input (codes "path"))
    resolved ← existing path
    meta ← ask (metadata resolved)
    refuse_when (not meta.is_file) "not_file" "fs.delete only deletes files"
    tracked ← git_tracks_path resolved
    refuse_when tracked "tracked_file_refused" "refusing to delete a git-tracked file"
    act (removed resolved) (remove_file resolved)
    shown resolved
        λ p. object (field (codes "path") (string p) (field (codes "deleted") (bool true) end))

  -- the directory of `shell_exec`
  shell_directory : Option Text → Tool sys FilePath
  unfolding existing refuse_when
  shell_directory none = ask (canonicalize project_root)
  shell_directory (some cwd) = do
    resolved ← existing cwd
    meta ← ask (metadata resolved)
    refuse_when (not meta.is_dir) "not_dir" "cwd is not a directory"
    give resolved

  -- `run_shell`
  run_shell : Text → FilePath → ℕ → Tool sys Value
  unfolding process_answer
  run_shell cmd cwd timeout_ms s =
      let args = codes "-c" ∷ cmd ∷ [] in
      let (r, w) = output (codes "sh") args cwd (some timeout_ms) s.outside in
      (
        process_answer r,
        record { outside = w; effects = s.effects ++ ran (codes "sh") args cwd ∷ [] },
      )

  -- `shell_exec`
  pub shell_exec : Value → Tool sys Value
  unfolding shell_directory run_shell required_string optional_string refuse_when has_word
      or_default
  shell_exec input = do
    cmd ← lift (required_string input (codes "cmd"))
    refuse_when (is_empty (trim cmd)) "invalid_input" "cmd must be non-empty"
    refuse_when (has_word (codes "sudo") [] cmd) "sudo_refused" "sudo is not allowed"
    cwd ← shell_directory (optional_string input (codes "cwd"))
    run_shell cmd cwd (
        min
          (or_default (then_some (get (codes "timeout_ms") input) as_u64) default_shell_timeout_ms)
          max_shell_timeout_ms)
