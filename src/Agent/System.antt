-- ===== src/Agent/System.antt =====
-- What the tools of crates/studio-server/src/agent_loop.rs run on: the file system and the processes are
-- a parameter, and what a tool does to them is kept as a list of effects: a file written, a file
-- removed, a program run. A tool can panic, since the cut of a program's output can.
use cobrust_studio.Base.{ℕ, Bool, Option, List, [], ◌∷◌, ◌++◌, Text, String, codes, Result, ok, err}
use cobrust_studio.Json.{Value}
use cobrust_studio.Host.{FilePath}
use cobrust_studio.Agent.Policy.{ToolExecutionError, tool_error}

pub record Metadata : Type 0 where
  pub is_file : Bool
  pub is_dir : Bool
  pub size : ℕ

pub data FileKind : Type 0 where
  dir file symlink other : FileKind

pub record Output : Type 0 where
  pub exit_code : Value
  pub success : Bool
  pub stdout : Text
  pub stderr : Text

pub data ProcessError : Type 0 where
  timed_out : ProcessError
  not_run : Text → ProcessError

-- The files and the processes: an error is its message, and `read` gives `none` for what is no UTF-8.
pub record System : Type 1 where
  pub W : Type 0
  pub canonicalize : FilePath → W → Result Text FilePath
  pub metadata : FilePath → W → Result Text Metadata
  pub read : FilePath → W → Result Text (Option Text)
  pub read_dir : FilePath → W → Result Text (List (Text × FileKind))
  pub write : FilePath → Text → W → Result Text (Unit {0}) × W
  pub remove_file : FilePath → W → Result Text (Unit {0}) × W
  -- a program, its arguments, its directory, and the timeout if it has one
  pub output : Text → List Text → FilePath → Option ℕ → W → Result ProcessError Output × W

pub data Effect : Type 0 where
  wrote : FilePath → Text → Effect
  removed : FilePath → Effect
  ran : Text → List Text → FilePath → Effect

pub data Answer (A : Type 0) : Type 0 where
  value : A → Answer A
  failed : ToolExecutionError → Answer A
  panicked : Answer A

-- a call of the file system, its error as `fs_error`
abbrev pub fs_result : {A : Type 0} → Result Text A → Answer A
fs_result (ok a) = value a
fs_result (err m) = failed (tool_error "fs_error" m)

abbrev pub tool_result : {A : Type 0} → Result ToolExecutionError A → Answer A
tool_result (ok a) = value a
tool_result (err e) = failed e

module _ (sys : System) where
  open sys use {W}

  pub record World : Type 0 where
    pub outside : W
    pub effects : List Effect

  abbrev pub Tool : Type 0 → Type 0
  Tool A = World → Answer A × World

module _ {sys : System} where
  abbrev pub go_on : {A B : Type 0} → Answer A → (A → Tool sys B) → Tool sys B
  go_on (value a) f s = f a s
  go_on (failed e) f s = (failed e, s)
  go_on panicked f s = (panicked, s)

  infixl 5 ◌>>=◌ ◌>>◌
  unfoldable pub ◌>>=◌ : {A B : Type 0} → Tool sys A → (A → Tool sys B) → Tool sys B
  ◌>>=◌ m f s = let (r, s') = m s in go_on r f s'

  abbrev pub ◌>>◌ : {A B : Type 0} → Tool sys A → Tool sys B → Tool sys B
  m >> k = m >>= λ _. k

  abbrev pub give : {A : Type 0} → A → Tool sys A
  give a s = (value a, s)

  abbrev pub refuse : {A : Type 0} → String → String → Tool sys A
  refuse c m s = (failed (tool_error c (codes m)), s)

  -- a result that changes nothing
  abbrev pub lift : {A : Type 0} → Result ToolExecutionError A → Tool sys A
  lift r s = (tool_result r, s)

  abbrev pub ask : {A : Type 0} → (sys.W → Result Text A) → Tool sys A
  ask f s = (fs_result (f s.outside), s)

  abbrev pub act : {A : Type 0} → Effect → (sys.W → Result Text A × sys.W) → Tool sys A
  act e f s =
      let (r, w) = f s.outside in
      (fs_result r, record { outside = w; effects = s.effects ++ e ∷ [] })
