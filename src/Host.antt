-- ===== src/Host.antt =====
-- What the router runs on: the clock, the random numbers, the floats, the registered providers, and
-- the file system with the faults that an operation on it may meet. The providers, the clock and
-- the generator are parameters; a file is written, renamed and read as POSIX says, unless the
-- host's fault oracle fails the operation.
use cobrust_studio.Base.{
  ℕ, Bool, true, false, Option, none, some, List, [], ◌∷◌, Text, eq_text, eq_text_iff, Result, ◌≡◌,
  ◌↔◌, arith, ◌&&◌, if◌then◌else◌,
}
use cobrust_studio.Config.{ProviderKind}
use cobrust_studio.Provider.{CompletionRequest, CompletionResponse, LlmError}

-- `f64`, as far as the retry policy and the latency table compute with it
pub record Floats : Type 1 where
  pub F : Type 0
  pub infinity : F
  pub of_u64 : ℕ → F
  pub powi : F → ℕ → F
  pub times : F → F → F
  -- `a.mul_add(b, c)` is a * b + c
  pub mul_add : F → F → F → F
  pub at_most_zero : F → Bool
  pub as_u64 : F → ℕ
  -- `partial_cmp(..).unwrap_or(Equal)` says that the first is greater
  pub greater : F → F → Bool
  -- the constants 0.2 and 1.0 - 0.2 of the tracker
  pub alpha : F
  pub one_minus_alpha : F

-- A failed operation: its message, and how much a failed write had written, if it had opened the file.
pub record Fault : Type 0 where
  pub reason : Text
  pub written : Option ℕ

pub record Host : Type 1 where
  pub floats : Floats
  pub open floats use *
  -- the state of everything outside the program but the files
  pub W : Type 0
  pub complete : Text → CompletionRequest → W → Result LlmError CompletionResponse × W
  pub kind : Text → ProviderKind
  -- `Instant`, in nanoseconds
  pub now : W → ℕ
  pub sleep : ℕ → W → W
  pub now_rfc3339 : W → Text
  -- `gen_range(0.0..=max)`
  pub gen_range : F → W → F × W
  -- whether the next operation on a file fails
  pub fault : W → Option Fault × W
  -- the mode of a file that `write` creates
  pub created_mode : ℕ

abbrev pub FilePath : Type 0
FilePath = List Text

unfoldable pub eq_path : FilePath → FilePath → Bool
eq_path [] [] = true
eq_path [] (d ∷ t) = false
eq_path (c ∷ s) [] = false
eq_path (c ∷ s) (d ∷ t) = eq_text c d && eq_path s t

pub record File : Type 0 where
  pub content : Text
  pub mode : ℕ

abbrev pub Files : Type 0
Files = FilePath → Option File

-- the files, with one path bound to another file or to none
unfoldable pub bind : FilePath → Option File → Files → Files
unfolding eq_path
bind p f files q = if eq_path p q then f else files q

-- the mode that `write` leaves: that of the file it truncates
unfoldable pub mode_of : ℕ → Option File → ℕ
mode_of d none = d
mode_of d (some f) = f.mode

pub data IoError : Type 0 where
  not_found : IoError
  io_failed : Text → IoError

module _ (host : Host) where
  open host use {W, fault, created_mode}

  pub record Disk : Type 0 where
    pub world : W
    pub files : Files

pub eq_path_iff : (p q : FilePath) → (eq_path p q ≡ true) ↔ (p ≡ q)
unfolding eq_path
eq_path_iff [] [] = ground arith
eq_path_iff [] (d ∷ t) = ground arith
eq_path_iff (c ∷ s) [] = ground arith
eq_path_iff (c ∷ s) (d ∷ t) = ground (arith, eq_path_iff s t, eq_text_iff c d)
