-- ===== src/Ledger/Log.antt =====
-- crates/studio-router/src/ledger.rs: the file of the ledger, one JSON text on a line. serde_json and the
-- encoding of a text are parameters, and how far a write comes is an argument.
use cobrust_studio.Base.{ℕ, List, [], ◌∷◌, ◌++◌, Option, none, some, Text, Result, ok, err, take}
use cobrust_studio.Ledger.{LedgerEntry}
use cobrust_studio.Steps.{Steps, ◌>>=◌, ◌>>◌, lift}

abbrev pub Bytes : Type 0
Bytes = List ℕ

-- a file with its mode
pub record LogFile : Type 0 where
  pub content : Bytes
  pub mode : ℕ

-- What a `write_all` and the `flush` behind it come to: all of the bytes and the answer of the flush, or
-- an error behind some of the bytes.
pub data Written : Type 0 where
  whole : Result Text (Unit {0}) → Written
  torn : ℕ → Text → Written

opened : Option LogFile → LogFile
opened none = record { content = []; mode = 0o600 }
opened (some f) = f

-- `Ledger::open`: what the creation of the directory and the opening of the file come to, and the file
-- that is there
unfoldable pub open_log :
    Result Text (Unit {0}) → Result Text (Unit {0}) → Option LogFile → Result Text LogFile
unfolding opened
open_log (err why) usable file = err why
open_log (ok _) (err why) file = err why
open_log (ok _) (ok _) file = ok (opened file)

module _ (to_json : LedgerEntry → Result Text Text) (utf8 : Text → Bytes) where
  unfoldable pub write : Written → Bytes → Steps LogFile Text (Unit {0})
  write (whole flushed) line f = (flushed, record f { content = f.content ++ line })
  write (torn n why) line f = (err why, record f { content = f.content ++ take n line })

  -- `Ledger::append`
  unfoldable pub append_line : Written → LedgerEntry → Steps LogFile Text (Unit {0})
  unfolding write
  append_line w entry = do raw ← lift (to_json entry); write w (utf8 raw ++ 10 ∷ [])

  -- appends, one behind the other, up to the first that fails
  unfoldable pub append_lines : List (LedgerEntry × Written) → Steps LogFile Text (Unit {0})
  unfolding append_line
  append_lines [] = lift (ok tt)
  append_lines ((entry, w) ∷ more) = do append_line w entry; append_lines more
