-- ===== src/Store/View.antt =====
-- crates/studio-store/src/ledger.rs: the materialized view of the router's ledger. The table
-- `ledger_view`, serde_json and the bytes of files are parameters.
pub mod Sync
pub mod Log
use cobrust_studio.Base.{
  ℕ, ◌+◌, ◌-◌, ◌^◌, ◌≡◌, ◌==◌, Bool, true, false, not, ◌&&◌, List, [], ◌∷◌, ◌++◌, Option, none,
  some, Text, String, codes, trim, is_empty, ltb, length, Result, ok, err, map_err, if◌then◌else◌,
}
use cobrust_studio.Config.{ProviderKind}
use cobrust_studio.Host.{FilePath, IoError, not_found, io_failed}
use cobrust_studio.Ledger.{LedgerEntry, Outcome}
use cobrust_studio.Store.{StoreError, io, sqlite, ledger_parse}
use cobrust_studio.Store.Session.{Bytes}
use cobrust_studio.Store.Markdown.{lines}
use cobrust_studio.Steps.{Steps, ◌>>=◌, ◌>>◌, lift}

-- a row of `ledger_view`
pub record ViewRow : Type 0 where
  pub ts : Text
  pub task_tag : Option Text
  pub provider : Text
  pub provider_kind : Option Text
  pub model : Text
  pub cache_key : Text
  pub cache_hit : ℕ
  pub prompt_tokens : ℕ
  pub completion_tokens : ℕ
  pub total_tokens : ℕ
  pub latency_ms : ℕ
  pub attempt : ℕ
  pub outcome : Text
  pub error_code : Option String
  pub raw_json : Text

-- The table, and the libraries. `rows` is the table, in the order of the row ids.
pub record ViewHost : Type 1 where
  pub Db : Type 0
  pub rows : Db → List ViewRow
  pub insert : ViewRow → Db → Result Text (Unit {0}) × Db
  pub delete_rows : Db → Result Text (Unit {0}) × Db
  -- the column `raw_json`, by time and then by row id, both downwards, cut at a number
  pub select_recent : ℕ → Db → Result Text (List Text)
  -- `COUNT(*)`
  pub count_rows : Db → Result Text ℕ
  pub db_path : FilePath
  pub to_json : LedgerEntry → Result Text Text
  pub from_json : Text → Result Text LedgerEntry
  -- the text of a value that is written as a JSON string
  pub kind_json : Option ProviderKind → Option Text
  pub outcome_json : Outcome → Option Text
  pub read_bytes : FilePath → Result IoError Bytes
  -- `String::from_utf8_lossy`
  pub lossy : Bytes → Text
  pub io_text : IoError → Text

-- What the statements do where they succeed.
pub record IsView (host : ViewHost) : Type 0 where
  pub insert_rows :
      (row : ViewRow) (db : host.Db)
      → (host.insert row db).0 ≡ ok tt
      → host.rows (host.insert row db).1 ≡ host.rows db ++ row ∷ []
  pub delete_rows_rows :
      (db : host.Db) → (host.delete_rows db).0 ≡ ok tt → host.rows (host.delete_rows db).1 ≡ []

or_ok : Option Text → Text
or_ok none = codes "ok"
or_ok (some s) = s

of_bool : Bool → ℕ
of_bool true = 1
of_bool false = 0

ends_line_feed : Bytes → Bool
ends_line_feed [] = false
ends_line_feed (b ∷ []) = b == 10
ends_line_feed (b ∷ c ∷ bs) = ends_line_feed (c ∷ bs)

module _ (host : ViewHost) where
  open host use {
    Db, insert, delete_rows, select_recent, count_rows, db_path, to_json, from_json, kind_json,
    outcome_json, read_bytes, lossy, io_text,
  }

  abbrev pub ViewStep : Type 0 → Type 0
  ViewStep A = Steps Db StoreError A

  row_of : LedgerEntry → Text → ViewRow
  unfolding or_ok of_bool
  row_of e raw = record {
    ts = e.ts;
    task_tag = e.task_tag;
    provider = e.provider;
    provider_kind = kind_json e.provider_kind;
    model = e.model;
    cache_key = e.cache_key;
    cache_hit = of_bool e.cache_hit;
    prompt_tokens = e.prompt_tokens;
    completion_tokens = e.completion_tokens;
    total_tokens = e.total_tokens;
    latency_ms = e.latency_ms;
    attempt = e.attempt;
    outcome = or_ok (outcome_json e.outcome);
    error_code = e.error_code;
    raw_json = raw;
  }

  insert_row : LedgerEntry → Text → ViewStep (Unit {0})
  unfolding row_of
  insert_row e raw db = let (r, db') = insert (row_of e raw) db in (map_err sqlite r, db')

  -- `append`
  unfoldable pub append : LedgerEntry → ViewStep (Unit {0})
  unfolding insert_row
  append e = do raw ← lift (map_err (ledger_parse db_path 0) (to_json e)); insert_row e raw

  read_all : List Text → Result StoreError (List LedgerEntry)
  read_all [] = ok []
  read_all (raw ∷ rest) =
      let later = read_all rest in
      elim (from_json raw) [
        | err e ↦ err (ledger_parse db_path 0 e)
        | ok entry ↦ elim later [ err e ↦ err e | ok entries ↦ ok (entry ∷ entries) ]
      ]

  read_rows : Result Text (List Text) → Result StoreError (List LedgerEntry)
  unfolding read_all
  read_rows (err m) = err (sqlite m)
  read_rows (ok raws) = read_all raws

  -- `recent`; the limit is an `i64`
  unfoldable pub recent : ℕ → Db → Result StoreError (List LedgerEntry)
  unfolding read_rows
  recent n db = read_rows (select_recent (if ltb n (2 ^ 63) then n else 2 ^ 63 - 1) db)

  -- `count`
  unfoldable pub count : Db → Result StoreError ℕ
  count db = map_err sqlite (count_rows db)

  -- `clear`
  unfoldable pub clear : ViewStep (Unit {0})
  clear db = let (r, db') = delete_rows db in (map_err sqlite r, db')

  -- a line that was read: whether the row that it gives is counted
  import_parsed : FilePath → Bool → ℕ → ℕ → ℕ → Result Text LedgerEntry → ViewStep ℕ
  unfolding append
  import_parsed path partial total line_no imported (ok entry) = do
    append entry
    lift (ok (imported + 1))
  import_parsed path partial total line_no imported (err source) =
      if partial && line_no == total
      then lift (ok imported)
      else lift (err (ledger_parse path line_no source))

  -- the body of the loop
  import_line : FilePath → Bool → ℕ → ℕ → ℕ → Text → ViewStep ℕ
  unfolding import_parsed
  import_line path partial total line_no imported line =
      if is_empty (trim line)
      then lift (ok imported)
      else import_parsed path partial total line_no imported (from_json line)

  import_lines : FilePath → Bool → ℕ → ℕ → ℕ → List Text → ViewStep ℕ
  unfolding import_line
  import_lines path partial total line_no imported [] = lift (ok imported)
  import_lines path partial total line_no imported (l ∷ ls) =
      import_line path partial total line_no imported l >>= λ n.
      import_lines path partial total (line_no + 1) n ls

  import_bytes : FilePath → Bytes → ViewStep ℕ
  unfolding import_lines clear ends_line_feed
  import_bytes path bytes = do
    clear
    let partial = not (is_empty bytes) && not (ends_line_feed bytes)
    import_lines path partial (length (lines (lossy bytes))) 1 0 (lines (lossy bytes))

  import_read : FilePath → Result IoError Bytes → ViewStep ℕ
  unfolding import_bytes
  import_read path (ok bytes) = import_bytes path bytes
  import_read path (err not_found) = lift (ok 0)
  import_read path (err (io_failed m)) = lift (err (io path (io_text (io_failed m))))

  -- `sync_from_jsonl`
  unfoldable pub sync_from_jsonl : FilePath → ViewStep ℕ
  unfolding import_read
  sync_from_jsonl path = import_read path (read_bytes path)
