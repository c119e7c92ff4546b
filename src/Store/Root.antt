-- ===== src/Store/Root.antt =====
-- crates/studio-store/src/lib.rs: how a store is opened. The making of a directory, the connection to
-- SQLite and the schema are parameters, and so are the parts of the store; each has its own state.
pub mod Synced
use cobrust_studio.Base.{ℕ, List, [], ◌∷◌, ◌++◌, Text, codes, Result, ok, err, map_err}
use cobrust_studio.Host.{FilePath, IoError}
use cobrust_studio.Store.{StoreError, io, sqlite}
use cobrust_studio.Store.Documents.{Kind, System, reindex}
use cobrust_studio.Store.View.{ViewHost, sync_from_jsonl}
use cobrust_studio.Steps.{Steps, ◌>>=◌, ◌>>◌, lift}

-- `DATA_DIR_NAME`, `DB_FILE_NAME`, `ADR_DIR`, `FINDING_DIR` and `LEDGER_JSONL_PATH`, piece by piece
abbrev pub data_dir_name : Text
data_dir_name = codes ".cobrust-studio"

abbrev pub db_file_name : Text
db_file_name = codes "studio.db"

abbrev pub adr_dir_path : FilePath
adr_dir_path = codes "docs" ∷ codes "agent" ∷ codes "adr" ∷ []

abbrev pub finding_dir_path : FilePath
finding_dir_path = codes "docs" ∷ codes "agent" ∷ codes "findings" ∷ []

abbrev pub ledger_jsonl : FilePath
ledger_jsonl = data_dir_name ∷ codes "router" ∷ codes "ledger.jsonl" ∷ []

-- the paths of a store
pub record StoreInner : Type 0 where
  pub project_root : FilePath
  pub adr_dir : FilePath
  pub finding_dir : FilePath
  pub db_path : FilePath
  pub ledger_jsonl_path : FilePath

unfoldable pub inner_of : FilePath → StoreInner
inner_of root = record {
  project_root = root;
  adr_dir = root ++ adr_dir_path;
  finding_dir = root ++ finding_dir_path;
  db_path = root ++ data_dir_name ∷ db_file_name ∷ [];
  ledger_jsonl_path = root ++ ledger_jsonl;
}

-- What a store is opened on: the two kinds of documents, the view, and the outcomes of the rest.
pub record Parts : Type 1 where
  pub adr_kind : Kind
  pub adr_system : System adr_kind
  pub finding_kind : Kind
  pub finding_system : System finding_kind
  pub view : ViewHost
  pub create_dir_all : FilePath → Result IoError (Unit {0})
  pub connect : FilePath → Result Text (Unit {0})
  pub raw_sql : Result Text (Unit {0})
  pub io_text : IoError → Text

pub record Project (parts : Parts) : Type 0 where
  pub adr : parts.adr_system.W
  pub finding : parts.finding_system.W
  pub db : parts.view.Db

module _ (parts : Parts) where
  open parts use {
    adr_kind, adr_system, finding_kind, finding_system, view, create_dir_all, connect, raw_sql,
    io_text,
  }

  abbrev pub OpenStep : Type 0 → Type 0
  OpenStep A = Steps (Project parts) StoreError A

  make_dir : FilePath → OpenStep (Unit {0})
  make_dir path = lift (map_err (λ e. io path (io_text e)) (create_dir_all path))

  -- the three steps at the end of `open`, each on its part
  reindex_adr : FilePath → OpenStep (Unit {0})
  reindex_adr dir p =
      let (r, w) = reindex adr_kind adr_system dir p.adr in (r, record p { adr = w })

  reindex_finding : FilePath → OpenStep (Unit {0})
  reindex_finding dir p =
      let (r, w) = reindex finding_kind finding_system dir p.finding in
      (r, record p { finding = w })

  sync_ledger : FilePath → OpenStep ℕ
  sync_ledger path p = let (r, db) = sync_from_jsonl view path p.db in (r, record p { db = db })

  -- `migrate`
  migrate : OpenStep (Unit {0})
  migrate = lift (map_err sqlite raw_sql)

  -- the part of `open` behind the schema
  unfoldable pub load : StoreInner → OpenStep StoreInner
  unfolding reindex_adr reindex_finding sync_ledger
  load inner = do
    reindex_adr inner.adr_dir
    reindex_finding inner.finding_dir
    sync_ledger inner.ledger_jsonl_path
    lift (ok inner)

  -- `Store::open`
  unfoldable pub open_store : FilePath → OpenStep StoreInner
  unfolding make_dir migrate load inner_of
  open_store root = do
    make_dir (root ++ data_dir_name ∷ [])
    make_dir (inner_of root).adr_dir
    make_dir (inner_of root).finding_dir
    lift (map_err sqlite (connect (inner_of root).db_path))
    migrate
    load (inner_of root)
