-- ===== src/Store/Root/Synced.antt =====
-- What a store has that crates/studio-store/src/lib.rs has opened.
use cobrust_studio.Base.{◌≡◌, List, Result, ok}
use cobrust_studio.Host.{FilePath, IoError}
use cobrust_studio.Store.Session.{Bytes}
use cobrust_studio.Store.Markdown.{lines}
use cobrust_studio.Store.Documents.{IsTable}
use cobrust_studio.Store.Documents.Reindex.{last_row, reindex-last_row}
use cobrust_studio.Store.View.{IsView}
use cobrust_studio.Store.View.Sync.{rows_of, sync_from_jsonl-rows}
use cobrust_studio.Steps.{behind-ok}
use cobrust_studio.Store.Root.{
  Parts, Project, StoreInner, inner_of, make_dir, reindex_adr, reindex_finding, sync_ledger,
  migrate, load, open_store,
}

-- What the laws of the tables are.
pub record AreTables (parts : Parts) : Type 0 where
  pub adr_table : IsTable parts.adr_kind parts.adr_system
  pub finding_table : IsTable parts.finding_kind parts.finding_system
  pub view_table : IsView parts.view

-- What the files were when a store was opened: the listings of the two directories and the bytes of the
-- ledger.
pub record Files (parts : Parts) (inner : StoreInner) (p : Project parts) : Type 0 where
  pub adrs : List (Result IoError FilePath)
  pub findings : List (Result IoError FilePath)
  pub bytes : Bytes
  pub adrs_listed : parts.adr_system.listing p.adr inner.adr_dir ≡ ok adrs
  pub findings_listed : parts.finding_system.listing p.finding inner.finding_dir ≡ ok findings
  pub bytes_read : parts.view.read_bytes inner.ledger_jsonl_path ≡ ok bytes

-- The indexes have, for every id, the row of the last document with this id, and the view has the rows of
-- the entries of the ledger.
abbrev pub IsSynced :
    (parts : Parts) (inner : StoreInner) (p : Project parts)
    → Files parts inner p
    → Project parts
    → Type 0
IsSynced parts inner p files t =
    ((id : parts.adr_kind.Key)
      → parts.adr_system.rows t.adr id
        ≡ last_row parts.adr_kind (parts.adr_system.reads p.adr) (parts.adr_system.mtime_ns p.adr)
            id files.adrs)
    × ((id : parts.finding_kind.Key)
        → parts.finding_system.rows t.finding id
          ≡ last_row parts.finding_kind (parts.finding_system.reads p.finding)
              (parts.finding_system.mtime_ns p.finding) id files.findings)
    × (parts.view.rows t.db ≡ rows_of parts.view (lines (parts.view.lossy files.bytes)))

module _ (parts : Parts) (tables : AreTables parts) where
  load-IsSynced :
      (inner : StoreInner) (p : Project parts) (files : Files parts inner p) {r : StoreInner}
      → (load parts inner p).0 ≡ ok r
      → IsSynced parts inner p files (load parts inner p).1
  unfolding load reindex_adr reindex_finding sync_ledger
  load-IsSynced inner p files h =
      behind-ok (IsSynced parts inner p files) (reindex_adr parts inner.adr_dir) _ p h λ u h1 rest.
        behind-ok (IsSynced parts inner p files) (reindex_finding parts inner.finding_dir) _ _ rest
          λ v h2 rest2.
            behind-ok (IsSynced parts inner p files) (sync_ledger parts inner.ledger_jsonl_path) _ _
              rest2
              λ n h3 rest3. (
                (λ id.
                    reindex-last_row parts.adr_kind parts.adr_system tables.adr_table inner.adr_dir
                      files.adrs p.adr id files.adrs_listed h1),
                (λ id.
                    reindex-last_row parts.finding_kind parts.finding_system tables.finding_table
                      inner.finding_dir files.findings p.finding id files.findings_listed h2),
                (sync_from_jsonl-rows parts.view tables.view_table inner.ledger_jsonl_path
                    files.bytes p.db n files.bytes_read h3).0,
              )

  -- A store that was opened, on directories that could be listed and a ledger that could be read, has in
  -- its indexes, for every id, the row of the last document with this id, and in its view the rows of the
  -- entries of the ledger, whatever they had before.
  pub open_store-IsSynced :
      (root : FilePath) (p : Project parts) (files : Files parts (inner_of root) p) {r : StoreInner}
      → (open_store parts root p).0 ≡ ok r
      → IsSynced parts (inner_of root) p files (open_store parts root p).1
  unfolding open_store make_dir migrate
  open_store-IsSynced root p files h =
      let Q = IsSynced parts (inner_of root) p files in
      behind-ok Q _ _ p h λ a h1 rest1. behind-ok Q _ _ p rest1 λ b h2 rest2.
        behind-ok Q _ _ p rest2 λ c h3 rest3. behind-ok Q _ _ p rest3 λ d h4 rest4.
          behind-ok Q _ _ p rest4 λ e h5 rest5. load-IsSynced (inner_of root) p files rest5
