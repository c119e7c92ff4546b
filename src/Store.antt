-- ===== src/Store.antt =====
-- crates/studio-store: the errors of the store and its parts. SQLite is a parameter, part by part: each
-- interface has the statements that the code runs as operations, what a statement does to the rows as
-- laws, and a statement that fails changes no row.
pub mod Session
pub mod Slug
pub mod Markdown
pub mod Documents
pub mod Yaml
pub mod Adr
pub mod Finding
pub mod View
pub mod Watch
pub mod Root
use cobrust_studio.Base.{ℕ, Bool, true, false, Text}
use cobrust_studio.Host.{FilePath}

-- `StoreError`; the error of a library is its message
pub data StoreError : Type 0 where
  io : FilePath → Text → StoreError
  frontmatter : FilePath → Text → StoreError
  ledger_parse : FilePath → ℕ → Text → StoreError
  sqlite : Text → StoreError
  store_not_found : Text → StoreError
  already_exists : Text → StoreError
  missing_frontmatter : FilePath → StoreError
  watcher : Text → StoreError
  invalid_input : Text → StoreError

-- `StoreError::is_not_found`
unfoldable pub is_not_found : StoreError → Bool
is_not_found (store_not_found m) = true
is_not_found (io p m) = false
is_not_found (frontmatter p m) = false
is_not_found (ledger_parse p n m) = false
is_not_found (sqlite m) = false
is_not_found (already_exists m) = false
is_not_found (missing_frontmatter p) = false
is_not_found (watcher m) = false
is_not_found (invalid_input m) = false
