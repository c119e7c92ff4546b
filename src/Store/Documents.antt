-- ===== src/Store/Documents.antt =====
-- What crates/studio-store/src/adr.rs and crates/studio-store/src/finding.rs have in common: documents
-- in a directory, and an index of them in SQLite. The file system and the table are parameters.
pub mod Reindex
pub mod Created
use cobrust_studio.Base.{
  ℕ, ◌==◌, ◌≡◌, Bool, true, false, not, ◌&&◌, ◌||◌, List, [], ◌∷◌, ◌++◌, Option, none, some, Text,
  codes, eq_text, is_empty, Result, ok, err, map_err, if◌then◌else◌, any,
}
use cobrust_studio.Host.{FilePath, IoError, not_found, io_failed}
use cobrust_studio.Store.{StoreError, io, sqlite, already_exists}
use cobrust_studio.Steps.{Steps, ◌>>=◌, ◌>>◌, lift}

-- The kind of a document: its parser, its id, and its row in the index.
pub record Kind : Type 1 where
  pub Key : Type 0
  pub Doc : Type 0
  pub Row : Type 0
  pub eq_id : Key → Key → Bool
  pub parse : FilePath → Text → Result StoreError Doc
  pub id_of : Doc → Key
  -- with the time of the file's last change
  pub row_of : Doc → ℕ → Row

-- The system: reading is by the state, writing and the statements change it. `rows` is the table.
pub record System (kind : Kind) : Type 1 where
  pub W : Type 0
  pub reads : W → FilePath → Result IoError Text
  pub exists : W → FilePath → Result IoError Bool
  pub listing : W → FilePath → Result IoError (List (Result IoError FilePath))
  -- `mtime_ns_of`
  pub mtime_ns : W → FilePath → Option ℕ
  pub write : FilePath → Text → W → Result IoError (Unit {0}) × W
  pub io_text : IoError → Text
  pub rows : W → kind.Key → Option kind.Row
  pub select_path : kind.Key → W → Result Text (Option FilePath)
  pub upsert : kind.Key → kind.Row → W → Result Text (Unit {0}) × W
  pub delete_all : W → Result Text (Unit {0}) × W
  pub delete_not_in : List kind.Key → W → Result Text (Unit {0}) × W

-- What the statements do where they succeed.
pub record IsTable (kind : Kind) (system : System kind) : Type 0 where
  pub upsert_rows :
      (key other : kind.Key) (row : kind.Row) (w : system.W)
      → (system.upsert key row w).0 ≡ ok tt
      → system.rows (system.upsert key row w).1 other
        ≡ (if kind.eq_id other key then some row else system.rows w other)
  pub upsert_reads :
      (key : kind.Key) (row : kind.Row) (w : system.W)
      → system.reads (system.upsert key row w).1 ≡ system.reads w
  pub upsert_mtime_ns :
      (key : kind.Key) (row : kind.Row) (w : system.W)
      → system.mtime_ns (system.upsert key row w).1 ≡ system.mtime_ns w
  pub delete_all_rows :
      (other : kind.Key) (w : system.W)
      → (system.delete_all w).0 ≡ ok tt
      → system.rows (system.delete_all w).1 other ≡ none
  pub delete_not_in_rows :
      (keep : List kind.Key) (other : kind.Key) (w : system.W)
      → (system.delete_not_in keep w).0 ≡ ok tt
      → system.rows (system.delete_not_in keep w).1 other
        ≡ (if any (kind.eq_id other) keep then system.rows w other else none)

last_dot_from : ℕ → Text → Option (Text × Text) → Option (Text × Text)
last_dot_from c s (some (before, after)) = some (c ∷ before, after)
last_dot_from c s none = if c == b'.' then some ([], s) else none

-- the texts before and after the last dot
last_dot : Text → Option (Text × Text)
unfolding last_dot_from
last_dot [] = none
last_dot (c ∷ s) = last_dot_from c s (last_dot s)

stem_of : Text → Option (Text × Text) → Text × Option Text
stem_of name none = (name, none)
stem_of name (some ([], after)) = (name, none)
stem_of name (some (c ∷ before, after)) = (c ∷ before, some after)

-- `Path::file_stem` and `Path::extension`, of a last part that is a name
unfoldable pub split_name : FilePath → Text × Option Text
unfolding stem_of last_dot
split_name [] = ([], none)
split_name (c ∷ []) = stem_of c (last_dot c)
split_name (c ∷ d ∷ p) = split_name (d ∷ p)

starts_underscore : Text → Bool
starts_underscore [] = false
starts_underscore (c ∷ s) = c == b'_'

is_md : Option Text → Bool
is_md none = false
is_md (some e) = eq_text e (codes "md")

-- the files that `reindex` reads
unfoldable pub is_document : FilePath → Bool
unfolding split_name starts_underscore is_md
is_document path =
    let (stem, extension) = split_name path in
    is_md extension && not (starts_underscore stem || eq_text stem (codes "README"))

-- `EventKind` and `RawEvent` of crates/studio-store/src/watch.rs
pub data EventKind : Type 0 where
  create modify remove : EventKind

pub record RawEvent : Type 0 where
  pub path : FilePath
  pub kind : EventKind

-- `AdrChangeEvent`, and `FindingChangeEvent`
pub data ChangeEvent : Type 0 where
  added modified removed : FilePath → ChangeEvent

change_of : EventKind → FilePath → ChangeEvent
change_of create path = added path
change_of modify path = modified path
change_of remove path = removed path

-- `map_event_to_adr`
unfoldable pub map_event : RawEvent → Option ChangeEvent
unfolding change_of is_md
map_event e = if is_md (split_name e.path).1 then some (change_of e.kind e.path) else none

-- `mtime_ns_of(..).unwrap_or(0)`
mtime_or_zero : Option ℕ → ℕ
mtime_or_zero none = 0
mtime_or_zero (some t) = t

module _ (kind : Kind) (system : System kind) where
  open kind use {Key, Doc, Row, parse, id_of, row_of}
  open system use {
    W, reads, exists, listing, mtime_ns, write, io_text, select_path, upsert, delete_all,
    delete_not_in,
  }

  abbrev pub DocStep : Type 0 → Type 0
  DocStep A = Steps W StoreError A

  unfoldable pub io_error : FilePath → IoError → StoreError
  io_error path e = io path (io_text e)

  -- `upsert_index`, of a document that was parsed from a path
  upsert_index : FilePath → Doc → DocStep (Unit {0})
  unfolding mtime_or_zero
  upsert_index path doc w =
      let (r, w') = upsert (id_of doc) (row_of doc (mtime_or_zero (mtime_ns w path))) w in
      (map_err sqlite r, w')

  -- `prune_index`
  unfoldable pub prune_index : List Key → DocStep (Unit {0})
  prune_index [] w = let (r, w') = delete_all w in (map_err sqlite r, w')
  prune_index (i ∷ is) w = let (r, w') = delete_not_in (i ∷ is) w in (map_err sqlite r, w')

  index_parsed : FilePath → List Key → Result StoreError Doc → DocStep (List Key)
  unfolding upsert_index
  index_parsed path seen (err e) w = (ok seen, w)
  index_parsed path seen (ok doc) w =
      (upsert_index path doc >>= λ u. lift (ok (seen ++ id_of doc ∷ []))) w

  index_text : FilePath → List Key → Result IoError Text → DocStep (List Key)
  unfolding index_parsed io_error
  index_text path seen (err e) w = (err (io_error path e), w)
  index_text path seen (ok text) w = index_parsed path seen (parse path text) w

  -- the body of the loop
  index_path : FilePath → List Key → DocStep (List Key)
  unfolding index_text
  index_path path seen w =
      if is_document path then index_text path seen (reads w path) w else (ok seen, w)

  index_entries : FilePath → List (Result IoError FilePath) → List Key → DocStep (List Key)
  unfolding index_path io_error
  index_entries dir [] seen = lift (ok seen)
  index_entries dir (err e ∷ es) seen = lift (err (io_error dir e))
  index_entries dir (ok path ∷ es) seen = index_path path seen >>= index_entries dir es

  reindex_listing : FilePath → Result IoError (List (Result IoError FilePath)) → DocStep (Unit {0})
  unfolding index_entries prune_index io_error
  reindex_listing dir (ok entries) = index_entries dir entries [] >>= prune_index
  reindex_listing dir (err not_found) = lift (ok tt)
  reindex_listing dir (err (io_failed m)) = lift (err (io_error dir (io_failed m)))

  -- `reindex`
  unfoldable pub reindex : FilePath → DocStep (Unit {0})
  unfolding reindex_listing
  reindex dir w = reindex_listing dir (listing w dir) w

  get_text : FilePath → Result IoError Text → Result StoreError (Option Doc)
  unfolding io_error
  get_text path (err not_found) = ok none
  get_text path (err (io_failed m)) = err (io_error path (io_failed m))
  get_text path (ok text) = elim (parse path text) [ ok doc ↦ ok (some doc) | err e ↦ err e ]

  get_path : Result Text (Option FilePath) → W → Result StoreError (Option Doc)
  unfolding get_text
  get_path (err m) w = err (sqlite m)
  get_path (ok none) w = ok none
  get_path (ok (some path)) w = get_text path (reads w path)

  -- `get`
  unfoldable pub get : Key → W → Result StoreError (Option Doc)
  unfolding get_path
  get id w = get_path (select_path id w) w

  -- `try_exists`, and the refusal of a path that is taken
  refuse_existing : Text → Result StoreError Bool → Result StoreError (Unit {0})
  refuse_existing filename (err e) = err e
  refuse_existing filename (ok true) = err (already_exists filename)
  refuse_existing filename (ok false) = ok tt

  -- the part of `create` from the test of the file on
  unfoldable pub create_document : FilePath → Text → Text → DocStep Doc
  unfolding refuse_existing upsert_index io_error
  create_document path filename document =
      (λ w. (refuse_existing filename (map_err (io_error path) (exists w path)), w)) >>= λ u.
      (λ w. let (r, w') = write path document w in (map_err (io_error path) r, w')) >>= λ u.
      lift (parse path document) >>= λ parsed. upsert_index path parsed >>= λ u. lift (ok parsed)
