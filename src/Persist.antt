-- ===== src/Persist.antt =====
-- crates/studio-server/src/persist.rs: the three backends that keep the passphrase over a restart. The
-- keychain is a parameter; the file is one path of a file system whose operations may fail.
pub mod File
use cobrust_studio.Base.{
  ℕ, ◌+◌, ◌%◌, ◌≡◌, Bool, true, false, not, Option, none, some, List, [], ◌∷◌, ◌++◌, Text, String,
  codes, Result, ok, err, map_err, take, ◌==◌, is_empty, if◌then◌else◌,
}
use cobrust_studio.Host.{Fault}
use cobrust_studio.Steps.{Steps, ◌>>=◌, ◌>>◌, lift}
use cobrust_studio.Store.Session.{Bytes}

pub data PersistBackend : Type 0 where
  no_backend keychain_backend file_backend : PersistBackend

pub data PersistError : Type 0 where
  keychain : Text → PersistError
  file_failed : Text → PersistError
  insecure_permissions : ℕ → PersistError
  invalid_file_type : String → PersistError
  not_configured : PersistError

-- the trait `PersistStore`, on the state of its backend
pub record PersistStore : Type 1 where
  pub P : Type 0
  pub save : Text → Steps P PersistError (Unit {0})
  pub load : Steps P PersistError (Option Text)
  pub clear : Steps P PersistError (Unit {0})

-- `NullStore`
unfoldable pub null_store : PersistStore
null_store = record {
  P = Unit {0};
  save = λ p s. (ok tt, s);
  load = λ s. (ok none, s);
  clear = λ s. (ok tt, s);
}

pub data KeyringError : Type 0 where
  no_entry : KeyringError
  keyring_failed : Text → KeyringError

-- an entry of the system's keychain
pub record Keyring : Type 1 where
  pub E : Type 0
  pub set_password : Text → E → Result KeyringError (Unit {0}) × E
  pub get_password : E → Result KeyringError Text × E
  pub delete_credential : E → Result KeyringError (Unit {0}) × E
  pub error_text : KeyringError → Text

module _ (keyring : Keyring) where
  open keyring use {E, set_password, get_password, delete_credential, error_text}

  key_found : Result KeyringError Text → Result PersistError (Option Text)
  key_found (ok p) = ok (some p)
  key_found (err no_entry) = ok none
  key_found (err (keyring_failed m)) =
      err (keychain (codes "get_password: " ++ error_text (keyring_failed m)))

  key_deleted : Result KeyringError (Unit {0}) → Result PersistError (Unit {0})
  key_deleted (ok u) = ok tt
  key_deleted (err no_entry) = ok tt
  key_deleted (err (keyring_failed m)) =
      err (keychain (codes "delete_credential: " ++ error_text (keyring_failed m)))

  -- `KeychainStore`
  unfoldable pub keychain_store : PersistStore
  unfolding key_found key_deleted
  keychain_store = record {
    P = E;
    save = λ p s.
        let (r, s') = set_password p s in
        (map_err (λ e. keychain (codes "set_password: " ++ error_text e)) r, s');
    load = λ s. let (r, s') = get_password s in (key_found r, s');
    clear = λ s. let (r, s') = delete_credential s in (key_deleted r, s');
  }

pub data Node : Type 0 where
  regular : Bytes → ℕ → Node
  symlink directory special : Node

-- The system under the file: faults, the encoding of texts, the mode of a file that is opened with 0600
-- where none was, and the refusal of an open that is no file's.
pub record FileHost : Type 1 where
  pub W : Type 0
  pub fault : W → Option Fault × W
  pub to_utf8 : Text → Bytes
  pub from_utf8 : Bytes → Option Text
  pub reads_utf8 : (s : Text) → from_utf8 (to_utf8 s) ≡ some s
  pub created_mode : ℕ
  pub open_refused : Node → Text
  -- whether the path has a parent with a name
  pub has_parent : Bool

module _ (host : FileHost) where
  open host use {W, fault, to_utf8, from_utf8, created_mode, open_refused, has_parent}

  pub record Place : Type 0 where
    pub world : W
    pub node : Option Node

  abbrev pub FileStep : Type 0 → Type 0
  FileStep A = Steps Place PersistError A

  faulted : Option Fault → Result PersistError (Unit {0})
  faulted none = ok tt
  faulted (some f) = err (file_failed f.reason)

  -- an operation that changes nothing that is kept
  ask : FileStep (Unit {0})
  unfolding faulted
  ask s = (faulted (fault s.world).0, record s { world = (fault s.world).1 })

  kind_of : Option Node → Result PersistError (Option (Bytes × ℕ))
  kind_of none = ok none
  kind_of (some (regular c m)) = ok (some (c, m))
  kind_of (some symlink) = err (invalid_file_type "symlink")
  kind_of (some directory) = err (invalid_file_type "directory")
  kind_of (some special) = err (invalid_file_type "non-regular file")

  -- `metadata_no_symlink`, with the file's bytes
  metadata_no_symlink : FileStep (Option (Bytes × ℕ))
  unfolding ask kind_of
  metadata_no_symlink = do ask; λ s. (kind_of s.node, s)

  create_parent : FileStep (Unit {0})
  unfolding ask
  create_parent = if has_parent then ask else lift (ok tt)

  open_at : Option Fault → Option Node → Result PersistError (Unit {0}) × Option Node
  open_at (some f) node = (err (file_failed f.reason), node)
  open_at none none = (ok tt, some (regular [] created_mode))
  open_at none (some (regular c m)) = (ok tt, some (regular [] m))
  open_at none (some symlink) = (err (file_failed (open_refused symlink)), some symlink)
  open_at none (some directory) = (err (file_failed (open_refused directory)), some directory)
  open_at none (some special) = (err (file_failed (open_refused special)), some special)

  -- `OpenOptions::open`, with `O_NOFOLLOW`
  open_file : FileStep (Unit {0})
  unfolding open_at
  open_file s =
      let (r, node') = open_at (fault s.world).0 s.node in
      (r, record { world = (fault s.world).1; node = node' })

  filled : Option Node → Bytes → Option Node
  filled (some (regular c m)) bytes = some (regular (c ++ bytes) m)
  filled (some symlink) bytes = some symlink
  filled (some directory) bytes = some directory
  filled (some special) bytes = some special
  filled none bytes = none

  write_part : Option ℕ → Bytes → Bytes
  write_part none bytes = []
  write_part (some n) bytes = take n bytes

  write_at : Option Fault → Bytes → Option Node → Result PersistError (Unit {0}) × Option Node
  write_at (some f) bytes node =
      (err (file_failed f.reason), filled node (write_part f.written bytes))
  write_at none bytes node = (ok tt, filled node bytes)

  -- `write_all`, to a file that was just cut
  write_all : Bytes → FileStep (Unit {0})
  unfolding write_at filled write_part
  write_all bytes s =
      let (r, node') = write_at (fault s.world).0 bytes s.node in
      (r, record { world = (fault s.world).1; node = node' })

  with_mode : ℕ → Option Node → Option Node
  with_mode m (some (regular c n)) = some (regular c m)
  with_mode m (some symlink) = some symlink
  with_mode m (some directory) = some directory
  with_mode m (some special) = some special
  with_mode m none = none

  chmod_at : Option Fault → Option Node → Result PersistError (Unit {0}) × Option Node
  chmod_at (some f) node = (err (file_failed f.reason), node)
  chmod_at none node = (ok tt, with_mode 0o600 node)

  set_mode : FileStep (Unit {0})
  unfolding chmod_at with_mode
  set_mode s =
      let (r, node') = chmod_at (fault s.world).0 s.node in
      (r, record { world = (fault s.world).1; node = node' })

  -- `FileStore::save`
  unfoldable pub file_save : Text → FileStep (Unit {0})
  unfolding create_parent metadata_no_symlink open_file write_all ask set_mode
  file_save passphrase = do
    create_parent
    metadata_no_symlink
    open_file
    write_all (to_utf8 passphrase)
    ask
    set_mode

  read_text : Bytes → Option Text → Result PersistError (Option Text)
  read_text c (some s) = ok (some s)
  read_text c none = err (file_failed (codes "stream did not contain valid UTF-8"))

  -- the mode and the contents of a file that is there
  read_file : Option (Bytes × ℕ) → FileStep (Option Text)
  unfolding ask read_text
  read_file none = lift (ok none)
  read_file (some (c, m)) =
      if (m % 512) == 0o600
      then ask >> lift (read_text c (from_utf8 c))
      else lift (err (insecure_permissions (m % 512)))

  -- `FileStore::load`
  unfoldable pub file_load : FileStep (Option Text)
  unfolding metadata_no_symlink read_file
  file_load = metadata_no_symlink >>= read_file

  remove_at : Option Fault → Option Node → Result PersistError (Unit {0}) × Option Node
  remove_at (some f) node = (err (file_failed f.reason), node)
  remove_at none there = (ok tt, none)

  remove_found : Option (Bytes × ℕ) → FileStep (Unit {0})
  unfolding remove_at
  remove_found none s = (ok tt, s)
  remove_found (some f) s =
      let (r, node') = remove_at (fault s.world).0 s.node in
      (r, record { world = (fault s.world).1; node = node' })

  -- `FileStore::clear`
  unfoldable pub file_clear : FileStep (Unit {0})
  unfolding metadata_no_symlink remove_found
  file_clear = metadata_no_symlink >>= remove_found

  -- `FileStore`
  unfoldable pub file_store : PersistStore
  file_store = record { P = Place; save = file_save; load = file_load; clear = file_clear }

with_path : (Text → FileHost) → Option Text → Result PersistError PersistStore
with_path files none = err not_configured
with_path files (some p) = if is_empty p then err not_configured else ok (file_store (files p))

with_entry : Keyring → Result PersistError (Unit {0}) → Result PersistError PersistStore
with_entry keyring (ok u) = ok (keychain_store keyring)
with_entry keyring (err e) = err e

-- `build_store`, with the result of opening the keychain's entry, and the file at a path
unfoldable pub build_store :
    Keyring
    → Result PersistError (Unit {0})
    → (Text → FileHost)
    → PersistBackend
    → Option Text
    → Result PersistError PersistStore
unfolding with_path with_entry
build_store keyring opened files no_backend path = ok null_store
build_store keyring opened files keychain_backend path = with_entry keyring opened
build_store keyring opened files file_backend path = with_path files path
