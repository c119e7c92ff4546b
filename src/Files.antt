-- ===== src/Files.antt =====
-- The calls of tokio::fs that the cache makes. Each asks the fault oracle first. A failed write may
-- leave a part of its bytes behind. Directories are not kept: creating one, or setting its mode, can
-- fail and is seen by no later read.
use cobrust_studio.Base.{ℕ, Option, none, some, Text, Result, ok, err, take}
use cobrust_studio.Host.{
  Host, Fault, FilePath, File, Files, bind, mode_of, IoError, not_found, io_failed, Disk,
}

module _ (host : Host) where
  open host use {W, fault, created_mode}

  abbrev pub Io : Type 0 → Type 0
  Io A = Disk host → Result IoError A × Disk host

  -- the state after the fault oracle was asked
  abbrev asked : Disk host → Disk host
  asked d = record d { world = (fault d.world).1 }

  read_at : Option Fault → Option File → Result IoError Text
  read_at (some f) file = err (io_failed f.reason)
  read_at none none = err not_found
  read_at none (some file) = ok file.content

  unfoldable pub read : FilePath → Io Text
  unfolding read_at
  read p d = (read_at (fault d.world).0 (d.files p), asked d)

  -- `create_dir_all`, and `set_permissions` on a directory
  dir_at : Option Fault → Result IoError (Unit {0})
  dir_at (some f) = err (io_failed f.reason)
  dir_at none = ok tt

  unfoldable pub on_directory : Io (Unit {0})
  unfolding dir_at
  on_directory d = (dir_at (fault d.world).0, asked d)

  written : Option ℕ → FilePath → Text → Disk host → Files
  written none p bytes d = d.files
  written (some n) p bytes d =
      bind p (some (record { content = take n bytes; mode = mode_of created_mode (d.files p) }))
        d.files

  write_at : Option Fault → FilePath → Text → Disk host → Result IoError (Unit {0}) × Files
  write_at (some f) p bytes d = (err (io_failed f.reason), written f.written p bytes d)
  write_at none p bytes d = (
    ok tt,
    bind p (some (record { content = bytes; mode = mode_of created_mode (d.files p) })) d.files,
  )

  unfoldable pub write : FilePath → Text → Io (Unit {0})
  unfolding write_at written mode_of
  write p bytes d =
      let (r, files') = write_at (fault d.world).0 p bytes d in
      (r, record (asked d) { files = files' })

  chmod_at : Option Fault → ℕ → FilePath → Option File → Files → Result IoError (Unit {0}) × Files
  chmod_at (some f) m p file files = (err (io_failed f.reason), files)
  chmod_at none m p none files = (err not_found, files)
  chmod_at none m p (some file) files = (ok tt, bind p (some (record file { mode = m })) files)

  -- `set_permissions` on a file
  unfoldable pub set_permissions : FilePath → ℕ → Io (Unit {0})
  unfolding chmod_at
  set_permissions p m d =
      let (r, files') = chmod_at (fault d.world).0 m p (d.files p) d.files in
      (r, record (asked d) { files = files' })

  rename_at :
      Option Fault → FilePath → FilePath → Option File → Files → Result IoError (Unit {0}) × Files
  rename_at (some f) from to file files = (err (io_failed f.reason), files)
  rename_at none from to none files = (err not_found, files)
  rename_at none from to (some file) files = (ok tt, bind to (some file) (bind from none files))

  unfoldable pub rename : FilePath → FilePath → Io (Unit {0})
  unfolding rename_at
  rename from to d =
      let (r, files') = rename_at (fault d.world).0 from to (d.files from) d.files in
      (r, record (asked d) { files = files' })

module _ {host : Host} where
  -- `?` between two operations
  abbrev pub continue : {A B : Type 0} → Result IoError A → (A → Io host B) → Io host B
  continue (ok a) f d = f a d
  continue (err e) f d = (err e, d)

  infixl 5 ◌>>=◌ ◌>>◌
  abbrev pub ◌>>=◌ : {A B : Type 0} → Io host A → (A → Io host B) → Io host B
  ◌>>=◌ m f d = let (r, d') = m d in continue r f d'

  abbrev pub ◌>>◌ : {A B : Type 0} → Io host A → Io host B → Io host B
  m >> k = m >>= λ _. k

  abbrev pub fail : {A : Type 0} → IoError → Io host A
  fail e d = (err e, d)
