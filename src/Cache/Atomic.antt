-- ===== src/Cache/Atomic.antt =====
-- What crates/studio-router/src/cache.rs leaves on disk, under any faults.
use cobrust_studio.Base.{
  ℕ, false, Option, none, some, ◌≡◌, ◌≢◌, ◌⊎◌, inl, inr, refl, ap, ◌∙◌, arith, Text, Result, ok,
  err, Bool-cases, Option-cases,
}
use cobrust_studio.Provider.{CompletionRequest, CompletionResponse}
use cobrust_studio.Host.{Host, FilePath, File, Disk, IoError, io_failed, bind, eq_path, eq_path_iff}
use cobrust_studio.Files.{Io, ◌>>◌, write, set_permissions, read, rename, on_directory}
use cobrust_studio.Cache.{Codec, path_for, tmp_path, cache_put, cache_get, store_bytes, encoded}
use cobrust_studio.Cache.Paths.{tmp_path-ne-path_for}

eq_path_ne : (p q : FilePath) → p ≢ q → eq_path p q ≡ false
eq_path_ne p q ne = elim (Bool-cases (eq_path p q)) [
  | inl same ↦ absurd (ne ((eq_path_iff p q).0 same))
  | inr apart ↦ apart
]

module _ (host : Host) where
  -- A write and a change of mode touch no other path.
  files-write :
      (p q : FilePath) (bytes : Text) (d : Disk host)
      → eq_path p q ≡ false
      → (write host p bytes d).1.files q ≡ d.files q
  unfolding write bind
  files-write p q bytes d h = ground arith

  files-set_permissions :
      (p q : FilePath) (m : ℕ) (d : Disk host)
      → eq_path p q ≡ false
      → (set_permissions host p m d).1.files q ≡ d.files q
  unfolding set_permissions bind
  files-set_permissions p q m d h = ground arith

module _ (host : Host) (codec : Codec) where
  open codec use {encode_entry, decode_entry}

  abbrev pub entry_file : Text → Option File
  entry_file bytes = some (record { content = bytes; mode = 0o600 })

  store_bytes-files :
      (tmp path q : FilePath) (bytes : Text) (d : Disk host)
      → eq_path tmp q ≡ false
      → ((store_bytes host codec tmp path bytes d).1.files q ≡ d.files q)
        ⊎ ((path ≡ q) × ((store_bytes host codec tmp path bytes d).1.files q ≡ entry_file bytes))
  unfolding store_bytes write set_permissions rename bind
  store_bytes-files tmp path q bytes d h = ground (arith, eq_path_iff path q, eq_path_iff tmp tmp)

  store_bytes-ok :
      (tmp path : FilePath) (bytes : Text) (d : Disk host)
      → (store_bytes host codec tmp path bytes d).0 ≡ ok tt
      → (store_bytes host codec tmp path bytes d).1.files path ≡ entry_file bytes
  unfolding store_bytes write set_permissions rename bind
  store_bytes-ok tmp path bytes d h = ground (arith, eq_path_iff path path, eq_path_iff tmp tmp)

  -- A step on a directory goes on with the same files, or fails.
  on_directory-then :
      (k : Io host (Unit {0})) (d : Disk host)
      → (d1 : Disk host) × (d1.files ≡ d.files)
        × (((on_directory host >> k) d ≡ k d1)
            ⊎ ((e : IoError) × ((on_directory host >> k) d ≡ (err e, d1))))
  unfolding on_directory
  on_directory-then k d = elim (Option-cases (host.fault d.world).0) [
    | inl quiet ↦ (record d { world = (host.fault d.world).1 }, refl, inl (rw quiet))
    | inr (f, failed) ↦
        (record d { world = (host.fault d.world).1 }, refl, inr (io_failed f.reason, rw failed))
  ]

  cache_put-cases :
      (root : FilePath) (key : Text) (req : CompletionRequest) (resp : CompletionResponse)
      (d : Disk host)
      → (d1 : Disk host) × (d1.files ≡ d.files)
        × ((cache_put host codec root key req resp d
              ≡ encoded host codec
                  (tmp_path (path_for root key))
                  (path_for root key)
                  (encode_entry req resp)
                  d1)
            ⊎ ((e : IoError) × (cache_put host codec root key req resp d ≡ (err e, d1))))
  unfolding cache_put
  cache_put-cases root key req resp d =
      let last =
        encoded host codec (tmp_path (path_for root key)) (path_for root key)
          (encode_entry req resp) in
      let (d1, same, next) = on_directory-then (on_directory host >> last) d in
      let (d2, same', next') = on_directory-then last d1 in
      elim next [
        | inr failed ↦ (d1, same, inr failed)
        | inl on ↦ elim next' [
          | inr (e, failed) ↦ (d2, same' ∙ same, inr (e, on ∙ failed))
          | inl on' ↦ (d2, same' ∙ same, inl (on ∙ on'))
        ]
      ]

  encoded-files :
      (root : FilePath) (key other : Text) (r : Result Text Text) (d : Disk host)
      → ((encoded host codec (tmp_path (path_for root key)) (path_for root key) r d).1.files
            (path_for root other)
          ≡ d.files (path_for root other))
        ⊎ ((bytes : Text) × (path_for root key ≡ path_for root other)
            × (r ≡ ok bytes)
            × ((encoded host codec (tmp_path (path_for root key)) (path_for root key) r d).1.files
                  (path_for root other)
                ≡ entry_file bytes))
  unfolding encoded
  encoded-files root key other (err e) d = inl refl
  encoded-files root key other (ok bytes) d =
      elim (store_bytes-files (tmp_path (path_for root key)) (path_for root key)
        (path_for root other) bytes d (eq_path_ne _ _ (tmp_path-ne-path_for root key other))) [
          | inl same ↦ inl same
          | inr (here, full) ↦ inr (bytes, here, refl, full)
        ]

  encoded-ok :
      (tmp path : FilePath) (r : Result Text Text) (d : Disk host)
      → (encoded host codec tmp path r d).0 ≡ ok tt
      → (bytes : Text) × (r ≡ ok bytes)
        × ((encoded host codec tmp path r d).1.files path ≡ entry_file bytes)
  unfolding encoded
  encoded-ok tmp path (err e) d h = absurd (cc)
  encoded-ok tmp path (ok bytes) d h = (bytes, refl, store_bytes-ok tmp path bytes d h)

  -- Whatever fails during a put, and whichever key is looked at after it: its cache file is the one
  -- from before, or its path is that of the key of the put, and it holds the whole encoded entry, at
  -- mode 0600.
  pub cache_put-IsAtomic :
      (root : FilePath) (key other : Text) (req : CompletionRequest) (resp : CompletionResponse)
      (d : Disk host)
      → ((cache_put host codec root key req resp d).1.files (path_for root other)
          ≡ d.files (path_for root other))
        ⊎ ((bytes : Text) × (path_for root key ≡ path_for root other)
            × (encode_entry req resp ≡ ok bytes)
            × ((cache_put host codec root key req resp d).1.files (path_for root other)
                ≡ entry_file bytes))
  cache_put-IsAtomic root key other req resp d =
      let (d1, same, next) = cache_put-cases root key req resp d in
      let there = encoded-files root key other (encode_entry req resp) d1 in
      elim next [
        | inr (e, failed) ↦ inl (rw failed (ap (λ f. f (path_for root other)) same))
        | inl on ↦ elim there [
          | inl kept ↦ inl (rw on (kept ∙ ap (λ f. f (path_for root other)) same))
          | inr whole ↦ inr (rw on whole)
        ]
      ]

  pub cache_put-ok :
      (root : FilePath) (key : Text) (req : CompletionRequest) (resp : CompletionResponse)
      (d : Disk host)
      → (cache_put host codec root key req resp d).0 ≡ ok tt
      → (bytes : Text) × (encode_entry req resp ≡ ok bytes)
        × ((cache_put host codec root key req resp d).1.files (path_for root key)
            ≡ entry_file bytes)
  cache_put-ok root key req resp d h =
      let (d1, same, next) = cache_put-cases root key req resp d in
      elim next [
        | inr (e, failed) ↦ absurd (cc (rw failed at h))
        | inl on ↦ rw on (encoded-ok _ _ (encode_entry req resp) d1 (rw on at h))
      ]

  -- A put that reports success has left the whole entry: a get of the same key that meets no fault
  -- returns the response, if the codec reads back what it writes.
  pub cache_get-put :
      ((req : CompletionRequest) (resp : CompletionResponse) (bytes : Text)
        → encode_entry req resp ≡ ok bytes
        → decode_entry bytes ≡ ok resp)
      → (root : FilePath) (key : Text) (req : CompletionRequest) (resp : CompletionResponse)
        (d : Disk host)
      → (cache_put host codec root key req resp d).0 ≡ ok tt
      → (host.fault (cache_put host codec root key req resp d).1.world).0 ≡ none
      → (cache_get host codec root key (cache_put host codec root key req resp d).1).0
        ≡ ok (some resp)
  unfolding cache_get read
  cache_get-put codec_reads root key req resp d h quiet =
      let (bytes, written, full) = cache_put-ok root key req resp d h in
      rw (quiet, full) (rw (codec_reads req resp bytes written))
