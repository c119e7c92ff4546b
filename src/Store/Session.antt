-- ===== src/Store/Session.antt =====
-- crates/studio-store/src/session.rs: the slots of encrypted credentials. The table `session_kv` is a
-- parameter with its laws.
use cobrust_studio.Base.{
  ℕ, Option, none, some, List, [], ◌≡◌, Text, codes, eq_text, Result, ok, err, map_err,
  if◌then◌else◌,
}
use cobrust_studio.Store.{StoreError, sqlite}

abbrev pub Bytes : Type 0
Bytes = List ℕ

pub record EncryptedBlob : Type 0 where
  pub ciphertext : Bytes
  pub nonce : Bytes
  pub scheme : Text

-- `EncryptedBlob::from`, of raw bytes
unfoldable pub blob_of_bytes : Bytes → EncryptedBlob
blob_of_bytes bytes = record { ciphertext = bytes; nonce = []; scheme = codes "raw" }

-- `SLOT_ENDPOINT`
abbrev pub slot_endpoint : Text
slot_endpoint = codes "endpoint"

-- The table: the statements, the blob of each key, and what the statements do to it.
pub record SessionTable : Type 1 where
  pub Db : Type 0
  pub blob_at : Text → Db → Option EncryptedBlob
  pub select : Text → Db → Result Text (Option EncryptedBlob)
  pub upsert : Text → EncryptedBlob → Text → Db → Result Text (Unit {0}) × Db
  pub delete : Text → Db → Result Text (Unit {0}) × Db
  -- `OffsetDateTime::now_utc`, in the format of RFC 3339
  pub now_text : Db → Text
  pub select_law :
      (key : Text) (db : Db) {found : Option EncryptedBlob}
      → select key db ≡ ok found
      → found ≡ blob_at key db
  pub upsert_law :
      (key other : Text) (blob : EncryptedBlob) (at : Text) (db : Db)
      → (upsert key blob at db).0 ≡ ok tt
      → blob_at other (upsert key blob at db).1
        ≡ (if eq_text key other then some blob else blob_at other db)
  pub upsert_fails :
      (key other : Text) (blob : EncryptedBlob) (at m : Text) (db : Db)
      → (upsert key blob at db).0 ≡ err m
      → blob_at other (upsert key blob at db).1 ≡ blob_at other db
  pub delete_law :
      (key other : Text) (db : Db)
      → (delete key db).0 ≡ ok tt
      → blob_at other (delete key db).1 ≡ (if eq_text key other then none else blob_at other db)
  pub delete_fails :
      (key other m : Text) (db : Db)
      → (delete key db).0 ≡ err m
      → blob_at other (delete key db).1 ≡ blob_at other db

module _ (table : SessionTable) where
  open table use {Db, select, upsert, delete, now_text}

  -- `SessionHandle::set`
  unfoldable pub set : Text → EncryptedBlob → Db → Result StoreError (Unit {0}) × Db
  set key blob db = let (r, db') = upsert key blob (now_text db) db in (map_err sqlite r, db')

  -- `SessionHandle::get`
  unfoldable pub get_slot : Text → Db → Result StoreError (Option EncryptedBlob)
  get_slot key db = map_err sqlite (select key db)

  -- `SessionHandle::remove`
  unfoldable pub remove : Text → Db → Result StoreError (Unit {0}) × Db
  remove key db = let (r, db') = delete key db in (map_err sqlite r, db')

  -- `SessionHandle::set_endpoint`
  unfoldable pub set_endpoint : EncryptedBlob → Db → Result StoreError (Unit {0}) × Db
  unfolding set
  set_endpoint = set slot_endpoint

  -- `SessionHandle::get_endpoint`
  unfoldable pub get_endpoint : Db → Result StoreError (Option EncryptedBlob)
  unfolding get_slot
  get_endpoint = get_slot slot_endpoint
