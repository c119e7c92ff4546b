-- ===== src/Secret.antt =====
-- crates/studio-server/src/secret.rs: the key of a session, and the packed blob `salt || nonce ||
-- ciphertext`. Argon2id, AES-256-GCM, serde_json and the random bytes are parameters.
pub mod Seal
use cobrust_studio.Base.{
  ℕ, ◌≡◌, ◌+◌, ◌++◌, Bool, true, false, Option, none, some, Text, Result, ok, err, map_err, length,
  take, drop, ltb, if◌then◌else◌, codes,
}
use cobrust_studio.Config.{ProviderKind}
use cobrust_studio.Store.Session.{Bytes}

abbrev pub scheme_tag : Text
scheme_tag = codes "aes-gcm-256/argon2id-v1"

abbrev pub salt_len : ℕ
salt_len = 16

abbrev pub nonce_len : ℕ
nonce_len = 12

abbrev pub header_len : ℕ
header_len = 28

abbrev pub min_blob_len : ℕ
min_blob_len = 44

pub record SessionKey : Type 0 where
  pub key : Bytes
  pub salt : Bytes

pub record EndpointSecret : Type 0 where
  pub endpoint : Text
  pub api_key : Text
  pub model : Text
  pub provider_kind : ProviderKind

-- `SecretError`; `unknown_scheme` is produced nowhere
pub data SecretError : Type 0 where
  kdf : Text → SecretError
  not_sealed : Text → SecretError
  not_opened : Text → SecretError
  malformed : ℕ → ℕ → SecretError
  unknown_scheme : Text → SecretError

-- The libraries: the key derivation, the cipher by its key and nonce, and the JSON of a secret. `Rng` is
-- the state of the system's generator.
pub record Crypto : Type 1 where
  pub Rng : Type 0
  pub fill_bytes : ℕ → Rng → Bytes × Rng
  pub hash_password : Text → Bytes → Result Text Bytes
  pub encrypt : Bytes → Bytes → Bytes → Result Text Bytes
  pub decrypt : Bytes → Bytes → Bytes → Result Text Bytes
  pub to_json : EndpointSecret → Result Text Bytes
  pub from_json : Bytes → Result Text EndpointSecret

-- What the documentation of the libraries says: random bytes are as many as asked for, a ciphertext ends
-- in a tag of 16 bytes, and what is encrypted or printed is read back.
pub record IsSound (c : Crypto) : Type 0 where
  pub fills : (n : ℕ) (g : c.Rng) → length (c.fill_bytes n g).0 ≡ n
  pub decrypts : (k n m : Bytes) {x : Bytes} → c.encrypt k n m ≡ ok x → c.decrypt k n x ≡ ok m
  pub tagged : (k n m : Bytes) {x : Bytes} → c.encrypt k n m ≡ ok x → length x ≡ length m + 16
  pub reads_json : (s : EndpointSecret) {m : Bytes} → c.to_json s ≡ ok m → c.from_json m ≡ ok s

module _ (crypto : Crypto) where
  open crypto use {Rng, fill_bytes, hash_password, encrypt, decrypt, to_json, from_json}

  with_salt : Bytes → Result Text Bytes → Result SecretError SessionKey
  with_salt salt (ok k) = ok (record { key = k; salt = salt })
  with_salt salt (err e) = err (kdf e)

  -- `SessionKey::derive`
  unfoldable pub derive : Text → Bytes → Result SecretError SessionKey
  unfolding with_salt
  derive passphrase salt = with_salt salt (hash_password passphrase salt)

  packed : SessionKey → Bytes → Result Text Bytes → Result SecretError Bytes
  packed k nonce (ok ciphertext) = ok (k.salt ++ (nonce ++ ciphertext))
  packed k nonce (err e) = err (not_sealed e)

  -- `SessionKey::seal_raw`
  unfoldable pub seal_raw : SessionKey → Bytes → Rng → Result SecretError Bytes × Rng
  unfolding packed
  seal_raw k json g =
      let (nonce, g') = fill_bytes nonce_len g in (packed k nonce (encrypt k.key nonce json), g')

  seal_json : SessionKey → Result Text Bytes → Rng → Result SecretError Bytes × Rng
  unfolding seal_raw
  seal_json k (ok json) g = seal_raw k json g
  seal_json k (err e) g = (err (not_sealed (codes "json encode: " ++ e)), g)

  -- `SessionKey::seal`
  unfoldable pub seal : SessionKey → EndpointSecret → Rng → Result SecretError Bytes × Rng
  unfolding seal_json
  seal k payload g = seal_json k (to_json payload) g

  decoded : Result Text Bytes → Result SecretError EndpointSecret
  decoded (ok plaintext) =
      map_err (λ e. not_opened (codes "json decode: " ++ e)) (from_json plaintext)
  decoded (err e) = err (not_opened e)

  -- `SessionKey::open`
  unfoldable pub open_blob : SessionKey → Bytes → Result SecretError EndpointSecret
  unfolding decoded
  open_blob k blob =
      if ltb (length blob) min_blob_len
      then err (malformed min_blob_len (length blob))
      else decoded (decrypt k.key (take nonce_len (drop salt_len blob)) (drop header_len blob))
