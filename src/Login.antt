-- ===== src/Login.antt =====
-- crates/studio-server/src/routes/login.rs: how the server comes to hold the key of a session and loses
-- it. A request has the state for itself.
pub mod Unlocked
pub mod Wrong
pub mod Boot
use cobrust_studio.Base.{
  ℕ, ◌≡◌, ◌+◌, ◌++◌, List, [], ◌∷◌, decimal, Bool, true, false, not, ◌&&◌, Option, none, some, Text,
  String, codes, trim, is_empty, len, length, take, eq_text, Result, ok, err, map_err, refuse_if,
  ltb, leb, if◌then◌else◌,
}
use cobrust_studio.Config.{ProviderKind, anthropic, openai, synthetic}
use cobrust_studio.Store.{StoreError}
use cobrust_studio.Store.Session
use cobrust_studio.Store.Session.{Bytes, EncryptedBlob, SessionTable}
use cobrust_studio.Routes.{RouteError, bad_request, internal, not_found, of_store}
use cobrust_studio.Secret.{
  SessionKey, EndpointSecret, SecretError, kdf, not_sealed, not_opened, malformed, unknown_scheme,
  Crypto, derive, seal, open_blob, scheme_tag, salt_len,
}
use cobrust_studio.Persist.{PersistStore, PersistError}
use cobrust_studio.Steps.{Steps, ◌>>=◌, ◌>>◌, lift}

pub record LoginRequest : Type 0 where
  pub endpoint : Text
  pub api_key : Text
  pub model : Text
  pub passphrase : Text
  pub provider_kind : ProviderKind

is_synthetic : ProviderKind → Bool
is_synthetic synthetic = true
is_synthetic anthropic = false
is_synthetic openai = false

-- `validate_login_request`
unfoldable pub validate_login_request : LoginRequest → Result RouteError (Unit {0})
unfolding is_synthetic
validate_login_request req =
    if is_synthetic req.provider_kind
    then err (
        bad_request
          (codes
            "synthetic provider not valid for /api/login; use --dev-api-key for synthetic dispatch")
          "invalid_provider_kind")
    else if is_empty (trim req.endpoint)
    then err (bad_request (codes "endpoint must be non-empty") "invalid_body")
    else if is_empty (trim req.api_key)
    then err (bad_request (codes "api_key must be non-empty") "invalid_body")
    else if is_empty (trim req.model)
    then err (bad_request (codes "model must be non-empty") "invalid_body")
    else if is_empty req.passphrase
    then err (bad_request (codes "passphrase must be non-empty") "invalid_body")
    else if ltb (len req.passphrase) 8
    then err (bad_request (codes "passphrase must be at least 8 characters") "passphrase_too_short")
    else ok tt

-- `SecretError::to_string`
unfoldable pub secret_text : SecretError → Text
secret_text (kdf m) = ◌++◌ (codes "argon2id key derivation failed: ") m
secret_text (not_sealed m) = ◌++◌ (codes "aead seal failed: ") m
secret_text (not_opened m) = ◌++◌ (codes "aead open failed: ") m
secret_text (malformed e g) =
    codes "malformed blob: expected " ++ 8805 ∷ decimal e ++ codes " bytes, got " ++ decimal g
secret_text (unknown_scheme m) = ◌++◌ (codes "unknown scheme: ") m

-- the secret that a request asks to keep
unfoldable pub secret_of : LoginRequest → EndpointSecret
secret_of req = record {
  endpoint = trim req.endpoint;
  api_key = trim req.api_key;
  model = trim req.model;
  provider_kind = req.provider_kind;
}

-- the ciphertext of a blob that a key can be derived for: of the current scheme, with a salt
pub reusable : Option EncryptedBlob → Option Bytes
reusable none = none
reusable (some b) =
    if eq_text b.scheme scheme_tag && leb 16 (length b.ciphertext) then some b.ciphertext else none

unfoldable pub sealed_blob : Bytes → EncryptedBlob
sealed_blob c = record { ciphertext = c; nonce = []; scheme = scheme_tag }

-- the parts that the server is built from
pub record Server : Type 1 where
  pub table : SessionTable
  pub crypto : Crypto
  pub persist : PersistStore

pub record AppState (server : Server) : Type 0 where
  pub db : server.table.Db
  pub rng : server.crypto.Rng
  pub stored : server.persist.P
  pub session_key : Option SessionKey
  pub debug_session : Bool

module _ (server : Server) where
  open server use {table, crypto, persist}

  abbrev pub Handler : Type 0 → Type 0
  Handler A = Steps (AppState server) RouteError A

  read_endpoint : Handler (Option EncryptedBlob)
  read_endpoint s = (map_err of_store (Session.get_endpoint table s.db), s)

  unfoldable pub write_endpoint : EncryptedBlob → Handler (Unit {0})
  write_endpoint blob s =
      let (r, db') = Session.set_endpoint table blob s.db in
      (map_err of_store r, record s { db = db' })

  derivation_failed : SecretError → RouteError
  derivation_failed e = internal (◌++◌ (codes "key derivation failed: ") (secret_text e))

  wrong_passphrase : RouteError
  wrong_passphrase =
      bad_request (codes "passphrase does not match existing credential blob") "wrong_passphrase"

  -- the test of a key on the blob that is there: only a failed opening refuses it
  verified : SessionKey → Result SecretError EndpointSecret → Result RouteError SessionKey
  verified k (err (not_opened m)) = err wrong_passphrase
  verified k (err (kdf m)) = ok k
  verified k (err (not_sealed m)) = ok k
  verified k (err (malformed e g)) = ok k
  verified k (err (unknown_scheme m)) = ok k
  verified k (ok s) = ok k

  known_key : Bytes → Result SecretError SessionKey → Result RouteError SessionKey
  known_key c (err e) = err (derivation_failed e)
  known_key c (ok k) = verified k (open_blob crypto k c)

  -- the key for a login: that of the blob which is there, or of a fresh salt
  pub login_key : Text → Option Bytes → Handler SessionKey
  login_key passphrase (some c) s = (known_key c (derive crypto passphrase (take salt_len c)), s)
  login_key passphrase none s =
      let (salt, g) = crypto.fill_bytes salt_len s.rng in
      (map_err derivation_failed (derive crypto passphrase salt), record s { rng = g })

  seal_secret : SessionKey → EndpointSecret → Handler Bytes
  seal_secret k secret s =
      let (r, g) = seal crypto k secret s.rng in
      (
        map_err (λ e. internal (◌++◌ (codes "seal failed: ") (secret_text e))) r,
        record s { rng = g },
      )

  keep_key : SessionKey → Handler (Unit {0})
  keep_key k s = (ok tt, record s { session_key = some k })

  -- a failure to keep the passphrase is logged and passed over
  keep_passphrase : Text → Handler (Unit {0})
  keep_passphrase p s = (ok tt, record s { stored = (persist.save p s.stored).1 })

  -- `login`
  unfoldable pub login : LoginRequest → Handler (Unit {0})
  unfolding read_endpoint write_endpoint login_key seal_secret keep_key keep_passphrase secret_of
      reusable sealed_blob known_key verified derivation_failed wrong_passphrase
  login req = do
    lift (validate_login_request req)
    existing ← read_endpoint
    key ← login_key req.passphrase (reusable existing)
    ciphertext ← seal_secret key (secret_of req)
    write_endpoint (sealed_blob ciphertext)
    keep_key key
    keep_passphrase req.passphrase

  pub data LogoutResponse : Type 0 where
    logged_out purge_failed : LogoutResponse

  purged : Result PersistError (Unit {0}) → LogoutResponse
  purged (ok u) = logged_out
  purged (err e) = purge_failed

  -- `logout`
  unfoldable pub logout : Bool → AppState server → LogoutResponse × AppState server
  unfolding purged
  logout purge s =
      let (r, p) = persist.clear s.stored in
      if purge
      then (purged r, record s { session_key = none; stored = p })
      else (logged_out, record s { session_key = none })

  pub record SessionStatus : Type 0 where
    pub authenticated : Bool
    pub selected_model : Option Text
    pub provider_kind : Option ProviderKind

  status_of : Result SecretError EndpointSecret → SessionStatus
  status_of (ok s) = record {
    authenticated = true;
    selected_model = some s.model;
    provider_kind = some s.provider_kind;
  }
  status_of (err e) = record { authenticated = true; selected_model = none; provider_kind = none }

  status_with : SessionKey → Result StoreError (Option EncryptedBlob) → SessionStatus
  status_with k (ok (some b)) = status_of (open_blob crypto k b.ciphertext)
  status_with k (ok none) = record {
    authenticated = true;
    selected_model = none;
    provider_kind = none;
  }
  status_with k (err e) = record {
    authenticated = true;
    selected_model = none;
    provider_kind = none;
  }

  status_for : Option SessionKey → Result StoreError (Option EncryptedBlob) → SessionStatus
  status_for none r = record { authenticated = false; selected_model = none; provider_kind = none }
  status_for (some k) r = status_with k r

  -- `session_status`
  unfoldable pub session_status : AppState server → SessionStatus
  unfolding status_for status_with status_of
  session_status s = status_for s.session_key (Session.get_endpoint table s.db)

  needed {ℓ} : {A : Type ℓ} → RouteError → Option A → Result RouteError A
  needed e none = err e
  needed e (some a) = ok a

  -- `session_endpoint`, with the endpoint and the model
  unfoldable pub session_endpoint : Handler (Text × Text)
  unfolding needed read_endpoint
  session_endpoint = do
    λ s. (
      refuse_if (not s.debug_session) (
          bad_request (codes "session/endpoint is only available with --debug-session")
            "debug_only"),
      s,
    )
    key ← λ s. (needed (bad_request (codes "not authenticated") "no_session") s.session_key, s)
    found ← read_endpoint
    blob ← lift (needed (not_found (codes "no endpoint configured") "no_endpoint") found)
    secret ← lift (
        map_err
          (λ e. bad_request (◌++◌ (codes "decrypt failed: ") (secret_text e)) "decrypt_failed")
          (open_blob crypto key blob.ciphertext))
    lift (ok (secret.endpoint, secret.model))
