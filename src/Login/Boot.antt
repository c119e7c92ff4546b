-- ===== src/Login/Boot.antt =====
-- The start of the server, in crates/studio-server/src/lib.rs: `auto_unlock_on_boot` and
-- `inject_dev_key`.
pub mod Restart
pub mod Reach
use cobrust_studio.Base.{
  ℕ, ◌≡◌, ◌+◌, ◌++◌, List, [], ◌∷◌, decimal, Bool, true, false, not, ◌&&◌, Option, none, some, Text,
  String, codes, trim, is_empty, len, length, take, eq_text, Result, ok, err, map_err, refuse_if,
  ltb, leb, if◌then◌else◌,
}
use cobrust_studio.Config.{ProviderKind, anthropic, openai, synthetic}
use cobrust_studio.Store.{StoreError}
use cobrust_studio.Store.Session
use cobrust_studio.Store.Session.{Bytes, EncryptedBlob, SessionTable}
use cobrust_studio.Routes.{RouteError, bad_request, internal, not_found, of_store}
use cobrust_studio.Secret.{
  SessionKey, EndpointSecret, SecretError, kdf, not_sealed, not_opened, malformed, unknown_scheme,
  Crypto, derive, seal, open_blob, scheme_tag, salt_len,
}
use cobrust_studio.Persist.{PersistStore, PersistError}
use cobrust_studio.Steps.{Steps, ◌>>=◌, ◌>>◌, lift}
use cobrust_studio.Login.{Server, AppState, sealed_blob}

-- A step that fails is an early return: it is logged, and the start goes on.
module _ (server : Server) where
  open server use {table, crypto, persist}

  abbrev Boot : Type 0 → Type 0
  Boot A = Steps (AppState server) (Unit {0}) A

  loaded : Result PersistError (Option Text) → Result (Unit {0}) Text
  loaded (ok (some p)) = ok p
  loaded (ok none) = err tt
  loaded (err e) = err tt

  load_passphrase : Boot Text
  load_passphrase s = let (r, p) = persist.load s.stored in (loaded r, record s { stored = p })

  -- an early return that forgets the passphrase, whether that succeeds or not
  forget : {A : Type 0} → Boot A
  forget s = (err tt, record s { stored = (persist.clear s.stored).1 })

  found_blob : Result StoreError (Option EncryptedBlob) → Boot EncryptedBlob
  unfolding forget
  found_blob (ok (some b)) s = (ok b, s)
  found_blob (ok none) s = forget s
  found_blob (err e) s = (err tt, s)

  find_blob : Boot EncryptedBlob
  find_blob s = found_blob (Session.get_endpoint table s.db) s

  derived : Result SecretError SessionKey → Result (Unit {0}) SessionKey
  derived (ok k) = ok k
  derived (err e) = err tt

  keep_if_opened : SessionKey → Result SecretError EndpointSecret → Boot (Unit {0})
  unfolding forget
  keep_if_opened k (ok secret) s = (ok tt, record s { session_key = some k })
  keep_if_opened k (err e) s = forget s

  unlock : Boot (Unit {0})
  unlock = do
    passphrase ← load_passphrase
    blob ← find_blob
    lift (refuse_if (not (eq_text blob.scheme scheme_tag)) tt)
    lift (refuse_if (ltb (length blob.ciphertext) 16) tt)
    key ← lift (derived (derive crypto passphrase (take salt_len blob.ciphertext)))
    keep_if_opened key (open_blob crypto key blob.ciphertext)

  -- `auto_unlock_on_boot`
  unfoldable pub auto_unlock_on_boot : AppState server → AppState server
  unfolding unlock load_passphrase loaded find_blob found_blob forget derived keep_if_opened
  auto_unlock_on_boot s = (unlock s).1

  -- the state of a new process on what the last one left
  unfoldable pub restarted : AppState server → AppState server
  restarted s = record s { session_key = none }

  inject_sealed : SessionKey → Result SecretError Bytes → AppState server → AppState server
  inject_sealed k (err e) s = s
  inject_sealed k (ok c) s = record s {
    db = (Session.set_endpoint table (sealed_blob c) s.db).1;
    session_key = some k;
  }

  inject_with : EndpointSecret → Result SecretError SessionKey → AppState server → AppState server
  inject_with secret (err e) s = s
  inject_with secret (ok k) s =
      let (r, g) = seal crypto k secret s.rng in inject_sealed k r (record s { rng = g })

  -- `inject_dev_key`, of the secret from the command line
  unfoldable pub inject_dev_key : EndpointSecret → AppState server → AppState server
  unfolding inject_with inject_sealed sealed_blob
  inject_dev_key secret s =
      let (salt, g) = crypto.fill_bytes salt_len s.rng in
      inject_with secret (derive crypto (codes "dev-api-key-synthetic-passphrase") salt)
        (record s { rng = g })
