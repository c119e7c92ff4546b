-- ===== src/Auth/Lockout.antt =====
-- What a blob that is stored by crates/studio-server/src/routes/auth.rs does to the logins of
-- crates/studio-server/src/routes/login.rs.
use cobrust_studio.Base.{
  ◌≤◌, arith, false, [], ◌∷◌, is_empty, codes, trim, trim_start, trim_end, is_whitespace, ◌≡◌, refl,
  ap, ◌∙◌, some, Text, Result, ok, length, take, map_err-ok, eq_text_refl,
}
use cobrust_studio.Store.{sqlite}
use cobrust_studio.Store.Session.{Bytes, EncryptedBlob, slot_endpoint, set, get_slot}
use cobrust_studio.Store.Session
use cobrust_studio.Routes.{of_store}
use cobrust_studio.Secret.{SessionKey, EndpointSecret, derive, open_blob, scheme_tag}
use cobrust_studio.Steps.{◌>>=◌}
use cobrust_studio.Login.{LoginRequest, Server, AppState, login, write_endpoint}
use cobrust_studio.Login.Wrong.{login-wrong_passphrase}
use cobrust_studio.Auth.{SetEndpointRequest, field_of, set_endpoint}

-- the blob of a request with these bytes
abbrev pub blob_of : SetEndpointRequest → Bytes → Bytes → EncryptedBlob
blob_of req c n = record { ciphertext = c; nonce = n; scheme = req.scheme }

tag_filled : is_empty (trim scheme_tag) ≡ false
unfolding codes trim trim_start trim_end is_whitespace
tag_filled = refl

filled_of : (c : Bytes) → 44 ≤ length c → is_empty c ≡ false
filled_of [] h = absurd (omega arith)
filled_of (b ∷ c) h = refl

module _ (server : Server) (base64 : Text → Result Text Bytes) where
  write_endpoint-blob_at :
      (blob : EncryptedBlob) (s : AppState server)
      → (write_endpoint server blob s).0 ≡ ok tt
      → server.table.blob_at slot_endpoint (write_endpoint server blob s).1.db ≡ some blob
  unfolding write_endpoint set Session.set_endpoint
  write_endpoint-blob_at blob s h =
      server.table.upsert_law slot_endpoint slot_endpoint blob _ s.db
        (map_err-ok sqlite _ (map_err-ok of_store _ h))
      ∙ rw (eq_text_refl slot_endpoint) refl

  set_endpoint-writes :
      (req : SetEndpointRequest) (c n : Bytes) (s : AppState server)
      → base64 req.ciphertext ≡ ok c
      → base64 req.nonce ≡ ok n
      → is_empty (trim req.scheme) ≡ false
      → is_empty c ≡ false
      → set_endpoint server base64 (ok req) s ≡ write_endpoint server (blob_of req c n) s
  unfolding set_endpoint field_of ◌>>=◌
  set_endpoint-writes req c n s hc hn named filled = rw (named, hc, hn) (rw filled refl)

  -- A request with base64 of a ciphertext of at least 44 bytes and of a nonce, and with the scheme in
  -- use, is answered with success whenever the write succeeds, in every state of the server, with a key
  -- of a session or without one; then the slot holds its blob. If no key derived from a passphrase and
  -- the salt of the blob opens it, a login with that passphrase behind it does not succeed and changes
  -- nothing.
  pub login-set_endpoint :
      (req : SetEndpointRequest) (c n : Bytes) (s : AppState server) (owner : LoginRequest)
      → base64 req.ciphertext ≡ ok c
      → base64 req.nonce ≡ ok n
      → req.scheme ≡ scheme_tag
      → 44 ≤ length c
      → (write_endpoint server (blob_of req c n) s).0 ≡ ok tt
      → ((k : SessionKey) (secret : EndpointSecret)
          → derive server.crypto owner.passphrase (take 16 c) ≡ ok k
          → ¬ (open_blob server.crypto k c ≡ ok secret))
      → ((set_endpoint server base64 (ok req) s).0 ≡ ok tt)
        × (server.table.blob_at slot_endpoint (set_endpoint server base64 (ok req) s).1.db
            ≡ some (blob_of req c n))
        × ((login server owner (set_endpoint server base64 (ok req) s).1).1
            ≡ (set_endpoint server base64 (ok req) s).1)
        × (¬ ((login server owner (set_endpoint server base64 (ok req) s).1).0 ≡ ok tt))
  login-set_endpoint req c n s owner decoded nonce tagged long written wrong =
      let same : set_endpoint server base64 (ok req) s ≡ write_endpoint server (blob_of req c n) s =
        set_endpoint-writes req c n s decoded nonce
          (ap (λ t. is_empty (trim t)) tagged ∙ tag_filled) (filled_of c long) in
      let at : server.table.blob_at slot_endpoint (set_endpoint server base64 (ok req) s).1.db
          ≡ some (blob_of req c n) =
        ap (λ x. server.table.blob_at slot_endpoint x.1.db) same
        ∙ write_endpoint-blob_at (blob_of req c n) s written in
      let (unchanged, refused) =
        login-wrong_passphrase server owner (set_endpoint server base64 (ok req) s).1
          (blob_of req c n) at tagged long wrong in
      (ap (λ x. x.0) same ∙ written, at, unchanged, refused)
