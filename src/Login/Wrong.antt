-- ===== src/Login/Wrong.antt =====
-- The guard of crates/studio-server/src/routes/login.rs on a passphrase that does not fit the blob which
-- is there.
use cobrust_studio.Base.{
  map_err-ok, ◌≤◌, ◌≡◌, refl, sym, ap, ◌∙◌, arith, true, Option, some, Text, Result, ok, err,
  length, take, leb, eq_text_refl,
}
use cobrust_studio.Store.{sqlite}
use cobrust_studio.Store.Session.{Bytes, EncryptedBlob, slot_endpoint, get_endpoint, get_slot}
use cobrust_studio.Routes.{of_store}
use cobrust_studio.Secret.{SessionKey, EndpointSecret, SecretError, derive, open_blob, scheme_tag}
use cobrust_studio.Secret.Seal.{open_blob-not_opened}
use cobrust_studio.Steps.{lift, behind, >>=-ok}
use cobrust_studio.Login.{
  LoginRequest, Server, AppState, login, read_endpoint, login_key, known_key, verified, reusable,
  validate_login_request,
}

module _ (server : Server) where
  known_key-refused :
      (c : Bytes) (r : Result SecretError SessionKey) (k : SessionKey)
      → 44 ≤ length c
      → ((j : SessionKey) (secret : EndpointSecret)
          → r ≡ ok j
          → ¬ (open_blob server.crypto j c ≡ ok secret))
      → ¬ (known_key server c r ≡ ok k)
  unfolding known_key verified
  known_key-refused c (err e) k long h hk = absurd (cc hk)
  known_key-refused c (ok j) k long h hk =
      let (m, e) = open_blob-not_opened server.crypto j c long (λ secret. h j secret refl) in
      absurd (cc (rw e at hk))

  reusable-is :
      (b : EncryptedBlob)
      → b.scheme ≡ scheme_tag
      → 44 ≤ length b.ciphertext
      → reusable (some b) ≡ some b.ciphertext
  unfolding reusable
  reusable-is b hs long =
      let enough : leb 16 (length b.ciphertext) ≡ true = ground (arith, long) in
      rw (hs, eq_text_refl scheme_tag) (rw enough)

  login_key-same_state :
      (p : Text) (c : Bytes) (s : AppState server) → (login_key server p (some c) s).1 ≡ s
  unfolding login_key
  login_key-same_state p c s = refl

  read_endpoint-is :
      (s : AppState server) {o : Option EncryptedBlob}
      → (read_endpoint server s).0 ≡ ok o
      → o ≡ server.table.blob_at slot_endpoint s.db
  unfolding read_endpoint get_endpoint get_slot
  read_endpoint-is s h =
      server.table.select_law slot_endpoint s.db (map_err-ok sqlite _ (map_err-ok of_store _ h))

  login_key-refused :
      (p : Text) (c : Bytes) (s : AppState server) (k : SessionKey)
      → 44 ≤ length c
      → ((j : SessionKey) (secret : EndpointSecret)
          → derive server.crypto p (take 16 c) ≡ ok j
          → ¬ (open_blob server.crypto j c ≡ ok secret))
      → ¬ ((login_key server p (some c) s).0 ≡ ok k)
  unfolding login_key
  login_key-refused p c s k long h = known_key-refused c _ k long h

  -- Where the slot of the endpoint has a blob of the scheme in use with at least 44 bytes, and no key
  -- that is derived from the passphrase of the request and the salt of that blob opens it, a login does
  -- not succeed and changes nothing, neither the slots, nor the key, nor what the backend keeps.
  pub login-wrong_passphrase :
      (req : LoginRequest) (s : AppState server) (b : EncryptedBlob)
      → server.table.blob_at slot_endpoint s.db ≡ some b
      → b.scheme ≡ scheme_tag
      → 44 ≤ length b.ciphertext
      → ((k : SessionKey) (secret : EndpointSecret)
          → derive server.crypto req.passphrase (take 16 b.ciphertext) ≡ ok k
          → ¬ (open_blob server.crypto k b.ciphertext ≡ ok secret))
      → ((login server req s).1 ≡ s) × (¬ ((login server req s).0 ≡ ok tt))
  unfolding login read_endpoint
  login-wrong_passphrase req s b at hs long wrong =
      let key_of = login_key server req.passphrase in
      let found : (existing : Option EncryptedBlob)
          → (read_endpoint server s).0 ≡ ok existing
          → reusable existing ≡ some b.ciphertext =
        λ existing hr. ap reusable (read_endpoint-is s hr ∙ at) ∙ reusable-is b hs long in
      let refused : (existing : Option EncryptedBlob) (k : SessionKey)
          → (read_endpoint server s).0 ≡ ok existing
          → ¬ ((key_of (reusable existing) s).0 ≡ ok k) =
        λ existing k hr hk.
          login_key-refused req.passphrase b.ciphertext s k long wrong
            (ap (λ o. (key_of o s).0) (sym (found existing hr)) ∙ hk) in
      (
        behind (λ t. t ≡ s) (lift (validate_login_request req)) _ s (λ e he. refl)
            (λ u hu.
              behind (λ t. t ≡ s) (read_endpoint server) _ s (λ e he. refl)
                (λ existing hr.
                  behind (λ t. t ≡ s) (key_of (reusable existing)) _ s
                    (λ e he.
                      ap (λ o. (key_of o s).1) (found existing hr)
                      ∙ login_key-same_state req.passphrase b.ciphertext s)
                    (λ k hk. absurd (refused existing k hr hk)))),
        λ h.
            let (u, hv, h1, e1) = >>=-ok (lift (validate_login_request req)) _ s h in
            let (existing, hr, h2, e2) = >>=-ok (read_endpoint server) _ s h1 in
            let (k, hk, h3, e3) = >>=-ok (key_of (reusable existing)) _ s h2 in
            refused existing k hr hk,
      )
