-- ===== src/Login/Unlocked.antt =====
-- When the key that the server holds opens the blob that it keeps, in the handlers of
-- crates/studio-server/src/routes/login.rs.
use cobrust_studio.Base.{
  ◌≤◌, ◌≡◌, refl, sym, ap, ◌∙◌, arith, Option, none, some, Text, Result, ok, err, map_err,
  map_err-ok, length, take, eq_text_refl, ok_injective, ℕ, zero, suc, List, [], ◌∷◌,
}
use cobrust_studio.Store.{sqlite}
use cobrust_studio.Store.Session.{Bytes, EncryptedBlob, slot_endpoint, set_endpoint, set}
use cobrust_studio.Routes.{RouteError, of_store}
use cobrust_studio.Secret.{
  SessionKey, EndpointSecret, SecretError, not_opened, kdf, not_sealed, malformed, unknown_scheme,
  IsSound, derive, open_blob,
}
use cobrust_studio.Secret.Seal.{seal-parts, derive-salt}
use cobrust_studio.Steps.{◌>>=◌, ◌>>◌, lift, behind}
use cobrust_studio.Login.{
  LoginRequest, Server, AppState, login, read_endpoint, write_endpoint, login_key, seal_secret,
  keep_key, keep_passphrase, reusable, sealed_blob, known_key, verified, secret_of,
  validate_login_request,
}

-- A length of at least `n` is cut to `n`.
pub length-take {ℓ} : {A : Type ℓ} (n : ℕ) (xs : List A) → n ≤ length xs → length (take n xs) ≡ n
length-take zero xs h = refl
length-take (suc n) [] h = absurd (omega (arith, h))
length-take (suc n) (x ∷ xs) h = ap suc (length-take n xs (omega (arith, h)))

map_err-err :
    {E F A : Type 0} (f : E → F) (r : Result E A) {e : F}
    → map_err f r ≡ err e
    → (d : E) × (r ≡ err d)
map_err-err f (ok b) h = absurd (cc h)
map_err-err f (err d) h = (d, refl)

-- The keys of two options that are the same are the same.
pub the_key : {A : Type 0} {x y : A} → some x ≡ some y → x ≡ y
the_key h = cc

-- The state that holds no key, or a key that opens the blob in the slot of the endpoint.
abbrev pub IsUnlocked : (server : Server) → AppState server → Type 0
IsUnlocked server s =
    (k : SessionKey)
    → s.session_key ≡ some k
    → (b : EncryptedBlob) × (secret : EndpointSecret) × (server.table.blob_at slot_endpoint s.db
        ≡ some b)
      × (open_blob server.crypto k b.ciphertext ≡ ok secret)

pub reusable-long : (o : Option EncryptedBlob) (c : Bytes) → reusable o ≡ some c → 16 ≤ length c
unfolding reusable
reusable-long none c h = absurd (cc h)
reusable-long (some b) c h = ground (arith, h)

module _ (server : Server) (sound : IsSound server.crypto) where
  -- Choosing a key changes the generator alone.
  login_key-same :
      (p : Text) (o : Option Bytes) (s : AppState server)
      → ((login_key server p o s).1.db ≡ s.db)
        × ((login_key server p o s).1.session_key ≡ s.session_key)
        × ((login_key server p o s).1.stored ≡ s.stored)
  unfolding login_key
  login_key-same p none s = (refl, refl, refl)
  login_key-same p (some c) s = (refl, refl, refl)

  verified-same :
      (k k' : SessionKey) (r : Result SecretError EndpointSecret)
      → verified server k r ≡ ok k'
      → k ≡ k'
  unfolding verified
  verified-same k k' (ok s) h = ok_injective h
  verified-same k k' (err (kdf m)) h = ok_injective h
  verified-same k k' (err (not_sealed m)) h = ok_injective h
  verified-same k k' (err (not_opened m)) h = absurd (cc h)
  verified-same k k' (err (malformed e g)) h = ok_injective h
  verified-same k k' (err (unknown_scheme m)) h = ok_injective h

  known_key-derive :
      (c : Bytes) (r : Result SecretError SessionKey) (k : SessionKey)
      → known_key server c r ≡ ok k
      → r ≡ ok k
  unfolding known_key
  known_key-derive c (err e) k h = absurd (cc h)
  known_key-derive c (ok j) k h = ap ok (verified-same j k _ h)

  -- The key of a login is derived from the passphrase and a salt of 16 bytes.
  pub login_key-derive :
      (p : Text) (o : Option Bytes) (s : AppState server) (k : SessionKey)
      → ((c : Bytes) → o ≡ some c → 16 ≤ length c)
      → (login_key server p o s).0 ≡ ok k
      → (salt : Bytes) × (length salt ≡ 16) × (derive server.crypto p salt ≡ ok k)
  unfolding login_key
  login_key-derive p none s k long h =
      ((server.crypto.fill_bytes 16 s.rng).0, sound.fills 16 s.rng, map_err-ok _ _ h)
  login_key-derive p (some c) s k long h =
      (take 16 c, length-take 16 c (long c refl), known_key-derive c _ k h)

  write_endpoint-fails :
      (b : EncryptedBlob) (s : AppState server) (e : RouteError)
      → (write_endpoint server b s).0 ≡ err e
      → server.table.blob_at slot_endpoint (write_endpoint server b s).1.db
        ≡ server.table.blob_at slot_endpoint s.db
  unfolding write_endpoint set_endpoint set
  write_endpoint-fails b s e h =
      let (d, h1) = map_err-err of_store _ h in
      let (m, h2) = map_err-err sqlite _ h1 in
      server.table.upsert_fails slot_endpoint slot_endpoint b _ m s.db h2

  pub set_endpoint-blob :
      (b : EncryptedBlob) (db : server.table.Db)
      → (set_endpoint server.table b db).0 ≡ ok tt
      → server.table.blob_at slot_endpoint (set_endpoint server.table b db).1 ≡ some b
  unfolding set_endpoint set
  set_endpoint-blob b db h =
      server.table.upsert_law slot_endpoint slot_endpoint b _ db (map_err-ok sqlite _ h)
      ∙ rw (eq_text_refl slot_endpoint)

  pub write_endpoint-blob :
      (b : EncryptedBlob) (s : AppState server)
      → (write_endpoint server b s).0 ≡ ok tt
      → server.table.blob_at slot_endpoint (write_endpoint server b s).1.db ≡ some b
  unfolding write_endpoint
  write_endpoint-blob b s h = set_endpoint-blob b s.db (map_err-ok of_store _ h)

  moved-IsUnlocked :
      (s t : AppState server)
      → t.db ≡ s.db
      → t.session_key ≡ s.session_key
      → IsUnlocked server s
      → IsUnlocked server t
  moved-IsUnlocked s t same_db same_key h k hk =
      let (b, secret, at, opened) = h k (sym same_key ∙ hk) in
      (b, secret, ap (server.table.blob_at slot_endpoint) same_db ∙ at, opened)

  login_key-salt :
      (p : Text) (o : Option Bytes) (s : AppState server) (k : SessionKey)
      → ((c : Bytes) → o ≡ some c → 16 ≤ length c)
      → (login_key server p o s).0 ≡ ok k
      → length k.salt ≡ 16
  login_key-salt p o s k long h =
      let (salt, counted, derived) = login_key-derive p o s k long h in
      ap length (derive-salt server.crypto sound p salt derived) ∙ counted

  IsUnlocked-refused :
      (b : EncryptedBlob) (s : AppState server) (e : RouteError)
      → (write_endpoint server b s).0 ≡ err e
      → IsUnlocked server s
      → IsUnlocked server (write_endpoint server b s).1
  unfolding write_endpoint
  IsUnlocked-refused b s e he h k hk =
      let (old, secret, at, opened) = h k hk in
      (old, secret, write_endpoint-fails b s e he ∙ at, opened)

  kept-IsUnlocked :
      (p : Text) (k : SessionKey) (secret : EndpointSecret) (b : EncryptedBlob)
      (s : AppState server)
      → server.table.blob_at slot_endpoint s.db ≡ some b
      → open_blob server.crypto k b.ciphertext ≡ ok secret
      → IsUnlocked server ((keep_key server k >> keep_passphrase server p) s).1
  unfolding keep_key keep_passphrase ◌>>=◌
  kept-IsUnlocked p k secret b s at opened k' hk =
      (b, secret, at, ap (λ x. open_blob server.crypto x b.ciphertext) (sym (the_key hk)) ∙ opened)

  -- What the key and the secret of a login leave behind, once the blob is written.
  written-IsUnlocked :
      (p : Text) (k : SessionKey) (secret : EndpointSecret) (c : Bytes) (s : AppState server)
      → open_blob server.crypto k c ≡ ok secret
      → IsUnlocked server s
      → IsUnlocked server
          ((write_endpoint server (sealed_blob c)
              >> (keep_key server k >> keep_passphrase server p))
            s).1
  unfolding sealed_blob
  written-IsUnlocked p k secret c s opened h =
      behind (IsUnlocked server) (write_endpoint server (sealed_blob c)) _ s
        (λ e he. IsUnlocked-refused (sealed_blob c) s e he h)
        (λ u hu.
          kept-IsUnlocked p k secret (sealed_blob c) _ (write_endpoint-blob (sealed_blob c) s hu)
            opened)

  -- A key that was derived for a login seals the secret that the login writes.
  sealed-IsUnlocked :
      (p : Text) (k : SessionKey) (secret : EndpointSecret) (s : AppState server)
      → length k.salt ≡ 16
      → IsUnlocked server s
      → IsUnlocked server
          ((seal_secret server k secret >>= λ c.
              write_endpoint server (sealed_blob c)
              >> (keep_key server k >> keep_passphrase server p))
            s).1
  unfolding seal_secret
  sealed-IsUnlocked p k secret s hk h =
      behind (IsUnlocked server) (seal_secret server k secret) _ s (λ e he. h)
        (λ c hc.
          let (front, long, opened) =
            seal-parts server.crypto sound k secret s.rng c hk (map_err-ok _ _ hc) in
          written-IsUnlocked p k secret c _ opened h)

  pub login-IsUnlocked :
      (req : LoginRequest) (s : AppState server)
      → IsUnlocked server s
      → IsUnlocked server (login server req s).1
  unfolding login read_endpoint
  login-IsUnlocked req s h =
      behind (IsUnlocked server) (lift (validate_login_request req)) _ s (λ e he. h)
        (λ u hu.
          behind (IsUnlocked server) (read_endpoint server) _ s (λ e he. h)
            (λ existing he.
              let there = reusable existing in
              let (same_db, same_key, same_stored) = login_key-same req.passphrase there s in
              let h' =
                moved-IsUnlocked s (login_key server req.passphrase there s).1 same_db same_key h in
              behind (IsUnlocked server) (login_key server req.passphrase there) _ s (λ e he. h')
                (λ k hk.
                  sealed-IsUnlocked req.passphrase k (secret_of req) _
                    (login_key-salt req.passphrase there s k (reusable-long existing) hk) h')))
