-- ===== src/Login/Boot/Reach.antt =====
-- The states that the server comes to, by the requests of crates/studio-server/src/routes/login.rs and
-- the start in crates/studio-server/src/lib.rs.
use cobrust_studio.Base.{
  map_err-ok, ◌≡◌, refl, sym, ap, ◌∙◌, Bool, true, false, not, Option, none, some, Text, Result, ok,
  err, length, take, ltb, eq_text, refuse_if,
}
use cobrust_studio.Store.{StoreError, sqlite}
use cobrust_studio.Store.Session.{
  Bytes, EncryptedBlob, slot_endpoint, get_endpoint, get_slot, set_endpoint,
}
use cobrust_studio.Secret.{
  SessionKey, EndpointSecret, SecretError, IsSound, derive, seal, open_blob, scheme_tag, salt_len,
}
use cobrust_studio.Secret.Seal.{seal-parts, derive-salt}
use cobrust_studio.Steps.{◌>>=◌, ◌>>◌, lift, behind}
use cobrust_studio.Login.{LoginRequest, Server, AppState, login, logout, sealed_blob}
use cobrust_studio.Login.Unlocked.{IsUnlocked, the_key, login-IsUnlocked, set_endpoint-blob}
use cobrust_studio.Login.Boot.{
  auto_unlock_on_boot, restarted, inject_dev_key, inject_with, inject_sealed, unlock,
  load_passphrase, find_blob, found_blob, forget, derived, keep_if_opened,
}

-- The states of a server: it starts with no key, and then the requests and new starts come in any order.
-- The key from the command line counts at a time when the slot can be written.
pub data Reach (server : Server) : AppState server → Type 0 where
  start : (s : AppState server) → s.session_key ≡ none → Reach server s
  by_login :
      (req : LoginRequest) {s : AppState server}
      → Reach server s
      → Reach server (login server req s).1
  by_logout :
      (purge : Bool) {s : AppState server} → Reach server s → Reach server (logout server purge s).1
  by_restart :
      {s : AppState server}
      → Reach server s
      → Reach server (auto_unlock_on_boot server (restarted server s))
  by_dev_key :
      (secret : EndpointSecret) {s : AppState server}
      → ((b : EncryptedBlob) → (set_endpoint server.table b s.db).0 ≡ ok tt)
      → Reach server s
      → Reach server (inject_dev_key server secret s)

module _ (server : Server) (sound : IsSound server.crypto) where
  pub get_endpoint-blob :
      (s : AppState server) {o : Option EncryptedBlob}
      → get_endpoint server.table s.db ≡ ok o
      → server.table.blob_at slot_endpoint s.db ≡ o
  unfolding get_endpoint get_slot
  get_endpoint-blob s h = sym (server.table.select_law slot_endpoint s.db (map_err-ok sqlite _ h))

  find_blob-IsUnlocked :
      (s : AppState server) (r : Result StoreError (Option EncryptedBlob))
      → IsUnlocked server s
      → IsUnlocked server (found_blob server r s).1
  unfolding found_blob forget
  find_blob-IsUnlocked s (ok (some b)) h = h
  find_blob-IsUnlocked s (ok none) h = h
  find_blob-IsUnlocked s (err e) h = h

  found_blob-ok :
      (s : AppState server) (r : Result StoreError (Option EncryptedBlob)) (b : EncryptedBlob)
      → (found_blob server r s).0 ≡ ok b
      → (r ≡ ok (some b)) × ((found_blob server r s).1 ≡ s)
  unfolding found_blob forget
  found_blob-ok s (ok (some c)) b h = (cc, refl)
  found_blob-ok s (ok none) b h = absurd (cc h)
  found_blob-ok s (err e) b h = absurd (cc h)

  keep_if_opened-IsUnlocked :
      (k : SessionKey) (b : EncryptedBlob) (r : Result SecretError EndpointSecret)
      (s : AppState server)
      → server.table.blob_at slot_endpoint s.db ≡ some b
      → open_blob server.crypto k b.ciphertext ≡ r
      → IsUnlocked server s
      → IsUnlocked server (keep_if_opened server k r s).1
  unfolding keep_if_opened forget
  keep_if_opened-IsUnlocked k b (ok secret) s at opened h k' hk =
      (b, secret, at, ap (λ x. open_blob server.crypto x b.ciphertext) (sym (the_key hk)) ∙ opened)
  keep_if_opened-IsUnlocked k b (err e) s at opened h k' hk = h k' hk

  opened-IsUnlocked :
      (p : Text) (b : EncryptedBlob) (s : AppState server)
      → server.table.blob_at slot_endpoint s.db ≡ some b
      → IsUnlocked server s
      → IsUnlocked server
          ((lift (refuse_if (not (eq_text b.scheme scheme_tag)) tt)
              >> (lift (refuse_if (ltb (length b.ciphertext) 16) tt)
                  >> (lift (derived server (derive server.crypto p (take salt_len b.ciphertext)))
                      >>= λ k. keep_if_opened server k (open_blob server.crypto k b.ciphertext))))
            s).1
  opened-IsUnlocked p b s at h =
      behind (IsUnlocked server) (lift _) _ s (λ e he. h)
        (λ u hu.
          behind (IsUnlocked server) (lift _) _ s (λ e he. h)
            (λ u hu.
              behind (IsUnlocked server) (lift _) _ s (λ e he. h)
                (λ k hk. keep_if_opened-IsUnlocked k b _ s at refl h)))

  auto_unlock_on_boot-IsUnlocked :
      (s : AppState server) → IsUnlocked server s → IsUnlocked server (auto_unlock_on_boot server s)
  unfolding auto_unlock_on_boot unlock load_passphrase find_blob
  auto_unlock_on_boot-IsUnlocked s h =
      behind (IsUnlocked server) (load_passphrase server) _ s (λ e he. h)
        (λ p hp.
          let t = (load_passphrase server s).1 in
          behind (IsUnlocked server) (find_blob server) _ t (λ e he. find_blob-IsUnlocked t _ h)
            (λ b hb.
              let (found, same) = found_blob-ok t _ b hb in
              opened-IsUnlocked p b _
                (ap (λ (x : AppState server). server.table.blob_at slot_endpoint x.db) same
                  ∙ get_endpoint-blob t found)
                (find_blob-IsUnlocked t _ h)))

  logout-IsUnlocked :
      (purge : Bool) (s : AppState server) → IsUnlocked server (logout server purge s).1
  unfolding logout
  logout-IsUnlocked true s k h = absurd (cc h)
  logout-IsUnlocked false s k h = absurd (cc h)

  inject_sealed-IsUnlocked :
      (k : SessionKey) (secret : EndpointSecret) (r : Result SecretError Bytes)
      (s : AppState server)
      → ((c : Bytes) → r ≡ ok c → open_blob server.crypto k c ≡ ok secret)
      → ((b : EncryptedBlob) → (set_endpoint server.table b s.db).0 ≡ ok tt)
      → IsUnlocked server s
      → IsUnlocked server (inject_sealed server k r s)
  unfolding inject_sealed sealed_blob
  inject_sealed-IsUnlocked k secret (err e) s opens written h k' hk = h k' hk
  inject_sealed-IsUnlocked k secret (ok c) s opens written h k' hk = (
    sealed_blob c,
    secret,
    set_endpoint-blob server sound (sealed_blob c) s.db (written _),
    ap (λ x. open_blob server.crypto x c) (sym (the_key hk)) ∙ opens c refl,
  )

  inject_with-IsUnlocked :
      (secret : EndpointSecret) (r : Result SecretError SessionKey) (s : AppState server)
      → ((k : SessionKey) → r ≡ ok k → length k.salt ≡ 16)
      → ((b : EncryptedBlob) → (set_endpoint server.table b s.db).0 ≡ ok tt)
      → IsUnlocked server s
      → IsUnlocked server (inject_with server secret r s)
  unfolding inject_with
  inject_with-IsUnlocked secret (err e) s salted written h k' hk = h k' hk
  inject_with-IsUnlocked secret (ok k) s salted written h k' hk =
      inject_sealed-IsUnlocked k secret (seal server.crypto k secret s.rng).0
        (record s { rng = (seal server.crypto k secret s.rng).1 })
        (λ c hc. (seal-parts server.crypto sound k secret s.rng c (salted k refl) hc).2) written h
        k' hk

  -- If the libraries are sound, a server that was started with no key, and then went through logins,
  -- logouts, new starts, and keys from the command line at times when the slot can be written, in any
  -- order and with any other failures of its libraries, holds no key, or a key that opens the blob in the
  -- slot of the endpoint.
  pub Reach-IsUnlocked : (s : AppState server) → Reach server s → IsUnlocked server s
  unfolding inject_dev_key restarted
  Reach-IsUnlocked _ (start s h) k hk = absurd (cc (sym h ∙ hk))
  Reach-IsUnlocked _ (by_login req r) k hk =
      login-IsUnlocked server sound req _ (Reach-IsUnlocked _ r) k hk
  Reach-IsUnlocked _ (by_logout purge r) k hk = logout-IsUnlocked purge _ k hk
  Reach-IsUnlocked _ (by_restart {s} r) k hk =
      auto_unlock_on_boot-IsUnlocked (restarted server s) (λ j hj. absurd (cc hj)) k hk
  Reach-IsUnlocked _ (by_dev_key secret {s} written r) k hk =
      inject_with-IsUnlocked secret _
        (record s { rng = (server.crypto.fill_bytes salt_len s.rng).1 })
        (λ j hj. ap length (derive-salt server.crypto sound _ _ hj) ∙ sound.fills 16 s.rng) written
        (Reach-IsUnlocked _ r) k hk
