-- ===== src/Login/Boot/Restart.antt =====
-- A login and the start of the next process: `login` in crates/studio-server/src/routes/login.rs, then
-- `auto_unlock_on_boot` in crates/studio-server/src/lib.rs.
use cobrust_studio.Base.{
  map_err-ok, ◌≤◌, ◌≡◌, refl, sym, ap, ◌∙◌, arith, false, not, Option, some, Text, Result, ok,
  length, take, ltb, eq_text, eq_text_refl, refuse_if,
}
use cobrust_studio.Store.Session.{Bytes, EncryptedBlob, slot_endpoint, get_endpoint}
use cobrust_studio.Secret.{
  SessionKey, EndpointSecret, SecretError, IsSound, derive, seal, open_blob, scheme_tag, salt_len,
}
use cobrust_studio.Secret.Seal.{seal-parts, derive-seal, derive-salt}
use cobrust_studio.Steps.{◌>>=◌, ◌>>◌, lift, >>=-on, behind-ok}
use cobrust_studio.Login.{
  LoginRequest, Server, AppState, login, sealed_blob, read_endpoint, write_endpoint, login_key,
  seal_secret, keep_key, keep_passphrase, reusable, secret_of, validate_login_request,
}
use cobrust_studio.Login.Unlocked.{write_endpoint-blob, login_key-derive, reusable-long}
use cobrust_studio.Login.Boot.{
  auto_unlock_on_boot, restarted, unlock, load_passphrase, loaded, find_blob, found_blob, derived,
  keep_if_opened,
}
use cobrust_studio.Login.Boot.Reach.{get_endpoint-blob}

module _ (server : Server) (sound : IsSound server.crypto) where
  load_passphrase-ok :
      (s : AppState server) (p : Text)
      → (server.persist.load s.stored).0 ≡ ok (some p)
      → (load_passphrase server s).0 ≡ ok p
  unfolding load_passphrase loaded
  load_passphrase-ok s p h = rw h

  find_blob-ok :
      (s : AppState server) (b : EncryptedBlob)
      → get_endpoint server.table s.db ≡ ok (some b)
      → find_blob server s ≡ (ok b, s)
  unfolding find_blob found_blob
  find_blob-ok s b h = rw h

  keep_if_opened-ok :
      (s : AppState server) (k : SessionKey) (r : Result SecretError EndpointSecret)
      {secret : EndpointSecret}
      → r ≡ ok secret
      → keep_if_opened server k r s ≡ (ok tt, record s { session_key = some k })
  unfolding keep_if_opened
  keep_if_opened-ok s k r h = rw h

  auto_unlock_on_boot-opened :
      (s : AppState server) (p : Text) (b : EncryptedBlob) (k : SessionKey)
      (secret : EndpointSecret)
      → (server.persist.load s.stored).0 ≡ ok (some p)
      → get_endpoint server.table s.db ≡ ok (some b)
      → b.scheme ≡ scheme_tag
      → 44 ≤ length b.ciphertext
      → derive server.crypto p (take 16 b.ciphertext) ≡ ok k
      → open_blob server.crypto k b.ciphertext ≡ ok secret
      → auto_unlock_on_boot server s
        ≡ record s { stored = (server.persist.load s.stored).1; session_key = some k }
  unfolding auto_unlock_on_boot unlock load_passphrase
  auto_unlock_on_boot-opened s p b k secret hl hg hs long hd ho =
      let enough : ltb (length b.ciphertext) 16 ≡ false = ground (arith, long) in
      let t = (load_passphrase server s).1 in
      let scheme_is : refuse_if (not (eq_text b.scheme scheme_tag)) (tt {0}) ≡ ok tt =
        rw (hs, eq_text_refl scheme_tag) in
      let salt_is : refuse_if (ltb (length b.ciphertext) 16) (tt {0}) ≡ ok tt = rw enough in
      let key_is : derived server (derive server.crypto p (take salt_len b.ciphertext)) ≡ ok k =
        rw hd in
      ap (λ (x : Result (Unit {0}) (Unit {0}) × AppState server). x.1)
        (>>=-on (load_passphrase server) _ s (load_passphrase-ok s p hl)
          ∙ (>>=-on (find_blob server) _ t (ap (λ x. x.0) (find_blob-ok t b hg))
              ∙ (>>=-on (lift _) _ _ scheme_is
                  ∙ (>>=-on (lift _) _ _ salt_is
                      ∙ (>>=-on (lift _) _ _ key_is ∙ keep_if_opened-ok _ k _ ho)))))
      ∙ ap
          (λ (x : Result (Unit {0}) EncryptedBlob × AppState server). record x.1 {
            session_key = some k;
          })
          (find_blob-ok t b hg)

  -- The state that holds the key of a passphrase, and a blob that this key opens.
  abbrev pub Restorable : Text → EndpointSecret → AppState server → Type 0
  Restorable p secret t =
      (k : SessionKey) × (c : Bytes) × (t.session_key ≡ some k)
      × (server.table.blob_at slot_endpoint t.db ≡ some (sealed_blob c))
      × (44 ≤ length c)
      × (derive server.crypto p (take 16 c) ≡ ok k)
      × (open_blob server.crypto k c ≡ ok secret)

  kept-Restorable :
      (p : Text) (k : SessionKey) (c : Bytes) (secret : EndpointSecret) (s : AppState server)
      → server.table.blob_at slot_endpoint s.db ≡ some (sealed_blob c)
      → 44 ≤ length c
      → derive server.crypto p (take 16 c) ≡ ok k
      → open_blob server.crypto k c ≡ ok secret
      → Restorable p secret ((keep_key server k >> keep_passphrase server p) s).1
  unfolding keep_key keep_passphrase ◌>>=◌
  kept-Restorable p k c secret s at long hk ho = (k, c, refl, at, long, hk, ho)

  written-Restorable :
      (p : Text) (salt : Bytes) (k : SessionKey) (secret : EndpointSecret) (g : server.crypto.Rng)
      (c : Bytes) (s : AppState server)
      → length salt ≡ 16
      → derive server.crypto p salt ≡ ok k
      → (seal server.crypto k secret g).0 ≡ ok c
      → (write_endpoint server (sealed_blob c) s).0 ≡ ok tt
      → Restorable p secret
          ((keep_key server k >> keep_passphrase server p)
            (write_endpoint server (sealed_blob c) s).1).1
  written-Restorable p salt k secret g c s counted from_salt hc hw =
      let (derived_again, opened) =
        derive-seal server.crypto sound p salt k secret g c counted from_salt hc in
      let (front, long, _) =
        seal-parts server.crypto sound k secret g c
          (ap length (derive-salt server.crypto sound p salt from_salt) ∙ counted) hc in
      kept-Restorable p k c secret _ (write_endpoint-blob server sound (sealed_blob c) s hw) long
        derived_again opened

  pub login-Restorable :
      (req : LoginRequest) (s : AppState server)
      → (login server req s).0 ≡ ok tt
      → Restorable req.passphrase (secret_of req) (login server req s).1
  unfolding login seal_secret
  login-Restorable req s h =
      let P = Restorable req.passphrase (secret_of req) in
      behind-ok P (lift (validate_login_request req)) _ s h (λ u hv h1.
        behind-ok P (read_endpoint server) _ s h1 (λ existing hr h2.
          behind-ok P (login_key server req.passphrase (reusable existing)) _ _ h2 (λ k hk h3.
            behind-ok P (seal_secret server k (secret_of req)) _ _ h3 (λ c hc h4.
              behind-ok P (write_endpoint server (sealed_blob c)) _ _ h4 (λ u hw h5.
                let (salt, counted, from_salt) =
                  login_key-derive server sound req.passphrase (reusable existing) _ k
                    (reusable-long existing) hk in
                written-Restorable req.passphrase salt k (secret_of req) _ c _ counted from_salt
                  (map_err-ok _ _ hc) hw)))))

  -- A login that succeeded and the start behind it: the same key, and the blob that it opens.
  pub login-restored :
      (req : LoginRequest) (s : AppState server) (o : Option EncryptedBlob)
      → (login server req s).0 ≡ ok tt
      → (server.persist.load (login server req s).1.stored).0 ≡ ok (some req.passphrase)
      → get_endpoint server.table (login server req s).1.db ≡ ok o
      → (k : SessionKey) × (c : Bytes) × ((login server req s).1.session_key ≡ some k)
        × (o ≡ some (sealed_blob c))
        × (open_blob server.crypto k c ≡ ok (secret_of req))
        × (auto_unlock_on_boot server (restarted server (login server req s).1)
            ≡ record (login server req s).1 {
              stored = (server.persist.load (login server req s).1.stored).1;
              session_key = some k;
            })
  unfolding restarted sealed_blob
  login-restored req s o h loads reads =
      let t = (login server req s).1 in
      let (k, c, holds, at, long, hk, ho) = login-Restorable req s h in
      let found = sym (get_endpoint-blob server sound t reads) ∙ at in
      (
        k,
        c,
        holds,
        found,
        ho,
        auto_unlock_on_boot-opened (restarted server t) req.passphrase (sealed_blob c) k
            (secret_of req) loads (reads ∙ ap ok found) refl long hk ho,
      )

  -- If the libraries are sound, a login that succeeded is restored by the next start: where the backend
  -- gives the passphrase of the login back, and the slot of the endpoint can be read, the new process
  -- comes to hold the key that the old one held.
  pub login-auto_unlock_on_boot :
      (req : LoginRequest) (s : AppState server) (o : Option EncryptedBlob)
      → (login server req s).0 ≡ ok tt
      → (server.persist.load (login server req s).1.stored).0 ≡ ok (some req.passphrase)
      → get_endpoint server.table (login server req s).1.db ≡ ok o
      → (k : SessionKey) × ((login server req s).1.session_key ≡ some k)
        × ((auto_unlock_on_boot server (restarted server (login server req s).1)).session_key
            ≡ some k)
  login-auto_unlock_on_boot req s o h loads reads =
      let (k, c, holds, _, _, again) = login-restored req s o h loads reads in
      (k, holds, ap (λ (x : AppState server). x.session_key) again)
