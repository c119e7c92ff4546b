-- ===== src/Secret/Seal.antt =====
-- Sealing and opening a secret, in crates/studio-server/src/secret.rs.
use mathlib.Core.List.{append_assoc}
use mathlib.Core.Path.{subst}
use cobrust_studio.Base.{
  codes, ◌≤◌, ◌≡◌, ◌++◌, refl, sym, ap, ◌∙◌, arith, false, Result, ok, err, length, take, drop,
  take-append, drop-append, length-append, ltb, ok_injective, Result-cases, inl, inr, Text,
}
use cobrust_studio.Store.Session.{Bytes}
use cobrust_studio.Secret.{
  SessionKey, EndpointSecret, Crypto, not_opened, IsSound, derive, with_salt, packed, seal_raw,
  seal_json, seal, decoded, open_blob,
}

module _ (crypto : Crypto) where
  decoded-cases :
      (r : Result Text Bytes)
      → ((secret : EndpointSecret) → ¬ (decoded crypto r ≡ ok secret))
      → (m : Text) × (decoded crypto r ≡ err (not_opened m))
  unfolding decoded
  decoded-cases (err e) h = (e, refl)
  decoded-cases (ok c) h = elim (Result-cases (crypto.from_json c)) [
    | inl (secret, e) ↦ absurd (h secret (rw e))
    | inr (m, e) ↦ (codes "json decode: " ++ m, rw e)
  ]

  -- The opening of a blob that is long enough fails as one of a wrong key does.
  pub open_blob-not_opened :
      (k : SessionKey) (c : Bytes)
      → 44 ≤ length c
      → ((secret : EndpointSecret) → ¬ (open_blob crypto k c ≡ ok secret))
      → (m : Text) × (open_blob crypto k c ≡ err (not_opened m))
  unfolding open_blob
  open_blob-not_opened k c long h =
      let enough : ltb (length c) 44 ≡ false = ground (arith, long) in
      let (m, e) =
        decoded-cases (crypto.decrypt k.key (take 12 (drop 16 c)) (drop 28 c))
          (λ secret hs. h secret (rw (enough) hs)) in
      (m, rw (enough) e)

module _ (crypto : Crypto) (sound : IsSound crypto) where
  -- the parts of a packed blob
  open-packed :
      (k : SessionKey) (nonce ciphertext : Bytes)
      → length k.salt ≡ 16
      → length nonce ≡ 12
      → 16 ≤ length ciphertext
      → open_blob crypto k (k.salt ++ (nonce ++ ciphertext))
        ≡ decoded crypto (crypto.decrypt k.key nonce ciphertext)
  unfolding open_blob
  open-packed k nonce ciphertext hs hn hc =
      let enough : ltb (length (k.salt ++ (nonce ++ ciphertext))) 44 ≡ false =
        ground
          (arith, length-append k.salt (nonce ++ ciphertext), length-append nonce ciphertext) in
      let behind : drop 28 (k.salt ++ (nonce ++ ciphertext)) ≡ ciphertext =
        ap (drop 28) (sym (append_assoc k.salt nonce ciphertext))
        ∙ drop-append (k.salt ++ nonce) ciphertext 28 (omega (arith, length-append k.salt nonce)) in
      rw (enough, behind, drop-append k.salt (nonce ++ ciphertext) 16 hs)
        (rw (take-append nonce ciphertext 12 hn))

  packed-ok :
      (k : SessionKey) (nonce : Bytes) (r : Result Text Bytes) {blob : Bytes}
      → packed crypto k nonce r ≡ ok blob
      → (c : Bytes) × (r ≡ ok c) × (k.salt ++ (nonce ++ c) ≡ blob)
  unfolding packed
  packed-ok k nonce (ok c) h = (c, refl, ok_injective h)
  packed-ok k nonce (err e) h = absurd (cc h)

  -- A sealed blob has the salt of its key, and the key opens it.
  seal_json-open_blob :
      (k : SessionKey) (s : EndpointSecret) (json : Result Text Bytes) (g : crypto.Rng)
      (blob : Bytes)
      → length k.salt ≡ 16
      → crypto.to_json s ≡ json
      → (seal_json crypto k json g).0 ≡ ok blob
      → (take 16 blob ≡ k.salt) × (44 ≤ length blob) × (open_blob crypto k blob ≡ ok s)
  unfolding seal_json seal_raw decoded
  seal_json-open_blob k s (err e) g blob hs hj h = absurd (cc h)
  seal_json-open_blob k s (ok json) g blob hs hj h =
      let nonce = (crypto.fill_bytes 12 g).0 in
      let (c, encrypted, same) = packed-ok k nonce _ h in
      let long = sound.tagged k.key nonce json encrypted in
      let counted = sound.fills 12 g in
      let opened : open_blob crypto k (k.salt ++ (nonce ++ c)) ≡ ok s =
        open-packed k nonce c hs counted (omega (arith, long))
        ∙ rw (sound.decrypts k.key nonce json encrypted) (rw (sound.reads_json s hj)) in
      subst (λ x. (take 16 x ≡ k.salt) × (44 ≤ length x) × (open_blob crypto k x ≡ ok s)) same
        (
          take-append k.salt (nonce ++ c) 16 hs,
          omega
              (arith, length-append k.salt (nonce ++ c), length-append nonce c, long, counted, hs),
          opened,
        )

  pub seal-parts :
      (k : SessionKey) (s : EndpointSecret) (g : crypto.Rng) (blob : Bytes)
      → length k.salt ≡ 16
      → (seal crypto k s g).0 ≡ ok blob
      → (take 16 blob ≡ k.salt) × (44 ≤ length blob) × (open_blob crypto k blob ≡ ok s)
  unfolding seal
  seal-parts k s g blob hs h = seal_json-open_blob k s (crypto.to_json s) g blob hs refl h

  pub derive-salt :
      (passphrase : Text) (salt : Bytes) {k : SessionKey}
      → derive crypto passphrase salt ≡ ok k
      → k.salt ≡ salt
  unfolding derive with_salt
  derive-salt passphrase salt h = elim (Result-cases (crypto.hash_password passphrase salt)) [
    | inl (key, e) ↦ ap (λ (x : SessionKey). x.salt) (sym (ok_injective (rw e at h)))
    | inr (m, e) ↦ absurd (cc (rw e at h))
  ]

  -- A secret that is sealed under a passphrase and a salt of 16 bytes is read back from its blob and the
  -- passphrase alone, if the libraries are sound: the key that is derived again, from the salt in the
  -- blob, opens it.
  pub derive-seal :
      (passphrase : Text) (salt : Bytes) (k : SessionKey) (s : EndpointSecret) (g : crypto.Rng)
      (blob : Bytes)
      → length salt ≡ 16
      → derive crypto passphrase salt ≡ ok k
      → (seal crypto k s g).0 ≡ ok blob
      → (derive crypto passphrase (take 16 blob) ≡ ok k) × (open_blob crypto k blob ≡ ok s)
  derive-seal passphrase salt k s g blob hs hk h =
      let from_salt = derive-salt passphrase salt hk in
      let (front, long, opened) = seal-parts k s g blob (ap length from_salt ∙ hs) h in
      (ap (derive crypto passphrase) (front ∙ from_salt) ∙ hk, opened)
