-- ===== src/Persist/File.antt =====
-- The passphrase file of crates/studio-server/src/persist.rs.
use cobrust_studio.Base.{
  ℕ, ◌%◌, ◌≡◌, inl, inr, refl, ap, ◌∙◌, arith, Option, none, some, List, [], ◌++◌, Text, ok,
  Option-cases, Bool-cases, ◌==◌,
}
use cobrust_studio.Host.{Fault}
use cobrust_studio.Steps.{◌>>=◌, >>=-ok}
use cobrust_studio.Persist.{
  Node, regular, symlink, directory, special, FileHost, Place, file_save, file_load, file_clear,
  create_parent, metadata_no_symlink, open_file, write_all, ask, set_mode, open_at, write_at,
  filled, with_mode, chmod_at, kind_of, faulted, read_file, read_text, remove_found, remove_at,
}

module _ (host : FileHost) where
  open_at-node :
      (f : Option Fault) (n : Option Node)
      → (open_at host f n).0 ≡ ok tt
      → (m : ℕ) × ((open_at host f n).1 ≡ some (regular [] m))
  unfolding open_at
  open_at-node (some f) n h = absurd (cc h)
  open_at-node none none h = (host.created_mode, refl)
  open_at-node none (some (regular c m)) h = (m, refl)
  open_at-node none (some symlink) h = absurd (cc h)
  open_at-node none (some directory) h = absurd (cc h)
  open_at-node none (some special) h = absurd (cc h)

  open_file-node :
      (s : Place host)
      → (open_file host s).0 ≡ ok tt
      → (m : ℕ) × ((open_file host s).1.node ≡ some (regular [] m))
  unfolding open_file
  open_file-node s h = open_at-node (host.fault s.world).0 s.node h

  write_all-node :
      (s : Place host) (bytes c : List ℕ) (m : ℕ)
      → s.node ≡ some (regular c m)
      → (write_all host bytes s).0 ≡ ok tt
      → (write_all host bytes s).1.node ≡ some (regular (c ++ bytes) m)
  unfolding write_all write_at filled
  write_all-node s bytes c m n h = ground arith

  ask-node : (s : Place host) → (ask host s).1.node ≡ s.node
  unfolding ask
  ask-node s = refl

  set_mode-node :
      (s : Place host) (c : List ℕ) (m : ℕ)
      → s.node ≡ some (regular c m)
      → (set_mode host s).0 ≡ ok tt
      → (set_mode host s).1.node ≡ some (regular c 0o600)
  unfolding set_mode chmod_at with_mode
  set_mode-node s c m n h = ground arith

  -- A save that succeeds leaves a regular file with the whole passphrase and mode 0600.
  pub file_save-node :
      (p : Text) (s : Place host)
      → (file_save host p s).0 ≡ ok tt
      → (file_save host p s).1.node ≡ some (regular (host.to_utf8 p) 0o600)
  unfolding file_save
  file_save-node p s h =
      let (_, h1, k1, e1) = >>=-ok (create_parent host) _ s h in
      let (_, h2, k2, e2) = >>=-ok (metadata_no_symlink host) _ _ k1 in
      let (_, h3, k3, e3) = >>=-ok (open_file host) _ _ k2 in
      let (_, h4, k4, e4) = >>=-ok (write_all host (host.to_utf8 p)) _ _ k3 in
      let (_, h5, k5, e5) = >>=-ok (ask host) _ _ k4 in
      let (m, opened) = open_file-node _ h3 in
      let s4 =
        (write_all host (host.to_utf8 p)
          (open_file host (metadata_no_symlink host (create_parent host s).1).1).1).1 in
      let full = write_all-node _ (host.to_utf8 p) [] m opened h4 in
      ap (λ (x : Place host). x.node) (e1 ∙ e2 ∙ e3 ∙ e4 ∙ e5)
      ∙ set_mode-node (ask host s4).1 (host.to_utf8 p) m (ask-node s4 ∙ full) k5

  metadata_no_symlink-kind :
      (s : Place host) {found : Option (List ℕ × ℕ)}
      → (metadata_no_symlink host s).0 ≡ ok found
      → (kind_of host s.node ≡ ok found) × ((metadata_no_symlink host s).1.node ≡ s.node)
  unfolding metadata_no_symlink
  metadata_no_symlink-kind s h =
      let (_, asked, found, same) = >>=-ok (ask host) _ s h in
      (found, ap (λ (x : Place host). x.node) same)

  kind_of-regular :
      (n : Option Node) (c : List ℕ) (m : ℕ)
      → kind_of host n ≡ ok (some (c, m))
      → n ≡ some (regular c m)
  unfolding kind_of
  kind_of-regular none c m h = absurd (cc h)
  kind_of-regular (some (regular d k)) c m h = cc
  kind_of-regular (some symlink) c m h = absurd (cc h)
  kind_of-regular (some directory) c m h = absurd (cc h)
  kind_of-regular (some special) c m h = absurd (cc h)

  read_text-some :
      (c : List ℕ) (t : Option Text) (p : Text) → read_text host c t ≡ ok (some p) → t ≡ some p
  unfolding read_text
  read_text-some c none p h = absurd (cc h)
  read_text-some c (some q) p h = cc

  read_file-some :
      (found : Option (List ℕ × ℕ)) (s : Place host) (p : Text)
      → (read_file host found s).0 ≡ ok (some p)
      → (c : List ℕ) × (m : ℕ) × (found ≡ some (c, m))
        × (m % 512 ≡ 0o600)
        × (host.from_utf8 c ≡ some p)
  unfolding read_file
  read_file-some none s p h = absurd (cc h)
  read_file-some (some (c, m)) s p h = elim (Bool-cases ((m % 512) == 0o600)) [
    | inr other ↦ absurd (cc (rw other at h))
    | inl private ↦
        let (_, asked, text, same) = >>=-ok (ask host) _ s (rw private at h) in
        (c, m, refl, ground arith, read_text-some c (host.from_utf8 c) p text)
  ]

  -- The passphrase file is read only as a regular file with mode 0600, and what is read is its text.
  pub file_load-IsPrivate :
      (s : Place host) (p : Text)
      → (file_load host s).0 ≡ ok (some p)
      → (c : List ℕ) × (m : ℕ) × (s.node ≡ some (regular c m))
        × (m % 512 ≡ 0o600)
        × (host.from_utf8 c ≡ some p)
  unfolding file_load
  file_load-IsPrivate s p h =
      let (found, looked, next, _) = >>=-ok (metadata_no_symlink host) _ s h in
      let (c, m, e, mode, text) = read_file-some found _ p next in
      let kind = (metadata_no_symlink-kind s looked).0 in
      (c, m, kind_of-regular s.node c m (kind ∙ ap ok e), mode, text)

  file_load-regular :
      (s : Place host) (c : List ℕ) (p : Text)
      → s.node ≡ some (regular c 0o600)
      → host.from_utf8 c ≡ some p
      → (host.fault s.world).0 ≡ none
      → (host.fault (host.fault s.world).1).0 ≡ none
      → (file_load host s).0 ≡ ok (some p)
  unfolding file_load metadata_no_symlink ask faulted kind_of read_file read_text ◌>>=◌
  file_load-regular s c p n t q r = rw (q, n) (rw r (rw t))

  -- What a save has stored is loaded again, if the two operations of the load meet no fault.
  pub file_load-save :
      (p : Text) (s : Place host)
      → (file_save host p s).0 ≡ ok tt
      → (host.fault (file_save host p s).1.world).0 ≡ none
      → (host.fault (host.fault (file_save host p s).1.world).1).0 ≡ none
      → (file_load host (file_save host p s).1).0 ≡ ok (some p)
  file_load-save p s h q r =
      file_load-regular _ (host.to_utf8 p) p (file_save-node p s h) (host.reads_utf8 p) q r

  remove_found-none :
      (found : Option (List ℕ × ℕ)) (s : Place host)
      → kind_of host s.node ≡ ok found
      → (remove_found host found s).0 ≡ ok tt
      → (remove_found host found s).1.node ≡ none
  unfolding remove_found remove_at kind_of
  remove_found-none none s k h = gone s.node k
    where
      gone : (n : Option Node) → kind_of host n ≡ ok none → n ≡ none
      gone none e = refl
      gone (some (regular c m)) e = absurd (cc e)
      gone (some symlink) e = absurd (cc e)
      gone (some directory) e = absurd (cc e)
      gone (some special) e = absurd (cc e)
  remove_found-none (some f) s k h = elim (Option-cases (host.fault s.world).0) [
    | inl quiet ↦ rw quiet
    | inr (g, failed) ↦ absurd (cc (rw failed at h))
  ]

  file_clear-none :
      (s : Place host) → (file_clear host s).0 ≡ ok tt → (file_clear host s).1.node ≡ none
  unfolding file_clear
  file_clear-none s h =
      let (found, looked, next, same) = >>=-ok (metadata_no_symlink host) _ s h in
      let (kind, kept) = metadata_no_symlink-kind s looked in
      ap (λ (x : Place host). x.node) same
      ∙ remove_found-none found _ (ap (kind_of host) kept ∙ kind) next

  file_load-none :
      (s : Place host)
      → s.node ≡ none
      → (host.fault s.world).0 ≡ none
      → (file_load host s).0 ≡ ok none
  unfolding file_load metadata_no_symlink ask faulted kind_of read_file ◌>>=◌
  file_load-none s n q = rw (q, n)

  -- After a clear that succeeds there is no file, and a load that meets no fault finds no passphrase.
  pub file_load-clear :
      (s : Place host)
      → (file_clear host s).0 ≡ ok tt
      → (host.fault (file_clear host s).1.world).0 ≡ none
      → ((file_clear host s).1.node ≡ none) × ((file_load host (file_clear host s).1).0 ≡ ok none)
  file_load-clear s h q = let gone = file_clear-none s h in (gone, file_load-none _ gone q)
