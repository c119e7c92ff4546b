-- ===== src/Tests/Sessions.antt =====
-- Runs of the login routes of crates/studio-server/src/routes/login.rs, of
-- crates/studio-server/src/secret.rs and of crates/studio-server/src/persist.rs.
use cobrust_studio.Base.{
  ℕ, ◌%◌, ◌≡◌, ◌≤◌, refl, arith, false, none, some, List, [], codes, ok, err, length, take,
  replicate, trim, trim_start, trim_end, len, len_utf8, is_whitespace, eq_text, ok_injective, ◌++◌,
  ◌∙◌, sym, ap, Text, true, is_empty, leb, ◌||◌, Result, if◌then◌else◌,
}
use cobrust_studio.Config.{anthropic}
use cobrust_studio.Store.Session.{
  slot_endpoint, get_endpoint, set_endpoint, get_slot, set, EncryptedBlob,
}
use cobrust_studio.Secret.{
  SessionKey, EndpointSecret, derive, seal, not_opened, seal_raw, open_blob, scheme_tag,
}
use cobrust_studio.Secret.Seal.{derive-seal}
use cobrust_studio.Persist.{regular, file_save, file_load, file_clear}
use cobrust_studio.Persist.File.{file_load-IsPrivate, file_load-save}
use cobrust_studio.Login.{
  AppState, LoginRequest, write_endpoint, login, logout, validate_login_request,
}
use cobrust_studio.Login.Unlocked.{IsUnlocked}
use cobrust_studio.Login.Wrong.{login-wrong_passphrase}
use cobrust_studio.Login.Boot.{auto_unlock_on_boot, restarted}
use cobrust_studio.Login.Boot.Reach.{start, by_login, by_logout, by_restart, Reach-IsUnlocked}
use cobrust_studio.Login.Boot.Restart.{login-auto_unlock_on_boot}
use cobrust_studio.Dispatch.{Builders, split_into_chunks, resolve_router, session_router}
use cobrust_studio.Dispatch.Chunks.{concat, concat-split_into_chunks}
use cobrust_studio.Dispatch.Session.{entered, login-resolve_router}
use cobrust_studio.Auth
use cobrust_studio.Auth.{SetEndpointRequest}
use cobrust_studio.Auth.Lockout.{blob_of, login-set_endpoint}
use cobrust_studio.Steps.{◌>>=◌}
use cobrust_studio.Tests.Vault.{crypto, crypto-IsSound, server, fresh, request, file_host, no_file}

abbrev salt : List ℕ
salt = replicate 16 7

abbrev key : SessionKey
key = record { key = codes "passphrase" ++ salt; salt = salt }

abbrev secret : EndpointSecret
secret = record {
  endpoint = codes "https://e";
  api_key = codes "sk-1";
  model = codes "m";
  provider_kind = anthropic;
}

abbrev sealed : List ℕ
sealed = elim ((seal crypto key secret 5).0) [ ok c ↦ c | err e ↦ [] ]

derive_test : derive crypto (codes "passphrase") salt ≡ ok key
unfolding derive codes
derive_test = refl

seal_test : (seal crypto key secret 5).0 ≡ ok sealed
unfolding seal seal_raw codes
seal_test = refl

derive-seal_example :
    (derive crypto (codes "passphrase") (take 16 sealed) ≡ ok key)
    × (open_blob crypto key sealed ≡ ok secret)
derive-seal_example =
    derive-seal crypto crypto-IsSound (codes "passphrase") salt key secret 5 sealed refl derive_test
      seal_test

save_test : (file_save file_host (codes "passphrase") no_file).0 ≡ ok tt
unfolding file_save ◌>>=◌
save_test = refl

load_test :
    (file_load file_host (file_save file_host (codes "passphrase") no_file).1).0
    ≡ ok (some (codes "passphrase"))
load_test = file_load-save file_host (codes "passphrase") no_file save_test refl refl

file_load-IsPrivate_example :
    (c : List ℕ) × (m : ℕ) × ((file_save file_host (codes "passphrase") no_file).1.node
      ≡ some (regular c m))
    × (m % 512 ≡ 0o600)
    × (file_host.from_utf8 c ≡ some (codes "passphrase"))
file_load-IsPrivate_example =
    file_load-IsPrivate file_host (file_save file_host (codes "passphrase") no_file).1
      (codes "passphrase") load_test

clear_test : (file_clear file_host (record { world = 0; node = some (regular [] 0o644) })).0 ≡ ok tt
unfolding file_clear ◌>>=◌
clear_test = refl

-- a login, a logout that keeps the passphrase, and a new start
abbrev visited : AppState server
visited =
    auto_unlock_on_boot server
      (restarted server (logout server false (login server request fresh).1).1)

Reach-IsUnlocked_example : IsUnlocked server visited
Reach-IsUnlocked_example =
    Reach-IsUnlocked server crypto-IsSound visited
      (by_restart (by_logout false (by_login request (start fresh refl))))

login_test : (login server request fresh).0 ≡ ok tt
unfolding login validate_login_request trim trim_start trim_end is_whitespace len len_utf8 derive
    seal seal_raw set_endpoint set get_endpoint get_slot codes ◌>>=◌
login_test = refl

kept_test :
    (server.persist.load (login server request fresh).1.stored).0 ≡ ok (some request.passphrase)
unfolding login validate_login_request trim trim_start trim_end is_whitespace len len_utf8 derive
    seal seal_raw set_endpoint set get_endpoint get_slot codes ◌>>=◌
kept_test = refl

read_test :
    get_endpoint server.table (login server request fresh).1.db
    ≡ ok (server.table.blob_at slot_endpoint (login server request fresh).1.db)
unfolding get_endpoint get_slot
read_test = refl

login-auto_unlock_on_boot_example :
    (k : SessionKey) × ((login server request fresh).1.session_key ≡ some k)
    × ((auto_unlock_on_boot server (restarted server (login server request fresh).1)).session_key
        ≡ some k)
login-auto_unlock_on_boot_example =
    login-auto_unlock_on_boot server crypto-IsSound request fresh
      (server.table.blob_at slot_endpoint (login server request fresh).1.db) login_test kept_test
      read_test

-- a state whose slot has the sealed secret
abbrev blob : EncryptedBlob
blob = record { ciphertext = sealed; nonce = []; scheme = scheme_tag }

abbrev guarded : AppState server
guarded = record {
  db = λ o. some blob;
  rng = 5;
  stored = none;
  session_key = none;
  debug_session = false;
}

abbrev intruder : LoginRequest
intruder = record request { passphrase = codes "another-passphrase" }

abbrev other_key : SessionKey
other_key = record { key = codes "another-passphrase" ++ salt; salt = salt }

other_test : derive crypto (codes "another-passphrase") (take 16 sealed) ≡ ok other_key
unfolding derive codes seal seal_raw
other_test = refl

refused_test : open_blob crypto other_key sealed ≡ err (not_opened (codes "tag"))
unfolding open_blob codes seal seal_raw eq_text
refused_test = refl

long_test : 44 ≤ length sealed
unfolding seal seal_raw codes
long_test = omega arith

login-wrong_passphrase_example :
    ((login server intruder guarded).1 ≡ guarded) × (¬ ((login server intruder guarded).0 ≡ ok tt))
login-wrong_passphrase_example =
    login-wrong_passphrase server intruder guarded blob refl refl long_test (λ k s hk ho. absurd (
      cc (
        sym refused_test
        ∙ (ap (λ x. open_blob crypto x sealed) (ok_injective (sym other_test ∙ hk)) ∙ ho))))

-- A blob that is sealed under one passphrase takes the place of the blob of another.
abbrev forged : SetEndpointRequest
forged = record { ciphertext = codes "blob"; nonce = []; scheme = scheme_tag }

abbrev base64 : Text → Result Text (List ℕ)
base64 t = if eq_text t (codes "blob") then ok sealed else ok []

abbrev owned : AppState server
owned = (login server intruder fresh).1

decoded_test : base64 forged.ciphertext ≡ ok sealed
unfolding codes eq_text
decoded_test = refl

nonce_test : base64 forged.nonce ≡ ok []
unfolding codes eq_text
nonce_test = refl

abbrev forged_blob : EncryptedBlob
forged_blob = blob_of forged sealed []

written_test : (write_endpoint server forged_blob owned).0 ≡ ok tt
unfolding write_endpoint set_endpoint set
written_test = refl

login-set_endpoint_example :
    ((Auth.set_endpoint server base64 (ok forged) owned).0 ≡ ok tt)
    × (server.table.blob_at slot_endpoint (Auth.set_endpoint server base64 (ok forged) owned).1.db
        ≡ some forged_blob)
    × ((login server intruder (Auth.set_endpoint server base64 (ok forged) owned).1).1
        ≡ (Auth.set_endpoint server base64 (ok forged) owned).1)
    × (¬ ((login server intruder (Auth.set_endpoint server base64 (ok forged) owned).1).0 ≡ ok tt))
login-set_endpoint_example =
    login-set_endpoint server base64 forged sealed [] owned intruder decoded_test nonce_test refl
      long_test written_test
      (λ k s hk ho. absurd (
        cc (
          sym refused_test
          ∙ (ap (λ x. open_blob crypto x sealed) (ok_injective (sym other_test ∙ hk)) ∙ ho))))

abbrev pieces : Text
pieces = codes "one two"

concat-split_into_chunks_example :
    (concat (split_into_chunks pieces) ≡ pieces)
    × ((is_empty pieces || leb 3 (length (split_into_chunks pieces))) ≡ true)
concat-split_into_chunks_example = concat-split_into_chunks pieces

abbrev builders : Builders
builders = record {
  Provider = Text;
  Handle = Text;
  Cfg = Text;
  anthropic_new = λ endpoint key. ok endpoint;
  openai_new = λ endpoint key. ok endpoint;
  from_toml_str = λ s. ok s;
  build = λ name p cfg. ok p;
}

login-resolve_router_example :
    (resolve_router builders crypto
        (login server request fresh).1.session_key
        (get_endpoint server.table (login server request fresh).1.db)
        none
      ≡ session_router builders (entered request))
    × (resolve_router builders crypto
          (auto_unlock_on_boot server (restarted server (login server request fresh).1)).session_key
          (get_endpoint server.table
            (auto_unlock_on_boot server (restarted server (login server request fresh).1)).db)
          none
        ≡ session_router builders (entered request))
login-resolve_router_example =
    login-resolve_router builders server crypto-IsSound request fresh
      (server.table.blob_at slot_endpoint (login server request fresh).1.db) none login_test
      kept_test read_test
