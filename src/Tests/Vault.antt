-- ===== src/Tests/Vault.antt =====
-- Small libraries for crates/studio-server/src/secret.rs and the login routes: a cipher that puts 16
-- bytes of the key in front, a table of slots, and a backend that keeps one text.
use cobrust_studio.Base.{
  ℕ, zero, suc, ◌+◌, ◌≡◌, refl, sym, ap, ◌∙◌, arith, true, false, Option, none, some, [], ◌∷◌, ◌++◌,
  Text, codes, Result, ok, err, ◌==◌, length, take, drop, take-append, drop-append, length-append,
  if◌then◌else◌, ok_injective, replicate, eq_text, eq_text_refl, sum,
}
use cobrust_studio.Config.{ProviderKind, anthropic, openai, synthetic}
use cobrust_studio.Store.Session.{Bytes, EncryptedBlob, SessionTable}
use cobrust_studio.Secret.{EndpointSecret, Crypto, IsSound}
use cobrust_studio.Persist.{PersistStore, FileHost, Place}
use cobrust_studio.Login.{LoginRequest, Server, AppState}

abbrev kind_code : ProviderKind → ℕ
kind_code anthropic = 0
kind_code openai = 1
kind_code synthetic = 2

abbrev kind_of : ℕ → ProviderKind
kind_of n = if n == 0 then anthropic else if n == 1 then openai else synthetic

kind_of-kind_code : (k : ProviderKind) → kind_of (kind_code k) ≡ k
kind_of-kind_code anthropic = refl
kind_of-kind_code openai = refl
kind_of-kind_code synthetic = refl

abbrev print : EndpointSecret → Bytes
print s =
    kind_code s.provider_kind
    ∷ length s.endpoint
    ∷ length s.api_key
    ∷ (s.endpoint ++ (s.api_key ++ s.model))

abbrev read : Bytes → Result Text EndpointSecret
read [] = err []
read (k ∷ []) = err []
read (k ∷ e ∷ []) = err []
read (k ∷ e ∷ a ∷ r) = ok (record {
  endpoint = take e r;
  api_key = take a (drop e r);
  model = drop a (drop e r);
  provider_kind = kind_of k;
})

read-print : (s : EndpointSecret) → read (print s) ≡ ok s
read-print s = rw (
  take-append s.endpoint (s.api_key ++ s.model) (length s.endpoint) refl,
  drop-append s.endpoint (s.api_key ++ s.model) (length s.endpoint) refl,
  take-append s.api_key s.model (length s.api_key) refl,
  drop-append s.api_key s.model (length s.api_key) refl,
  kind_of-kind_code s.provider_kind,
)

length-replicate : (n : ℕ) (a : ℕ) → length (replicate n a) ≡ n
length-replicate zero a = refl
length-replicate (suc n) a = ap suc (length-replicate n a)

abbrev tag : Bytes → Bytes
tag k = replicate 16 (sum k)

abbrev unseal : Bytes → Bytes → Result Text Bytes
unseal k x = if eq_text (take 16 x) (tag k) then ok (drop 16 x) else err (codes "tag")

unseal-tag : (k m : Bytes) → unseal k (tag k ++ m) ≡ ok m
unseal-tag k m = rw (eq_text_refl (tag k)) refl

abbrev pub crypto : Crypto
crypto = record {
  Rng = ℕ;
  fill_bytes = λ n g. (replicate n g, g + 1);
  hash_password = λ p salt. ok (p ++ salt);
  encrypt = λ k n m. ok (tag k ++ m);
  decrypt = λ k n x. unseal k x;
  to_json = λ s. ok (print s);
  from_json = read;
}

pub crypto-IsSound : IsSound crypto
crypto-IsSound = record {
  fills = λ n g. length-replicate n g;
  decrypts = λ k n m h. ap (unseal k) (sym (ok_injective h)) ∙ unseal-tag k m;
  tagged = λ k n m h. ap length (sym (ok_injective h)) ∙ omega (arith, length-append (tag k) m);
  reads_json = λ s h. ap read (sym (ok_injective h)) ∙ read-print s;
}

pub not_failed : {A : Type 0} {m : Text} → ◌≡◌ {A = Result Text (Unit {0})} (ok tt) (err m) → A
not_failed h = absurd (cc h)

abbrev pub table : SessionTable
table = record {
  Db = Text → Option EncryptedBlob;
  blob_at = λ key db. db key;
  select = λ key db. ok (db key);
  upsert = λ key blob at db. (ok tt, λ o. if eq_text key o then some blob else db o);
  delete = λ key db. (ok tt, λ o. if eq_text key o then none else db o);
  now_text = λ db. [];
  select_law = λ key db h. sym (ok_injective h);
  upsert_law = λ key other blob at db h. refl;
  upsert_fails = λ key other blob at m db h. not_failed h;
  delete_law = λ key other db h. refl;
  delete_fails = λ key other m db h. not_failed h;
}

abbrev pub persist : PersistStore
persist = record {
  P = Option Text;
  save = λ p s. (ok tt, some p);
  load = λ s. (ok s, s);
  clear = λ s. (ok tt, none);
}

abbrev pub server : Server
server = record { table = table; crypto = crypto; persist = persist }

abbrev pub fresh : AppState server
fresh = record { db = λ o. none; rng = 5; stored = none; session_key = none; debug_session = false }

abbrev pub request : LoginRequest
request = record {
  endpoint = codes "https://e";
  api_key = codes "sk-1";
  model = codes "m";
  passphrase = codes "passphrase";
  provider_kind = anthropic;
}

abbrev pub file_host : FileHost
file_host = record {
  W = ℕ;
  fault = λ w. (none, w);
  to_utf8 = λ s. s;
  from_utf8 = λ c. some c;
  reads_utf8 = λ s. refl;
  created_mode = 0o600;
  open_refused = λ n. codes "refused";
  has_parent = true;
}

abbrev pub no_file : Place file_host
no_file = record { world = 0; node = none }
