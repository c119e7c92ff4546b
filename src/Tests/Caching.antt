-- ===== src/Tests/Caching.antt =====
-- Runs of crates/studio-router/src/cache.rs and of the builder in crates/studio-router/src/router.rs.
use cobrust_studio.Base.{
  set_insert, ◌≡◌, ◌⊎◌, refl, none, some, List, [], ◌∷◌, Text, codes, ok, eq_text, any, trim,
  split_first,
}
use cobrust_studio.Config.{RouterConfig, cost, synthetic, parse, validate, contains_key}
use cobrust_studio.Host.{bind, eq_path, mode_of, Disk}
use cobrust_studio.Files.{on_directory, write, set_permissions, rename}
use cobrust_studio.Cache.{cache_put, cache_get, path_for, tmp_path}
use cobrust_studio.Cache.Atomic.{entry_file, cache_put-IsAtomic, cache_get-put}
use cobrust_studio.Router.{Router, registered}
use cobrust_studio.Router.Builder.{
  RouterBuilder, new, register_provider, retry_policy, build, resolve,
}
use cobrust_studio.Tests.World.{host, codec, codec_reads, request, answer}

abbrev root : List Text
root = codes "cache" ∷ []

abbrev key : Text
key = codes "abcdef"

abbrev empty_disk : Disk host
empty_disk = record { world = 0; files = λ p. none }

abbrev full_disk : Disk host
full_disk = (cache_put host codec root key request answer empty_disk).1

put_test : (cache_put host codec root key request answer empty_disk).0 ≡ ok tt
unfolding cache_put on_directory write set_permissions rename bind eq_path eq_text path_for tmp_path
    codes mode_of
put_test = refl

cache_put-IsAtomic_example :
    (full_disk.files (path_for root (codes "abcdee")) ≡ none)
    ⊎ ((bytes : Text) × (path_for root key ≡ path_for root (codes "abcdee"))
        × (codec.encode_entry request answer ≡ ok bytes)
        × (full_disk.files (path_for root (codes "abcdee")) ≡ entry_file host codec bytes))
cache_put-IsAtomic_example =
    cache_put-IsAtomic host codec root key (codes "abcdee") request answer empty_disk

cache_get-put_example : (cache_get host codec root key full_disk).0 ≡ ok (some answer)
cache_get-put_example =
    cache_get-put host codec codec_reads root key request answer empty_disk put_test refl

abbrev config : RouterConfig
config = record {
  router = record {
    strategy = cost;
    cache_dir = codes "cache";
    ledger_path = codes "ledger";
    preferred = codes "a:m" ∷ [];
  };
  providers =
      (
        codes "a",
        record { kind = synthetic; base_url = []; api_key_env = []; models = codes "m" ∷ [] },
      )
      ∷ [];
}

abbrev builder : RouterBuilder host
builder = record { providers = codes "a" ∷ []; retry = none }

abbrev built : Router host
built = record {
  providers = codes "a" ∷ [];
  preferred = record { provider = codes "a"; model = codes "m" } ∷ [];
  strategy = cost;
  cache_root = codes "cache" ∷ [];
  retry = record { max_attempts = 5; base_delay_ms = 250; factor = 2; max_total_ms = 30000 };
}

build_test : build host builder config empty_disk ≡ (ok built, empty_disk)
unfolding build resolve validate parse contains_key registered any on_directory eq_text codes
    split_first trim
build_test = refl

-- Two registrations under one name leave one provider.
register_test :
    retry_policy host built.retry
      (register_provider host (codes "a") (register_provider host (codes "a") (new host)))
    ≡ record { providers = codes "a" ∷ []; retry = some built.retry }
unfolding retry_policy register_provider new set_insert eq_text codes
register_test = refl
