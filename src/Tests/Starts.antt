-- ===== src/Tests/Starts.antt =====
-- Runs of crates/studio-server/src/router_init.rs, crates/studio-server/src/routes/models.rs,
-- crates/studio-store/src/watch.rs and crates/studio-router/src/ledger.rs.
use cobrust_studio.Base.{
  ℕ, ◌*◌, ◌≡◌, refl, arith, true, false, List, [], ◌∷◌, Option, none, some, Text, codes, ok, err,
  eq_text, trim, trim_start, trim_end, is_whitespace, set_insert, any, split_first, contains_text,
  lt_text,
}
use cobrust_studio.Config.{RouterConfig, cost, synthetic, parse, validate, contains_key}
use cobrust_studio.Host.{Disk, eq_path}
use cobrust_studio.Files.{on_directory}
use cobrust_studio.Router.{Router, registered}
use cobrust_studio.Router.Builder.{register_provider, build, resolve}
use cobrust_studio.Router.Builder
use cobrust_studio.RouterInit.{
  Surroundings, try_build_router_from_project, build_inner, read_config, make_provider,
  register_one, ciphertext_of,
}
use cobrust_studio.RouterInit.Available.{WasRead, StandsOn, try_build_router_from_project-StandsOn}
use cobrust_studio.Store.Session.{EncryptedBlob}
use cobrust_studio.Synthetic
use cobrust_studio.Models.{Lister, parse_model_ids}
use cobrust_studio.Models.Ids.{IsListing, parse_model_ids-IsListing}
use cobrust_studio.Store.Documents.{modify}
use cobrust_studio.Store.Watch.{
  WatchStep, notified, polled, modify_kind, watch_dir_stream, run, step, on_notify, map_kind,
  try_send, poll_next, same_key, eq_kind, emitted,
}
use cobrust_studio.Store.Watch.Debounce.{AreApart, run-AreApart}
use cobrust_studio.Tests.World.{host}

abbrev empty_disk : Disk host
empty_disk = record { world = 0; files = λ p. none }

abbrev config : RouterConfig
config = record {
  router = record {
    strategy = cost;
    cache_dir = codes "cache";
    ledger_path = codes "ledger";
    preferred = codes "a:m" ∷ [];
  };
  providers =
      (
        codes "a",
        record { kind = synthetic; base_url = []; api_key_env = []; models = codes "m" ∷ [] },
      )
      ∷ [];
}

abbrev around : Surroundings
around = record {
  var = λ k. none;
  exists = λ p. true;
  read_to_string = λ p. ok (codes "toml");
  from_utf8 = λ b. none;
  from_toml_str = λ t. ok config;
  client = err [];
}

abbrev booted : Router host
booted = record {
  providers = codes "a" ∷ [];
  preferred = record { provider = codes "a"; model = codes "m" } ∷ [];
  strategy = cost;
  cache_root = codes "cache" ∷ [];
  retry = record {
    max_attempts = 5;
    base_delay_ms = 250;
    factor = host.of_u64 2;
    max_total_ms = 30000;
  };
}

boot_test : (try_build_router_from_project around host (ok none) empty_disk).0 ≡ some booted
unfolding try_build_router_from_project build_inner read_config make_provider register_one
    Builder.new register_provider build resolve on_directory validate parse contains_key registered
    codes eq_text set_insert any trim trim_start trim_end is_whitespace split_first Synthetic.new
boot_test = refl

try_build_router_from_project-StandsOn_example :
    (cfg : RouterConfig) × (there : Option EncryptedBlob) × WasRead around host (ok none) cfg there
    × StandsOn around host booted cfg (ciphertext_of there)
try_build_router_from_project-StandsOn_example =
    try_build_router_from_project-StandsOn around host (ok none) empty_disk boot_test

abbrev lister : Lister
lister = record {
  client = err [];
  envelope = λ b.
      ok (some (codes "a") ∷ none ∷ some (codes " ") ∷ some (codes "a") ∷ some (codes " b ") ∷ []);
}

ids_test : parse_model_ids lister [] ≡ ok (codes "a" ∷ codes "b" ∷ [])
unfolding parse_model_ids contains_text set_insert lt_text eq_text codes trim trim_start trim_end
    is_whitespace
ids_test = refl

parse_model_ids-IsListing_example :
    (entries : List (Option Text)) × (lister.envelope [] ≡ ok entries)
    × IsListing entries (codes "a" ∷ codes "b" ∷ [])
parse_model_ids-IsListing_example = parse_model_ids-IsListing lister [] ids_test

-- Two changes of a file, a poll for each, on a clock with 50 ms between its readings.
abbrev change : WatchStep
change = notified (ok (record { kind = modify_kind; paths = (codes "f" ∷ []) ∷ [] }))

abbrev clock : ℕ → ℕ
clock n = 50000000 * n

abbrev steps : List WatchStep
steps = change ∷ polled ∷ change ∷ polled ∷ polled ∷ change ∷ polled ∷ []

run_test :
    run (λ p. false) clock steps (watch_dir_stream 0)
    ≡ record { event = record { path = codes "f" ∷ []; kind = modify }; time = 50000000 }
      ∷ record { event = record { path = codes "f" ∷ []; kind = modify }; time = 300000000 }
      ∷ []
unfolding run step on_notify map_kind try_send poll_next same_key eq_kind emitted watch_dir_stream
    eq_path eq_text codes
run_test = refl

run-AreApart_example : AreApart (run (λ p. false) clock steps (watch_dir_stream 0))
run-AreApart_example = run-AreApart clock (λ n. omega arith) (λ p. false) steps (watch_dir_stream 0)
