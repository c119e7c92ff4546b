-- ===== src/Tests/Tags.antt =====
-- Runs of crates/studio-router/src/config.rs.
use cobrust_studio.Base.{◌≡◌, refl, some, [], ◌∷◌, codes, trim, split_first}
use cobrust_studio.Config.{ProviderModel, RouterConfig, cost, parse}

abbrev sonnet : ProviderModel
sonnet = record { provider = codes "anthropic"; model = codes "claude:4" }

parse_test : parse (codes " anthropic : claude:4") ≡ some sonnet
unfolding parse split_first trim codes
parse_test = refl

parse_again : parse (codes "anthropic:claude:4") ≡ some sonnet
unfolding parse split_first trim codes
parse_again = refl

abbrev config : RouterConfig
config = record {
  router = record {
    strategy = cost;
    cache_dir = codes "cache";
    ledger_path = codes "ledger";
    preferred = codes "a:m" ∷ [];
  };
  providers = [];
}
