-- ===== src/Ledger.antt =====
-- crates/studio-router/src/ledger.rs: the records of the JSONL ledger and the two constructors.
-- What `append` does with a record is in Router.antt.
pub mod Log
use cobrust_studio.Base.{ℕ, Bool, false, Option, none, some, Text, String, if◌then◌else◌}
use cobrust_studio.Config.{ProviderKind}
use cobrust_studio.Provider.{TokenUsage, total}

pub data Outcome : Type 0 where
  ok error_transient error_permanent : Outcome

pub record LedgerEntry : Type 0 where
  pub ts : Text
  pub task_tag : Option Text
  pub provider : Text
  pub provider_kind : Option ProviderKind
  pub model : Text
  pub cache_key : Text
  pub cache_hit : Bool
  pub prompt_tokens : ℕ
  pub completion_tokens : ℕ
  pub total_tokens : ℕ
  pub latency_ms : ℕ
  pub attempt : ℕ
  pub outcome : Outcome
  pub error_code : Option String

-- `LedgerEntry::ok`
unfoldable pub ok_entry :
    Text
    → Option Text
    → Text
    → Option ProviderKind
    → Text
    → Text
    → Bool
    → TokenUsage
    → ℕ
    → ℕ
    → LedgerEntry
unfolding total
ok_entry time tag name kind model_id key hit usage latency n = record {
  ts = time;
  task_tag = tag;
  provider = name;
  provider_kind = kind;
  model = model_id;
  cache_key = key;
  cache_hit = hit;
  prompt_tokens = usage.prompt_tokens;
  completion_tokens = usage.completion_tokens;
  total_tokens = total usage;
  latency_ms = latency;
  attempt = n;
  outcome = Outcome.ok;
  error_code = none;
}

-- `LedgerEntry::err`
unfoldable pub err_entry :
    Text
    → Option Text
    → Text
    → Option ProviderKind
    → Text
    → Text
    → ℕ
    → ℕ
    → String
    → Bool
    → LedgerEntry
err_entry time tag name kind model_id key latency n why transient = record {
  ts = time;
  task_tag = tag;
  provider = name;
  provider_kind = kind;
  model = model_id;
  cache_key = key;
  cache_hit = false;
  prompt_tokens = 0;
  completion_tokens = 0;
  total_tokens = 0;
  latency_ms = latency;
  attempt = n;
  outcome = if transient then error_transient else error_permanent;
  error_code = some why;
}
