-- ===== src/Tests/World.antt =====
-- A small world for the code of crates/studio-router/src: a clock that counts nanoseconds, no faults,
-- and a provider whose first call fails and whose later calls succeed.
use cobrust_studio.Base.{
  ℕ, ◌+◌, ◌*◌, ◌≡◌, refl, sym, ap, ◌∙◌, Option, none, some, [], ◌∷◌, ◌++◌, Text, codes, Result, ok,
  err, ltb, ◌==◌, length, take, drop, take-append, drop-append, if◌then◌else◌, ok_injective,
}
use cobrust_studio.Config.{ProviderModel, cost, synthetic}
use cobrust_studio.Provider.{CompletionRequest, CompletionResponse, rate_limit, user}
use cobrust_studio.Json.{Value}
use cobrust_studio.Host.{Host, Floats}
use cobrust_studio.Cache.{Codec}
use cobrust_studio.Router.{Router, State, Attempt}

abbrev pub floats : Floats
floats = record {
  F = ℕ;
  infinity = 1000000;
  of_u64 = λ n. n;
  powi = λ f n. f * n;
  times = ◌*◌;
  mul_add = λ a b c. a * b + c;
  at_most_zero = λ n. n == 0;
  as_u64 = λ n. n;
  greater = λ a b. ltb b a;
  alpha = 1;
  one_minus_alpha = 4;
}

abbrev pub answer : CompletionResponse
answer = record {
  text = codes "hi";
  model = codes "m";
  usage = record { prompt_tokens = 3; completion_tokens = 2 };
}

abbrev pub host : Host
host = record {
  floats = floats;
  W = ℕ;
  complete = λ name req w. (if ltb w 1 then err (rate_limit 7) else ok answer, w + 1);
  kind = λ name. synthetic;
  now = λ w. w;
  sleep = λ d w. w + d * 1000000;
  now_rfc3339 = λ w. w ∷ [];
  gen_range = λ f w. (f, w);
  fault = λ w. (none, w);
  created_mode = 0o644;
}

-- the entry of a response: its counts, the length of the model's name, the name and the text
abbrev encode : CompletionResponse → Text
encode r = r.usage.prompt_tokens ∷ r.usage.completion_tokens ∷ length r.model ∷ (r.model ++ r.text)

abbrev decode : Text → Result Text CompletionResponse
decode [] = err []
decode (p ∷ []) = err []
decode (p ∷ c ∷ []) = err []
decode (p ∷ c ∷ n ∷ rest) = ok (record {
  text = drop n rest;
  model = take n rest;
  usage = record { prompt_tokens = p; completion_tokens = c };
})

abbrev pub codec : Codec
codec = record {
  to_string = λ v. none;
  f32_value = λ n. Value.null;
  digest = λ t. t;
  encode_entry = λ req resp. ok (encode resp);
  decode_entry = decode;
}

decode-encode : (resp : CompletionResponse) → decode (encode resp) ≡ ok resp
decode-encode resp = rw (
  take-append resp.model resp.text (length resp.model) refl,
  drop-append resp.model resp.text (length resp.model) refl,
)

pub codec_reads :
    (req : CompletionRequest) (resp : CompletionResponse) (bytes : Text)
    → codec.encode_entry req resp ≡ ok bytes
    → codec.decode_entry bytes ≡ ok resp
codec_reads req resp bytes e = ap decode (sym (ok_injective e)) ∙ decode-encode resp

abbrev pub model_a : ProviderModel
model_a = record { provider = codes "a"; model = codes "m" }

abbrev pub router : Router host
router = record {
  providers = codes "a" ∷ [];
  preferred = model_a ∷ [];
  strategy = cost;
  cache_root = codes "cache" ∷ [];
  retry = record { max_attempts = 3; base_delay_ms = 1; factor = 2; max_total_ms = 10 };
}

abbrev pub request : CompletionRequest
request = record {
  model = codes "any";
  messages = record { role = user; content = codes "hello" } ∷ [];
  params = record { max_tokens = none; temperature = none; top_p = none; stop = [] };
}

abbrev pub start : State host
start = record {
  disk = record { world = 0; files = λ p. none };
  ledger = [];
  latency = [];
  calls = [];
  slept = [];
}

abbrev pub attempt : Attempt host
attempt = record {
  router = router;
  task_tag = none;
  pm = model_a;
  request = request;
  key = codes "abcdef";
  total_start = 0;
}

-- the state behind a run
abbrev pub state_after : {A : Type 0} → Option (A × State host) → State host
state_after none = start
state_after (some (a, s)) = s

abbrev pub result_of : {A : Type 0} → Option (A × State host) → Option A
result_of none = none
result_of (some (a, s)) = some a

some_injective : {A : Type 0} {a b : A} → some a ≡ some b → a ≡ b
some_injective h = cc

pub run_eq :
    {A : Type 0} {a : A} (o : Option (A × State host))
    → result_of o ≡ some a
    → o ≡ some (a, state_after o)
run_eq none h = absurd (cc)
run_eq (some (b, s)) h = ap (λ x. some (x, s)) (some_injective h)
