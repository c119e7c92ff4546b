-- ===== src/Provider.antt =====
-- crates/studio-router/src/provider.rs: the completion types and the classification of errors.
-- A `u32` or `u64` is a number below its modulus; a float is carried as its bits.
use cobrust_studio.Base.{ℕ, ◌+◌, min, Bool, true, false, Option, List, Text, String}

pub data Role : Type 0 where
  system user assistant : Role

pub record Message : Type 0 where
  pub role : Role
  pub content : Text

pub record SamplingParams : Type 0 where
  pub max_tokens : Option ℕ
  pub temperature : Option ℕ
  pub top_p : Option ℕ
  pub stop : List Text

pub record CompletionRequest : Type 0 where
  pub model : Text
  pub messages : List Message
  pub params : SamplingParams

pub record TokenUsage : Type 0 where
  pub prompt_tokens : ℕ
  pub completion_tokens : ℕ

abbrev pub u32_max : ℕ
u32_max = 4294967295

-- `u32::saturating_add`
abbrev pub saturating_add32 : ℕ → ℕ → ℕ
saturating_add32 a b = min (a + b) u32_max

-- `TokenUsage::total`
unfoldable pub total : TokenUsage → ℕ
total u = saturating_add32 u.prompt_tokens u.completion_tokens

pub record CompletionResponse : Type 0 where
  pub text : Text
  pub model : Text
  pub usage : TokenUsage

-- one streamed event
pub data Chunk : Type 0 where
  delta : Text → Chunk
  done : TokenUsage → Chunk

pub data LlmError : Type 0 where
  transport : Text → LlmError
  rate_limit : ℕ → LlmError
  server : ℕ → Text → LlmError
  bad_request : ℕ → Text → LlmError
  auth : LlmError
  decode : Text → LlmError
  stream : Text → LlmError
  cancelled : LlmError
  provider : Text → Text → LlmError

-- `LlmError::is_transient`
unfoldable pub is_transient : LlmError → Bool
is_transient (transport m) = true
is_transient (rate_limit ms) = true
is_transient (server s b) = true
is_transient (stream m) = true
is_transient (bad_request s b) = false
is_transient auth = false
is_transient (decode m) = false
is_transient cancelled = false
is_transient (provider c m) = false

-- `LlmError::is_provider_fault`
unfoldable pub is_provider_fault : LlmError → Bool
is_provider_fault (bad_request s b) = false
is_provider_fault cancelled = false
is_provider_fault (transport m) = true
is_provider_fault (rate_limit ms) = true
is_provider_fault (server s b) = true
is_provider_fault auth = true
is_provider_fault (decode m) = true
is_provider_fault (stream m) = true
is_provider_fault (provider c m) = true

-- `LlmError::code`
unfoldable pub code : LlmError → String
code (transport m) = "transport"
code (rate_limit ms) = "rate-limit"
code (server s b) = "server"
code (bad_request s b) = "bad-request"
code auth = "auth"
code (decode m) = "decode"
code (stream m) = "stream"
code cancelled = "cancelled"
code (provider c m) = "provider"
