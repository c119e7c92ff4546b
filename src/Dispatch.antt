-- ===== src/Dispatch.antt =====
-- crates/studio-server/src/routes/dispatch.rs: the request, the router that answers it, and the events
-- of the answer. TOML, the providers and the built router are parameters.
pub mod Chunks
pub mod Session
use cobrust_studio.Base.{
  ℕ, zero, suc, ◌+◌, ◌-◌, ◌/◌, ◌==◌, Bool, true, false, not, ◌&&◌, List, [], ◌∷◌, ◌++◌, Option,
  none, some, Text, String, codes, decimal, trim, is_empty, eq_text, is_whitespace, is_control, any,
  len, ltb, leb, length, take, drop, replicate, Result, ok, err, ok_or, refuse_if, map_err,
  if◌then◌else◌, ◌>>=◌, ◌>>◌,
}
use cobrust_studio.Config.{ProviderKind, anthropic, openai, synthetic}
use cobrust_studio.Provider.{
  Role, system, user, assistant, Message, SamplingParams, CompletionRequest, TokenUsage, LlmError,
  transport, rate_limit, server, bad_request, auth, decode, stream, cancelled, provider,
}
use cobrust_studio.Router.{DispatchResponse, RouterError, config, no_provider, all_failed, io}
use cobrust_studio.Store.{StoreError}
use cobrust_studio.Store.Session.{EncryptedBlob}
use cobrust_studio.Routes
use cobrust_studio.Routes.{RouteError, Envelope, into_response, store_text}
use cobrust_studio.Secret.{
  SessionKey, EndpointSecret, SecretError, not_opened, kdf, not_sealed, malformed, unknown_scheme,
  Crypto, open_blob,
}
use cobrust_studio.Login.{secret_text}

pub record DispatchMessage : Type 0 where
  pub role : Text
  pub content : Text

pub record DispatchRequest : Type 0 where
  pub model : Text
  pub messages : List DispatchMessage
  pub params : SamplingParams
  pub task_tag : Option Text

pub record DonePayload : Type 0 where
  pub provider : Text
  pub model : Text
  pub text : Text
  pub usage : TokenUsage
  pub cache_hit : Bool
  pub task_tag : Option Text

-- `ErrorPayload`, with the error for its text
pub record ErrorPayload : Type 0 where
  pub error : RouterError
  pub code : String

-- the events of the stream, each with its payload
pub data DispatchEvent : Type 0 where
  chunk : Text → DispatchEvent
  done : DonePayload → DispatchEvent
  failed : ErrorPayload → DispatchEvent

-- `parse_role`
parse_role : Text → Option Role
parse_role s =
    if eq_text s (codes "system")
    then some system
    else if eq_text s (codes "user")
    then some user
    else if eq_text s (codes "assistant")
    then some assistant
    else none

-- `validate_task_tag`
validate_task_tag : Option Text → Result RouteError (Option Text)
validate_task_tag none = ok none
validate_task_tag (some tag) =
    if is_empty tag
    then ok none
    else if ltb 256 (len tag)
    then err (Routes.bad_request (codes "task_tag must be <= 256 bytes") "task_tag_too_long")
    else if any is_control tag
    then err (
        Routes.bad_request (codes "task_tag must not contain control characters")
          "task_tag_invalid_chars")
    else ok (some tag)

-- The text of a role between quotes, as `{:?}` writes it, is a parameter.
unknown_role : (Text → Text) → ℕ → Text → RouteError
unknown_role debug i role =
    Routes.bad_request
      (codes "messages["
        ++ (decimal i
            ++ (codes "].role: unknown role "
                ++ (debug role ++ codes " (expected one of system|user|assistant)"))))
      "invalid_body"

parse_messages : (Text → Text) → ℕ → List DispatchMessage → Result RouteError (List Message)
unfolding parse_role unknown_role
parse_messages debug i [] = ok []
parse_messages debug i (m ∷ ms) = do
  role ← ok_or (parse_role m.role) (unknown_role debug i m.role)
  rest ← parse_messages debug (i + 1) ms
  ok (record { role = role; content = m.content } ∷ rest)

-- `into_completion_request`, with the tag of the context
unfoldable pub into_completion_request :
    (Text → Text) → DispatchRequest → Result RouteError (CompletionRequest × Option Text)
unfolding parse_messages validate_task_tag
into_completion_request debug req = do
  refuse_if (is_empty (trim req.model))
      (Routes.bad_request (codes "model must be non-empty") "invalid_body")
  refuse_if (is_empty req.messages)
      (Routes.bad_request (codes "messages must contain at least one entry") "invalid_body")
  messages ← parse_messages debug 0 req.messages
  tag ← validate_task_tag req.task_tag
  ok (record { model = req.model; messages = messages; params = req.params }, tag)

put_first : ℕ → List Text → List Text
put_first c [] = (c ∷ []) ∷ []
put_first c (s ∷ ss) = (c ∷ s) ∷ ss

-- `split_inclusive(char::is_whitespace)`
split_inclusive : Text → List Text
unfolding put_first
split_inclusive [] = []
split_inclusive (c ∷ s) =
    if is_whitespace c then (c ∷ []) ∷ split_inclusive s else put_first c (split_inclusive s)

-- The loop over the strides, on fuel; a text has no more strides than characters.
strides : ℕ → ℕ → Text → List Text
strides zero stride s = []
strides (suc fuel) stride [] = []
strides (suc fuel) stride (c ∷ s) = take stride (c ∷ s) ∷ strides fuel stride (drop stride (c ∷ s))

-- the loop that pads to three pieces
pad : List Text → List Text
pad out = out ++ replicate (3 - length out) []

-- `chars.len().div_ceil(3).max(1)`
stride_of : ℕ → ℕ
stride_of n = if ltb ((n + 2) / 3) 1 then 1 else (n + 2) / 3

-- `split_into_chunks`
unfoldable pub split_into_chunks : Text → List Text
unfolding split_inclusive strides pad stride_of
split_into_chunks text =
    let words = split_inclusive text in
    if is_empty text
    then [] ∷ []
    else if leb 3 (length words)
    then words
    else pad (strides (length text) (stride_of (length text)) text)

chunks : List Text → List DispatchEvent
chunks [] = []
chunks (p ∷ ps) = chunk p ∷ chunks ps

-- `done_event`
done_event : DispatchResponse → Option Text → DispatchEvent
done_event resp tag = done (record {
  provider = resp.provider;
  model = resp.response.model;
  text = resp.response.text;
  usage = resp.response.usage;
  cache_hit = resp.cache_hit;
  task_tag = tag;
})

first_code : LlmError → String
first_code auth = "router_auth"
first_code (rate_limit ms) = "router_rate_limit"
first_code (bad_request s b) = "router_bad_request"
first_code (transport m) = "router_transport"
first_code (server s b) = "router_server"
first_code (decode m) = "router_failed"
first_code (stream m) = "router_failed"
first_code cancelled = "router_failed"
first_code (provider n m) = "router_failed"

-- `router_failure_code`, of the attempts
router_failure_code : List (Text × LlmError) → String
unfolding first_code
router_failure_code [] = "router_failed"
router_failure_code ((name, first) ∷ rest) = first_code first

error_code : RouterError → String
unfolding router_failure_code
error_code (config i) = "router_config"
error_code no_provider = "router_no_provider"
error_code (all_failed attempts) = router_failure_code attempts
error_code (io m) = "router_io"

-- `error_event_for_router`
error_event_for_router : RouterError → DispatchEvent
unfolding error_code
error_event_for_router e = failed (record { error = e; code = error_code e })

-- `phase_to_events`, of the outcome of a dispatch
unfoldable pub phase_to_events :
    Option Text → Result RouterError DispatchResponse → List DispatchEvent
unfolding chunks done_event error_event_for_router
phase_to_events tag (ok resp) =
    chunks (split_into_chunks resp.response.text) ++ done_event resp tag ∷ []
phase_to_events tag (err e) = error_event_for_router e ∷ []

-- What a dispatch of a session is built from: the constructors of the two providers, the reader of the
-- configuration, and the builder of the router.
pub record Builders : Type 1 where
  pub Provider : Type 0
  pub Handle : Type 0
  pub Cfg : Type 0
  pub anthropic_new : Text → Text → Result Text Provider
  pub openai_new : Text → Text → Result Text Provider
  pub from_toml_str : Text → Result Text Cfg
  pub build : Text → Provider → Cfg → Result Text Handle

module _ (builders : Builders) where
  open builders use {Provider, Handle, Cfg, anthropic_new, openai_new, from_toml_str, build}

  refused : Text → Envelope
  refused m = into_response (Routes.internal m)

  named : {A : Type 0} → Text → Result Text A → Result Envelope (A × Text)
  unfolding refused
  named kind (ok p) = ok (p, kind)
  named kind (err m) = err (refused m)

  -- `build_session_provider`
  unfoldable pub build_session_provider : EndpointSecret → Result Envelope (Provider × Text)
  unfolding named
  build_session_provider secret = elim secret.provider_kind [
    | anthropic ↦ named (codes "anthropic") (anthropic_new secret.endpoint secret.api_key)
    | openai ↦ named (codes "openai") (openai_new secret.endpoint secret.api_key)
    | synthetic ↦ err (
        into_response (
          Routes.service_unavailable
            (codes "synthetic provider not valid for session-driven dispatch") "invalid_session"))
  ]

  -- the configuration of a session, as it is written
  session_toml : EndpointSecret → Text → Text
  session_toml secret kind =
      codes "\n[router]\nstrategy = \"quality\"\npreferred = [\"session_provider:"
      ++ (secret.model
          ++ (codes "\"]\n\n[providers.session_provider]\nkind = \""
              ++ (kind
                  ++ (codes "\"\nbase_url = \""
                      ++ (secret.endpoint
                          ++ (codes "\"\napi_key_env = \"\"\nmodels = [\""
                              ++ (secret.model ++ codes "\"]\n")))))))

  -- a session key that does not open the blob
  session_refused : SecretError → Envelope
  session_refused (not_opened m) = record {
    status = 401;
    error = codes "session key does not match stored blob";
    code = "session_decrypt_failed";
  }
  session_refused (kdf m) = refused (secret_text (kdf m))
  session_refused (not_sealed m) = refused (secret_text (not_sealed m))
  session_refused (malformed e g) = refused (secret_text (malformed e g))
  session_refused (unknown_scheme m) = refused (secret_text (unknown_scheme m))

  no_endpoint : Envelope
  no_endpoint = record {
    status = 503;
    error = codes "no endpoint configured";
    code = "no_endpoint_configured";
  }

  -- the router of a session, from its secret
  pub session_router : EndpointSecret → Result Envelope Handle
  unfolding session_toml
  session_router secret = do
    made ← build_session_provider secret
    cfg ← map_err refused (from_toml_str (session_toml secret made.1))
    map_err refused (build (codes "session_provider") made.0 cfg)

  resolve_session :
      Crypto → SessionKey → Result StoreError (Option EncryptedBlob) → Result Envelope Handle
  unfolding session_router session_refused no_endpoint
  resolve_session crypto key found = do
    there ← map_err (λ e. refused (store_text e)) found
    blob ← ok_or there no_endpoint
    secret ← map_err session_refused (open_blob crypto key blob.ciphertext)
    session_router secret

  -- `resolve_router`, of the key, the blob in the slot of the endpoint, and the router of the configuration
  unfoldable pub resolve_router :
      Crypto
      → Option SessionKey
      → Result StoreError (Option EncryptedBlob)
      → Option Handle
      → Result Envelope Handle
  unfolding resolve_session refused
  resolve_router crypto (some key) found static = resolve_session crypto key found
  resolve_router crypto none found (some r) = ok r
  resolve_router crypto none found none = err (
      into_response (
        Routes.service_unavailable
          (codes "not authenticated; POST /api/login first or configure studio.toml")
          "router_not_configured"))

  -- the early returns of `dispatch_sse`
  started :
      (Text → Text)
      → Result Envelope Handle
      → Result Text DispatchRequest
      → Result Envelope (Handle × CompletionRequest × Option Text)
  started debug resolved payload = do
    router ← resolved
    req ← map_err (λ m. into_response (Routes.bad_request m "invalid_body")) payload
    made ← map_err into_response (into_completion_request debug req)
    ok (router, made.0, made.1)

  -- `dispatch_sse`, of the router that was resolved, with a request whose body may not be one
  unfoldable pub dispatch_sse :
      {W : Type 0} (debug : Text → Text)
      (run : Handle → CompletionRequest → Option Text → W → Result RouterError DispatchResponse × W)
      → Result Envelope Handle
      → Result Text DispatchRequest
      → W
      → Result Envelope (List DispatchEvent) × W
  unfolding started
  dispatch_sse debug run resolved payload w = elim (started debug resolved payload) [
    | err e ↦ (err e, w)
    | ok (router, cr, tag) ↦ let (r, w') = run router cr tag w in (ok (phase_to_events tag r), w')
  ]
