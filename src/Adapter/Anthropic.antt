-- ===== src/Adapter/Anthropic.antt =====
-- crates/studio-router/src/anthropic.rs: the adapter of the Messages API. What serde reads from a body
-- and how it shows a float are parameters.
pub mod Stream
pub mod Request
use cobrust_studio.Base.{
  ℕ, Bool, true, false, List, [], ◌∷◌, ◌++◌, map, Option, none, some, Text, codes, Result, ok, err,
  ◌>>=◌, map_err, if◌then◌else◌, eq_text, strip_prefix, trim, unwrap_or, is_empty, not,
}
use cobrust_studio.Json.{Value, bool, string, array, object, Fields, end, of_list}
use cobrust_studio.Provider.{
  Role, system, user, assistant, Message, SamplingParams, CompletionRequest, CompletionResponse,
  TokenUsage, Chunk, delta, LlmError, transport, decode, saturating_add32,
}
use cobrust_studio.Store.Markdown.{lines}
use cobrust_studio.Adapter.{
  Bytes, Post, Response, Client, trim_slashes, is_success, classify_status, error_body, Drained,
  nothing_drained, Flow, go, halt, fail, drain_items, yielded_of, async_stream_yield,
}
use cobrust_studio.Adapter.Body.{put, put_some, put_if, natural, texts, turn_of}

pub record AnthropicProvider : Type 0 where
  pub name : Text
  pub base_url : Text
  pub api_key : Text
  pub client : Client

-- `AnthropicProvider::new`, with what the builder of the HTTP client returns
unfoldable pub new : Result Text Client → Text → Text → Text → Result Text AnthropicProvider
unfolding trim_slashes
new built name base_url api_key = do
  client ← built
  ok (record { name = name; base_url = trim_slashes base_url; api_key = api_key; client = client })

unfoldable pub endpoint : AnthropicProvider → Text
endpoint p = p.base_url ++ codes "/v1/messages"

-- the messages of `build_body`: the texts of the system, and the conversation
record Separated : Type 0 where
  system_chunks : List Text
  convo : List Value

separate : Message → Separated → Separated
unfolding turn_of
separate m s = elim m.role [
  | system ↦ record s { system_chunks = s.system_chunks ++ m.content ∷ [] }
  | user ↦ record s { convo = s.convo ++ turn_of "user" m.content ∷ [] }
  | assistant ↦ record s { convo = s.convo ++ turn_of "assistant" m.content ∷ [] }
]

separate_all : List Message → Separated → Separated
unfolding separate
separate_all [] s = s
separate_all (m ∷ ms) s = separate_all ms (separate m s)

-- `join("\n\n")`
unfoldable pub join_blank : List Text → Text
join_blank [] = []
join_blank (t ∷ []) = t
join_blank (t ∷ u ∷ ts) = t ++ 10 ∷ 10 ∷ join_blank (u ∷ ts)

-- what serde makes of the JSON of a message and of the two kinds of frames
pub record AnthropicUsage : Type 0 where
  pub input_tokens : ℕ
  pub output_tokens : ℕ

pub record AnthropicMessage : Type 0 where
  pub model : Option Text
  -- the texts of its blocks
  pub content : List Text
  pub usage : AnthropicUsage

pub record SseDelta : Type 0 where
  pub text : Option Text

pub record SseMessageDeltaUsage : Type 0 where
  pub input_tokens : Option ℕ
  pub output_tokens : ℕ

pub record SseMessageDelta : Type 0 where
  pub usage : Option SseMessageDeltaUsage

pub record Serde : Type 0 where
  pub json_of_f32 : ℕ → Value
  pub message : Bytes → Result Text AnthropicMessage
  pub sse_delta : Text → Result Text SseDelta
  pub sse_message_delta : Text → Result Text SseMessageDelta

module _ (serde : Serde) where
  unfoldable pub build_body : CompletionRequest → Bool → Value
  unfolding separate_all join_blank put put_some put_if natural texts of_list
  build_body req stream =
      let parts = separate_all req.messages (record { system_chunks = []; convo = [] }) in
      let fixed =
        put "max_tokens" (natural (unwrap_or req.params.max_tokens 1024))
          (put "messages" (array (of_list parts.convo)) (put "model" (string req.model) end)) in
      let with_system =
        put_if (not (is_empty parts.system_chunks)) "system"
          (string (join_blank parts.system_chunks)) fixed in
      let warm = put_some "temperature" serde.json_of_f32 req.params.temperature with_system in
      let narrow = put_some "top_p" serde.json_of_f32 req.params.top_p warm in
      let stopped =
        put_if (not (is_empty req.params.stop)) "stop_sequences" (texts req.params.stop) narrow in
      object (put_if stream "stream" (bool true) stopped)

  headers : AnthropicProvider → List (Text × Text)
  headers p =
      (codes "x-api-key", p.api_key)
      ∷ (codes "anthropic-version", codes "2023-06-01")
      ∷ (codes "content-type", codes "application/json")
      ∷ []

  concat : List Text → Text
  concat [] = []
  concat (t ∷ ts) = t ++ concat ts

  response_of : CompletionRequest → AnthropicMessage → CompletionResponse
  unfolding concat
  response_of req parsed = record {
    text = concat parsed.content;
    model = unwrap_or parsed.model req.model;
    usage = record {
      prompt_tokens = parsed.usage.input_tokens;
      completion_tokens = parsed.usage.output_tokens;
    };
  }

  -- `complete`, behind the answer of the server
  completed : AnthropicProvider → CompletionRequest → ℕ → Bytes → Result LlmError CompletionResponse
  unfolding is_success classify_status response_of
  completed p req status bytes =
      if is_success status
      then (do parsed ← map_err decode (serde.message bytes); ok (response_of req parsed))
      else err (classify_status status (p.client.from_utf8_lossy bytes))

  unfoldable pub complete :
      AnthropicProvider → CompletionRequest → Result LlmError CompletionResponse
  unfolding endpoint headers build_body completed
  complete p req = do
    resp ← map_err transport (
        p.client.send
          (record { url = endpoint p; headers = headers p; json = build_body req false }))
    bytes ← map_err transport resp.bytes
    completed p req resp.status bytes

  -- the two fields of a frame
  record Frame : Type 0 where
    event_name : Option Text
    data_payload : Option Text

  read_line : Text → Frame → Frame
  read_line line f = elim (strip_prefix (codes "event:") line) [
    | some rest ↦ record f { event_name = some (trim rest) }
    | none ↦ elim (strip_prefix (codes "data:") line) [
      | some rest ↦ record f { data_payload = some (trim rest) }
      | none ↦ f
    ]
  ]

  read_lines : List Text → Frame → Frame
  unfolding read_line
  read_lines [] f = f
  read_lines (l ∷ ls) f = read_lines ls (read_line l f)

  add_delta : Drained → Result Text SseDelta → Flow Drained
  add_delta s (err why) = fail (decode why)
  add_delta s (ok parsed) = elim parsed.text [
    | some text ↦ go (record s { yielded = s.yielded ++ delta text ∷ [] })
    | none ↦ go s
  ]

  add_usage : Drained → SseMessageDeltaUsage → Drained
  add_usage s u = record s {
    total_usage = record {
      prompt_tokens = unwrap_or u.input_tokens s.total_usage.prompt_tokens;
      completion_tokens = saturating_add32 s.total_usage.completion_tokens u.output_tokens;
    };
  }

  add_message_delta : Drained → Result Text SseMessageDelta → Flow Drained
  unfolding add_usage
  add_message_delta s (err why) = fail (decode why)
  add_message_delta s (ok parsed) = elim parsed.usage [ some u ↦ go (add_usage s u) | none ↦ go s ]

  on_event : Option Text → Option Text → Drained → Flow Drained
  unfolding add_delta add_message_delta
  on_event none payload s = go s
  on_event (some name) none s = go s
  on_event (some name) (some payload) s =
      if eq_text name (codes "content_block_delta")
      then add_delta s (serde.sse_delta payload)
      else if eq_text name (codes "message_delta")
      then add_message_delta s (serde.sse_message_delta payload)
      else go s

  unfoldable pub on_frame : Text → Drained → Flow Drained
  unfolding read_lines lines on_event
  on_frame frame s =
      let f = read_lines (lines frame) (record { event_name = none; data_payload = none }) in
      on_event f.event_name f.data_payload s

  stream_headers : AnthropicProvider → List (Text × Text)
  unfolding headers
  stream_headers p = headers p ++ (codes "accept", codes "text/event-stream") ∷ []

  -- the chunks of a response
  unfoldable pub streamed : AnthropicProvider → Response → Result LlmError (List Chunk)
  unfolding is_success classify_status error_body drain_items on_frame yielded_of
  streamed p resp =
      if is_success resp.status
      then yielded_of (λ left. left.0) (drain_items on_frame p.client resp.items [] nothing_drained)
      else err (classify_status resp.status (error_body p.client resp.bytes))

  anthropic_stream : AnthropicProvider → Value → Result LlmError (List Chunk)
  unfolding endpoint stream_headers streamed
  anthropic_stream p body = do
    resp ←
        map_err transport
          (p.client.send (record { url = endpoint p; headers = stream_headers p; json = body }))
    streamed p resp

  unfoldable pub complete_stream :
      AnthropicProvider → CompletionRequest → List (Result LlmError Chunk)
  unfolding build_body anthropic_stream async_stream_yield
  complete_stream p req = async_stream_yield (anthropic_stream p (build_body req true))
