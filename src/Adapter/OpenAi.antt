-- ===== src/Adapter/OpenAi.antt =====
-- crates/studio-router/src/openai.rs: the adapter of the chat completions. What serde reads from a body
-- and how it shows a float are parameters.
pub mod Stream
use cobrust_studio.Base.{
  ℕ, Bool, true, false, List, [], ◌∷◌, ◌++◌, map, Option, none, some, Text, String, codes, Result,
  ok, err, ◌>>=◌, map_err, unwrap_or, if◌then◌else◌, eq_text, strip_prefix, trim, is_empty, not,
}
use cobrust_studio.Json.{Value, bool, string, array, object, Fields, end, of_list}
use cobrust_studio.Provider.{
  Role, system, user, assistant, Message, SamplingParams, CompletionRequest, CompletionResponse,
  TokenUsage, Chunk, delta, LlmError, transport, decode,
}
use cobrust_studio.Store.Markdown.{lines}
use cobrust_studio.Adapter.{
  Bytes, Post, Response, Client, trim_slashes, is_success, classify_status, error_body, Drained,
  nothing_drained, Flow, go, halt, fail, and_then, drain_items, yielded_of, async_stream_yield,
}
use cobrust_studio.Adapter.Body.{put, put_some, put_if, natural, texts, turn_of}

pub record OpenAiProvider : Type 0 where
  pub name : Text
  pub base_url : Text
  pub api_key : Text
  pub client : Client

-- `OpenAiProvider::new`, with what the builder of the HTTP client returns
unfoldable pub new : Result Text Client → Text → Text → Text → Result Text OpenAiProvider
unfolding trim_slashes
new built name base_url api_key = do
  client ← built
  ok (record { name = name; base_url = trim_slashes base_url; api_key = api_key; client = client })

unfoldable pub endpoint : OpenAiProvider → Text
endpoint p = p.base_url ++ codes "/chat/completions"

role_name : Role → String
role_name system = "system"
role_name user = "user"
role_name assistant = "assistant"

message_json : Message → Value
unfolding turn_of role_name
message_json m = turn_of (role_name m.role) m.content

-- What serde makes of the JSON of a completion and of a frame.
pub record ChatUsage : Type 0 where
  pub prompt_tokens : ℕ
  pub completion_tokens : ℕ

pub record ChatMessage : Type 0 where
  pub content : Option Text

pub record ChatChoice : Type 0 where
  pub message : Option ChatMessage

pub record ChatCompletion : Type 0 where
  pub model : Option Text
  pub choices : List ChatChoice
  pub usage : Option ChatUsage

pub record ChatChunkDelta : Type 0 where
  pub content : Option Text

pub record ChatChunkChoice : Type 0 where
  pub delta : Option ChatChunkDelta

pub record ChatChunk : Type 0 where
  pub choices : List ChatChunkChoice
  pub usage : Option ChatUsage

pub record Serde : Type 0 where
  pub json_of_f32 : ℕ → Value
  pub completion : Bytes → Result Text ChatCompletion
  pub chunk : Text → Result Text ChatChunk

module _ (serde : Serde) where
  unfoldable pub build_body : CompletionRequest → Bool → Value
  unfolding message_json put put_some put_if natural texts of_list
  build_body req stream =
      let fixed =
        put "messages" (array (of_list (map message_json req.messages)))
          (put "model" (string req.model) end) in
      let bounded = put_some "max_tokens" natural req.params.max_tokens fixed in
      let warm = put_some "temperature" serde.json_of_f32 req.params.temperature bounded in
      let narrow = put_some "top_p" serde.json_of_f32 req.params.top_p warm in
      let stopped = put_if (not (is_empty req.params.stop)) "stop" (texts req.params.stop) narrow in
      let streamed = put_if stream "stream" (bool true) stopped in
      object
        (put_if stream "stream_options" (object (put "include_usage" (bool true) end)) streamed)

  headers : OpenAiProvider → List (Text × Text)
  headers p =
      (codes "authorization", codes "Bearer " ++ p.api_key)
      ∷ (codes "content-type", codes "application/json")
      ∷ []

  message_text : Option ChatMessage → Text
  message_text none = []
  message_text (some m) = unwrap_or m.content []

  -- the content of the first choice
  text_of : List ChatChoice → Text
  unfolding message_text
  text_of [] = []
  text_of (c ∷ cs) = message_text c.message

  usage_of : Option ChatUsage → TokenUsage
  usage_of none = record { prompt_tokens = 0; completion_tokens = 0 }
  usage_of (some u) = record {
    prompt_tokens = u.prompt_tokens;
    completion_tokens = u.completion_tokens;
  }

  response_of : CompletionRequest → ChatCompletion → CompletionResponse
  unfolding text_of usage_of
  response_of req parsed = record {
    text = text_of parsed.choices;
    model = unwrap_or parsed.model req.model;
    usage = usage_of parsed.usage;
  }

  -- `complete`, behind the answer of the server
  completed : OpenAiProvider → CompletionRequest → ℕ → Bytes → Result LlmError CompletionResponse
  unfolding is_success classify_status response_of
  completed p req status bytes =
      if is_success status
      then (do parsed ← map_err decode (serde.completion bytes); ok (response_of req parsed))
      else err (classify_status status (p.client.from_utf8_lossy bytes))

  unfoldable pub complete : OpenAiProvider → CompletionRequest → Result LlmError CompletionResponse
  unfolding endpoint headers build_body completed
  complete p req = do
    resp ← map_err transport (
        p.client.send
          (record { url = endpoint p; headers = headers p; json = build_body req false }))
    bytes ← map_err transport resp.bytes
    completed p req resp.status bytes

  -- the usage of a chunk, in place of the one before it
  set_usage : Option ChatUsage → Drained → Drained
  unfolding usage_of
  set_usage none s = s
  set_usage (some u) s = record s { total_usage = usage_of (some u) }

  add_text : Option Text → Drained → Drained
  add_text none s = s
  add_text (some text) s =
      if not (is_empty text) then record s { yielded = s.yielded ++ delta text ∷ [] } else s

  add_choice : List ChatChunkChoice → Drained → Drained
  unfolding add_text
  add_choice [] s = s
  add_choice (c ∷ cs) s = elim c.delta [ none ↦ s | some d ↦ add_text d.content s ]

  on_chunk : Result Text ChatChunk → Drained → Flow Drained
  unfolding set_usage add_choice
  on_chunk (err why) s = fail (decode why)
  on_chunk (ok parsed) s = go (add_choice parsed.choices (set_usage parsed.usage s))

  on_line : Text → Drained → Flow Drained
  unfolding on_chunk
  on_line line s = elim (strip_prefix (codes "data:") line) [
    | none ↦ go s
    | some rest ↦
        if eq_text (trim rest) (codes "[DONE]")
        then halt s
        else on_chunk (serde.chunk (trim rest)) s
  ]

  on_lines : List Text → Drained → Flow Drained
  unfolding on_line and_then
  on_lines [] s = go s
  on_lines (l ∷ ls) s = and_then (on_line l s) (on_lines ls)

  unfoldable pub on_frame : Text → Drained → Flow Drained
  unfolding on_lines lines
  on_frame frame s = on_lines (lines frame) s

  -- the chunks of a response
  unfoldable pub streamed : OpenAiProvider → Response → Result LlmError (List Chunk)
  unfolding is_success classify_status error_body drain_items on_frame yielded_of
  streamed p resp =
      if is_success resp.status
      then yielded_of (λ left. left.0) (drain_items on_frame p.client resp.items [] nothing_drained)
      else err (classify_status resp.status (error_body p.client resp.bytes))

  stream_headers : OpenAiProvider → List (Text × Text)
  unfolding headers
  stream_headers p = headers p ++ (codes "accept", codes "text/event-stream") ∷ []

  openai_stream : OpenAiProvider → Value → Result LlmError (List Chunk)
  unfolding endpoint stream_headers streamed
  openai_stream p body = do
    resp ←
        map_err transport
          (p.client.send (record { url = endpoint p; headers = stream_headers p; json = body }))
    streamed p resp

  unfoldable pub complete_stream : OpenAiProvider → CompletionRequest → List (Result LlmError Chunk)
  unfolding build_body openai_stream async_stream_yield
  complete_stream p req = async_stream_yield (openai_stream p (build_body req true))
