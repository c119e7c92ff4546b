-- ===== src/Tests/Adapters.antt =====
-- Runs of crates/studio-router/src/anthropic.rs, crates/studio-router/src/openai.rs and
-- crates/studio-server/src/synthetic.rs.
use cobrust_studio.Base.{
  ◌≡◌, refl, true, not, List, [], ◌∷◌, map, none, some, Text, codes, Result, ok, err, eq_text,
  strip_prefix, trim, trim_start, trim_end, is_whitespace, is_empty, if◌then◌else◌,
}
use cobrust_studio.Json.{null, string, array, of_list, get}
use cobrust_studio.Provider.{system, user, assistant, CompletionRequest, delta, done}
use cobrust_studio.Store.Markdown.{lines}
use cobrust_studio.Adapter.{
  Bytes, Client, Response, is_success, drain_items, drain_frames, take_frame, and_then, yielded_of,
  async_stream_yield,
}
use cobrust_studio.Adapter.Contract.{IsContract}
use cobrust_studio.Adapter.Frames.{joined}
use cobrust_studio.Adapter.Anthropic
use cobrust_studio.Adapter.Anthropic.{join_blank}
use cobrust_studio.Adapter.Anthropic.Request.{build_body-get, system_texts, turns}
use cobrust_studio.Adapter.OpenAi
use cobrust_studio.Adapter.Streams.{both_streams-IsContract, both_streams-joined}
use cobrust_studio.Synthetic
use cobrust_studio.Synthetic.{complete-complete_stream}

-- frames that are cut within a line and between the two line feeds
abbrev pieces : List Bytes
pieces =
    codes "event: content_block_delta\nda"
    ∷ codes "ta: hi\n"
    ∷ codes "\ndata: [DONE]\n\ndata: late\n\n"
    ∷ []

abbrev response : List (Result Text Bytes) → Response
response items = record { status = 200; bytes = ok []; items = items }

abbrev client : Client
client = record { send = λ p. ok (response (map ok pieces)); from_utf8_lossy = λ b. b }

abbrev claude : Anthropic.Serde
claude = record {
  json_of_f32 = λ n. null;
  message = λ b. err [];
  sse_delta = λ t. ok (record { text = some t });
  sse_message_delta = λ t. err [];
}

abbrev gpt : OpenAi.Serde
gpt = record {
  json_of_f32 = λ n. null;
  completion = λ b. err [];
  chunk = λ t. ok (record {
    choices = record { delta = some (record { content = some t }) } ∷ [];
    usage = none;
  });
}

abbrev claude_provider : Anthropic.AnthropicProvider
claude_provider = record { name = []; base_url = codes "u"; api_key = codes "k"; client = client }

abbrev gpt_provider : OpenAi.OpenAiProvider
gpt_provider = record { name = []; base_url = codes "u"; api_key = codes "k"; client = client }

abbrev question : CompletionRequest
question = record {
  model = codes "m";
  messages =
      record { role = user; content = codes "a" }
      ∷ record { role = system; content = codes "b" }
      ∷ record { role = assistant; content = codes "c" }
      ∷ [];
  params = record { max_tokens = none; temperature = none; top_p = none; stop = [] };
}

-- What stands behind the end mark is not read.
gpt_test :
    OpenAi.complete_stream gpt gpt_provider question
    ≡ ok (delta (codes "hi")) ∷ ok (done (record { prompt_tokens = 0; completion_tokens = 0 })) ∷ []
unfolding OpenAi.complete_stream OpenAi.streamed OpenAi.on_frame is_success drain_items drain_frames
    take_frame and_then yielded_of async_stream_yield codes eq_text strip_prefix lines trim
    trim_start trim_end is_whitespace
gpt_test = refl

both_streams-IsContract_example :
    IsContract (Anthropic.complete_stream claude claude_provider question)
    × IsContract (OpenAi.complete_stream gpt gpt_provider question)
both_streams-IsContract_example =
    both_streams-IsContract claude gpt claude_provider gpt_provider question

both_streams-joined_example :
    (Anthropic.streamed claude claude_provider (response (map ok pieces))
      ≡ Anthropic.streamed claude claude_provider (response (map ok (joined pieces ∷ []))))
    × (OpenAi.streamed gpt gpt_provider (response (map ok pieces))
        ≡ OpenAi.streamed gpt gpt_provider (response (map ok (joined pieces ∷ []))))
both_streams-joined_example =
    both_streams-joined claude gpt claude_provider gpt_provider (response []) pieces refl refl

build_body-get_example :
    (get (codes "model") (Anthropic.build_body claude question true) ≡ some (string (codes "m")))
    × (get (codes "messages") (Anthropic.build_body claude question true)
        ≡ some (array (of_list (turns question.messages))))
    × (get (codes "system") (Anthropic.build_body claude question true) ≡ (
        if not (is_empty (system_texts question.messages))
        then some (string (join_blank (system_texts question.messages)))
        else none))
build_body-get_example = build_body-get claude question true

synthetic_test :
    IsContract (Synthetic.complete_stream (Synthetic.new (codes "s")) question)
    × (Synthetic.complete (Synthetic.new (codes "s")) question
        ≡ ok (record {
          text =
              Synthetic.deltas_text
                (Synthetic.complete_stream (Synthetic.new (codes "s")) question);
          model = codes "m";
          usage = Synthetic.fixture_usage;
        }))
synthetic_test = complete-complete_stream (Synthetic.new (codes "s")) question
