-- ===== src/Adapter/Streams.antt =====
-- What the streams of the two adapters, in crates/studio-router/src/anthropic.rs and
-- crates/studio-router/src/openai.rs, have in common.
use cobrust_studio.Base.{◌≡◌, List, [], ◌∷◌, map, ok}
use cobrust_studio.Provider.{CompletionRequest}
use cobrust_studio.Adapter.{Bytes, Response}
use cobrust_studio.Adapter.Frames.{IsWhole, joined}
use cobrust_studio.Adapter.Contract.{IsContract}
use cobrust_studio.Adapter.Anthropic
use cobrust_studio.Adapter.OpenAi
use cobrust_studio.Adapter.Anthropic.Stream as AnthropicStream
use cobrust_studio.Adapter.OpenAi.Stream as OpenAiStream

-- Whatever the server, the network and serde do, a stream of either adapter is an error alone, or
-- deltas of text and behind them the usage, once.
pub both_streams-IsContract :
    (a : Anthropic.Serde) (o : OpenAi.Serde) (p : Anthropic.AnthropicProvider)
    (q : OpenAi.OpenAiProvider) (req : CompletionRequest)
    → IsContract (Anthropic.complete_stream a p req) × IsContract (OpenAi.complete_stream o q req)
both_streams-IsContract a o p q req = (
  AnthropicStream.complete_stream-IsContract a p req,
  OpenAiStream.complete_stream-IsContract o q req,
)

-- What either adapter reads of a response does not depend on the pieces in which the body comes, if no
-- character is cut at the end of a piece.
pub both_streams-joined :
    (a : Anthropic.Serde) (o : OpenAi.Serde) (p : Anthropic.AnthropicProvider)
    (q : OpenAi.OpenAiProvider) (resp : Response) (bs : List Bytes)
    → IsWhole p.client bs
    → IsWhole q.client bs
    → (Anthropic.streamed a p (record resp { items = map ok bs })
        ≡ Anthropic.streamed a p (record resp { items = map ok (joined bs ∷ []) }))
      × (OpenAi.streamed o q (record resp { items = map ok bs })
          ≡ OpenAi.streamed o q (record resp { items = map ok (joined bs ∷ []) }))
both_streams-joined a o p q resp bs h k =
    (AnthropicStream.streamed-joined a p resp bs h, OpenAiStream.streamed-joined o q resp bs k)
