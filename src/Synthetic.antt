-- ===== src/Synthetic.antt =====
-- crates/studio-server/src/synthetic.rs: the provider that answers every request with one text.
use cobrust_studio.Base.{List, [], ◌∷◌, ◌++◌, map, Text, codes, Result, ok, err, ◌≡◌, refl, inr}
use cobrust_studio.Provider.{
  CompletionRequest, CompletionResponse, TokenUsage, Chunk, delta, done, LlmError,
}
use cobrust_studio.Adapter.Contract.{IsContract}

pub record SyntheticProvider : Type 0 where
  pub name : Text

-- `SyntheticProvider::new`, `FIXTURE_TEXT`, `fixture_usage` and `fixture_deltas`
unfoldable pub new : Text → SyntheticProvider
new name = record { name = name }

unfoldable pub fixture_text : Text
fixture_text = codes "hello world!"

unfoldable pub fixture_usage : TokenUsage
fixture_usage = record { prompt_tokens = 3; completion_tokens = 4 }

unfoldable pub fixture_deltas : List Text
fixture_deltas = codes "hello" ∷ codes " " ∷ codes "world" ∷ codes "!" ∷ []

unfoldable pub complete : SyntheticProvider → CompletionRequest → Result LlmError CompletionResponse
unfolding fixture_text fixture_usage
complete p req = ok (record { text = fixture_text; model = req.model; usage = fixture_usage })

unfoldable pub complete_stream :
    SyntheticProvider → CompletionRequest → List (Result LlmError Chunk)
unfolding fixture_deltas fixture_usage
complete_stream p req = map ok (map delta fixture_deltas) ++ ok (done fixture_usage) ∷ []

-- what a client makes of the chunks of a stream
unfoldable pub deltas_text : List (Result LlmError Chunk) → Text
deltas_text [] = []
deltas_text (ok (delta t) ∷ items) = t ++ deltas_text items
deltas_text (ok (done u) ∷ items) = deltas_text items
deltas_text (err e ∷ items) = deltas_text items

-- The stream keeps the contract of the trait, and its text is the text of the completion.
pub complete-complete_stream :
    (p : SyntheticProvider) (req : CompletionRequest)
    → IsContract (complete_stream p req)
      × (complete p req
          ≡ ok (record {
            text = deltas_text (complete_stream p req);
            model = req.model;
            usage = fixture_usage;
          }))
unfolding complete complete_stream deltas_text fixture_text codes fixture_deltas
complete-complete_stream p req = (
  inr (_, (map delta fixture_deltas, fixture_usage, (tt, (tt, (tt, (tt, tt)))), refl), refl),
  refl,
)
