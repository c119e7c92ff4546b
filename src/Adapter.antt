-- ===== src/Adapter.antt =====
-- What the two adapters of crates/studio-router/src share: an HTTP exchange of reqwest, which is a
-- parameter, the classification of a status code, and the loop over the frames of an event stream.
pub mod Frames
pub mod Contract
pub mod Streams
pub mod Body
pub mod Anthropic
pub mod OpenAi
use mathlib.Core.List.{append-nil, append_assoc}
use cobrust_studio.Base.{
  ℕ, zero, suc, ◌+◌, ◌≤◌, ◌==◌, within, ◌≡◌, refl, sym, ap, ◌∙◌, arith, Bool, true, false, ◌||◌,
  ◌&&◌, List, [], ◌∷◌, ◌++◌, map, Option, none, some, Text, Result, ok, err, map_err, codes,
  if◌then◌else◌, length,
}
use cobrust_studio.Json.{Value}
use cobrust_studio.Provider.{
  TokenUsage, Chunk, delta, done, LlmError, transport, rate_limit, server, bad_request, auth,
  stream,
}

-- bytes as they are received
abbrev pub Bytes : Type 0
Bytes = List ℕ

-- a POST with its headers and its JSON body
pub record Post : Type 0 where
  pub url : Text
  pub headers : List (Text × Text)
  pub json : Value

-- A response: its status, its body at once, and its body piece by piece, where each may fail with a
-- text.
pub record Response : Type 0 where
  pub status : ℕ
  pub bytes : Result Text Bytes
  pub items : List (Result Text Bytes)

-- `reqwest::Client`, with `String::from_utf8_lossy`
pub record Client : Type 0 where
  pub send : Post → Result Text Response
  pub from_utf8_lossy : Bytes → Text

-- `trim_end_matches('/')`
keep_slashless : ℕ → Text → Text
keep_slashless c [] = if c == 47 then [] else c ∷ []
keep_slashless c (d ∷ s) = c ∷ d ∷ s

unfoldable pub trim_slashes : Text → Text
unfolding keep_slashless
trim_slashes [] = []
trim_slashes (c ∷ s) = keep_slashless c (trim_slashes s)

unfoldable pub is_success : ℕ → Bool
is_success status = within 200 299 status

-- `classify_status`
unfoldable pub classify_status : ℕ → Text → LlmError
classify_status status body =
    if status == 401 || status == 403
    then auth
    else if status == 429
    then rate_limit 0
    else if within 400 499 status
    then bad_request status body
    else server status body

-- `resp.text()`, and what is put where it fails
unfoldable pub error_body : Client → Result Text Bytes → Text
error_body client (ok bytes) = client.from_utf8_lossy bytes
error_body client (err why) = codes "(no body)"

-- What a loop over a stream has collected.
pub record Drained : Type 0 where
  pub yielded : List Chunk
  pub total_usage : TokenUsage

abbrev pub nothing_drained : Drained
nothing_drained = record {
  yielded = [];
  total_usage = record { prompt_tokens = 0; completion_tokens = 0 };
}

-- What a step of a loop leads to: the next step, the end of the loop, or the end of the function.
pub data Flow (A : Type 0) : Type 0 where
  go : A → Flow A
  halt : Drained → Flow A
  fail : LlmError → Flow A

unfoldable pub and_then : {A B : Type 0} → Flow A → (A → Flow B) → Flow B
and_then (go a) f = f a
and_then (halt d) f = halt d
and_then (fail e) f = fail e

-- `async_stream_yield`: the chunks of a stream that was read to its end, or its error alone
unfoldable pub async_stream_yield : Result LlmError (List Chunk) → List (Result LlmError Chunk)
async_stream_yield (ok chunks) = map ok chunks
async_stream_yield (err e) = err e ∷ []

-- the end of the loops: the usage behind everything else
unfoldable pub yielded_of : {A : Type 0} → (A → Drained) → Flow A → Result LlmError (List Chunk)
yielded_of d (go a) = ok ((d a).yielded ++ done (d a).total_usage ∷ [])
yielded_of d (halt s) = ok (s.yielded ++ done s.total_usage ∷ [])
yielded_of d (fail e) = err e

in_front : ℕ → Option (Text × Text) → Option (Text × Text)
in_front c none = none
in_front c (some (frame, rest)) = some (c ∷ frame, rest)

-- `buf.find("\n\n")`, with the text in front of it and the text behind it
unfoldable pub take_frame : Text → Option (Text × Text)
unfolding in_front
take_frame [] = none
take_frame (c ∷ []) = none
take_frame (c ∷ d ∷ s) =
    let later = take_frame (d ∷ s) in if c == 10 && d == 10 then some ([], s) else in_front c later

module _ (handle : Text → Drained → Flow Drained) where
  -- one round of the inner loop, with the rounds that follow it
  on_frame :
      Option (Text × Text)
      → Text
      → Drained
      → (Text → Drained → Flow (Drained × Text))
      → Flow (Drained × Text)
  unfolding and_then
  on_frame none buf s again = go (s, buf)
  on_frame (some (frame, rest)) buf s again = and_then (handle frame s) (again rest)

  -- The inner loop, on fuel: a round takes two characters at least from the buffer, so its length is
  -- enough.
  drain : ℕ → Text → Drained → Flow (Drained × Text)
  unfolding on_frame
  drain zero buf s = go (s, buf)
  drain (suc n) buf s = on_frame (take_frame buf) buf s (drain n)

  unfoldable pub drain_frames : Text → Drained → Flow (Drained × Text)
  unfolding drain
  drain_frames buf s = drain (length buf) buf s

  -- the outer loop, over the pieces of the body
  unfoldable pub drain_items :
      Client → List (Result Text Bytes) → Text → Drained → Flow (Drained × Text)
  unfolding drain_frames and_then
  drain_items client [] buf s = go (s, buf)
  drain_items client (err why ∷ items) buf s = fail (stream why)
  drain_items client (ok bytes ∷ items) buf s =
      and_then (drain_frames (buf ++ client.from_utf8_lossy bytes) s)
        λ left. drain_items client items left.1 left.0
