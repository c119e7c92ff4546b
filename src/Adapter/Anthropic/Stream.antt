-- ===== src/Adapter/Anthropic/Stream.antt =====
-- The chunks of `complete_stream` in crates/studio-router/src/anthropic.rs.
use cobrust_studio.Base.{
  ◌≡◌, refl, true, List, [], ◌∷◌, map, Option, none, some, Text, Result, ok, err, ◌>>=◌, map_err,
  eq_text, codes, Bool-cases, Option-cases, inl, inr,
}
use cobrust_studio.Provider.{CompletionRequest, LlmError, transport}
use cobrust_studio.Json.{Value}
use cobrust_studio.Adapter.{Bytes, Response, is_success, Drained, nothing_drained}
use cobrust_studio.Adapter.Frames.{Leads, drain_items-Leads, drain_items-whole, IsWhole, joined}
use cobrust_studio.Adapter.Contract.{
  AreDeltas, add_text-AreDeltas, IsContract, IsOutcome, yielded_of-IsOutcome,
  async_stream_yield-IsContract,
}
use cobrust_studio.Adapter.Anthropic.{
  AnthropicProvider, Serde, SseDelta, SseMessageDelta, build_body, add_delta, add_message_delta,
  add_usage, on_event, on_frame, streamed, anthropic_stream, complete_stream, endpoint,
  stream_headers,
}

module _ (serde : Serde) where
  add_delta-Leads :
      (r : Result Text SseDelta) (s : Drained)
      → AreDeltas s
      → Leads AreDeltas AreDeltas (add_delta serde s r)
  unfolding add_delta
  add_delta-Leads (err why) s h = tt
  add_delta-Leads (ok parsed) s h = elim (Option-cases parsed.text) [
    | inl e ↦ rw e h
    | inr (text, e) ↦ rw e (add_text-AreDeltas s text h)
  ]

  add_message_delta-Leads :
      (r : Result Text SseMessageDelta) (s : Drained)
      → AreDeltas s
      → Leads AreDeltas AreDeltas (add_message_delta serde s r)
  unfolding add_message_delta add_usage
  add_message_delta-Leads (err why) s h = tt
  add_message_delta-Leads (ok parsed) s h = elim (Option-cases parsed.usage) [
    | inl e ↦ rw e h
    | inr (u, e) ↦ rw e h
  ]

  on_event-Leads :
      (name payload : Option Text) (s : Drained)
      → AreDeltas s
      → Leads AreDeltas AreDeltas (on_event serde name payload s)
  unfolding on_event
  on_event-Leads none payload s h = h
  on_event-Leads (some name) none s h = h
  on_event-Leads (some name) (some payload) s h =
      elim (Bool-cases (eq_text name (codes "content_block_delta"))) [
        | inl e ↦ rw e (add_delta-Leads (serde.sse_delta payload) s h)
        | inr e ↦ elim (Bool-cases (eq_text name (codes "message_delta"))) [
          | inl f ↦ rw (e, f) (add_message_delta-Leads (serde.sse_message_delta payload) s h)
          | inr f ↦ rw (e, f) h
        ]
      ]

  on_frame-Leads :
      (frame : Text) (s : Drained)
      → AreDeltas s
      → Leads AreDeltas AreDeltas (on_frame serde frame s)
  unfolding on_frame
  on_frame-Leads frame s h = on_event-Leads _ _ s h

  streamed-IsOutcome : (p : AnthropicProvider) (resp : Response) → IsOutcome (streamed serde p resp)
  unfolding streamed
  streamed-IsOutcome p resp = elim (Bool-cases (is_success resp.status)) [
    | inl e ↦ rw e (
        yielded_of-IsOutcome (λ left. left.0) _
          (drain_items-Leads (on_frame serde) AreDeltas on_frame-Leads p.client resp.items []
            nothing_drained tt))
    | inr e ↦ rw e tt
  ]

  sent-IsOutcome :
      (p : AnthropicProvider) (r : Result LlmError Response) → IsOutcome (r >>= streamed serde p)
  sent-IsOutcome p (ok resp) = streamed-IsOutcome p resp
  sent-IsOutcome p (err e) = tt

  anthropic_stream-IsOutcome :
      (p : AnthropicProvider) (body : Value) → IsOutcome (anthropic_stream serde p body)
  unfolding anthropic_stream
  anthropic_stream-IsOutcome p body = sent-IsOutcome p (
      map_err transport (
        p.client.send (record { url = endpoint p; headers = stream_headers serde p; json = body })))

  -- A stream of the adapter is its error alone, or deltas and the usage once behind them.
  pub complete_stream-IsContract :
      (p : AnthropicProvider) (req : CompletionRequest) → IsContract (complete_stream serde p req)
  unfolding complete_stream
  complete_stream-IsContract p req =
      async_stream_yield-IsContract (anthropic_stream serde p (build_body serde req true))
        (anthropic_stream-IsOutcome p (build_body serde req true))

  -- The pieces of a response, if no character is cut, give the chunks of their whole.
  pub streamed-joined :
      (p : AnthropicProvider) (resp : Response) (bs : List Bytes)
      → IsWhole p.client bs
      → streamed serde p (record resp { items = map ok bs })
        ≡ streamed serde p (record resp { items = map ok (joined bs ∷ []) })
  unfolding streamed
  streamed-joined p resp bs whole =
      rw (drain_items-whole (on_frame serde) p.client bs nothing_drained whole) refl
