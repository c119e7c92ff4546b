-- ===== src/Adapter/OpenAi/Stream.antt =====
-- The chunks of `complete_stream` in crates/studio-router/src/openai.rs.
use cobrust_studio.Base.{
  ◌≡◌, refl, true, List, [], ◌∷◌, map, Option, none, some, Text, Result, ok, err, ◌>>=◌,
  strip_prefix, trim, not, map_err, is_empty, eq_text, codes, Bool-cases, Option-cases, inl, inr,
}
use cobrust_studio.Provider.{CompletionRequest, LlmError, transport}
use cobrust_studio.Json.{Value}
use cobrust_studio.Adapter.{Bytes, Response, is_success, Drained, nothing_drained}
use cobrust_studio.Adapter.Frames.{
  Leads, and_then-Leads, drain_items-Leads, drain_items-whole, IsWhole, joined,
}
use cobrust_studio.Adapter.Contract.{
  AreDeltas, add_text-AreDeltas, IsContract, IsOutcome, yielded_of-IsOutcome,
  async_stream_yield-IsContract,
}
use cobrust_studio.Adapter.OpenAi.{
  OpenAiProvider, Serde, ChatUsage, ChatChunk, ChatChunkChoice, build_body, add_text, set_usage,
  add_choice, on_chunk, on_line, on_lines, on_frame, streamed, openai_stream, complete_stream,
  endpoint, stream_headers,
}

module _ (serde : Serde) where
  add_text-Leads : (t : Option Text) (s : Drained) → AreDeltas s → AreDeltas (add_text serde t s)
  unfolding add_text
  add_text-Leads none s h = h
  add_text-Leads (some text) s h = elim (Bool-cases (not (is_empty text))) [
    | inl e ↦ rw e (add_text-AreDeltas s text h)
    | inr e ↦ rw e h
  ]

  set_usage-AreDeltas :
      (u : Option ChatUsage) (s : Drained) → AreDeltas s → AreDeltas (set_usage serde u s)
  unfolding set_usage
  set_usage-AreDeltas none s h = h
  set_usage-AreDeltas (some u) s h = h

  add_choice-AreDeltas :
      (cs : List ChatChunkChoice) (s : Drained) → AreDeltas s → AreDeltas (add_choice serde cs s)
  unfolding add_choice
  add_choice-AreDeltas [] s h = h
  add_choice-AreDeltas (c ∷ cs) s h = elim (Option-cases c.delta) [
    | inl e ↦ rw e h
    | inr (d, e) ↦ rw e (add_text-Leads d.content s h)
  ]

  on_chunk-Leads :
      (r : Result Text ChatChunk) (s : Drained)
      → AreDeltas s
      → Leads AreDeltas AreDeltas (on_chunk serde r s)
  unfolding on_chunk
  on_chunk-Leads (err why) s h = tt
  on_chunk-Leads (ok parsed) s h =
      add_choice-AreDeltas parsed.choices _ (set_usage-AreDeltas parsed.usage s h)

  on_line-Leads :
      (line : Text) (s : Drained) → AreDeltas s → Leads AreDeltas AreDeltas (on_line serde line s)
  unfolding on_line strip_prefix codes
  on_line-Leads line s h = elim (Option-cases (strip_prefix (codes "data:") line)) [
    | inl e ↦ rw e h
    | inr (rest, e) ↦ elim (Bool-cases (eq_text (trim rest) (codes "[DONE]"))) [
      | inl f ↦ rw (e, f) h
      | inr f ↦ rw (e, f) (on_chunk-Leads (serde.chunk (trim rest)) s h)
    ]
  ]

  on_lines-Leads :
      (ls : List Text) (s : Drained) → AreDeltas s → Leads AreDeltas AreDeltas (on_lines serde ls s)
  unfolding on_lines
  on_lines-Leads [] s h = h
  on_lines-Leads (l ∷ ls) s h =
      and_then-Leads AreDeltas AreDeltas AreDeltas (on_line serde l s) (on_lines serde ls)
        (on_line-Leads l s h) (on_lines-Leads ls)

  on_frame-Leads :
      (frame : Text) (s : Drained)
      → AreDeltas s
      → Leads AreDeltas AreDeltas (on_frame serde frame s)
  unfolding on_frame
  on_frame-Leads frame s h = on_lines-Leads _ s h

  streamed-IsOutcome : (p : OpenAiProvider) (resp : Response) → IsOutcome (streamed serde p resp)
  unfolding streamed
  streamed-IsOutcome p resp = elim (Bool-cases (is_success resp.status)) [
    | inl e ↦ rw e (
        yielded_of-IsOutcome (λ left. left.0) _
          (drain_items-Leads (on_frame serde) AreDeltas on_frame-Leads p.client resp.items []
            nothing_drained tt))
    | inr e ↦ rw e tt
  ]

  sent-IsOutcome :
      (p : OpenAiProvider) (r : Result LlmError Response) → IsOutcome (r >>= streamed serde p)
  sent-IsOutcome p (ok resp) = streamed-IsOutcome p resp
  sent-IsOutcome p (err e) = tt

  openai_stream-IsOutcome :
      (p : OpenAiProvider) (body : Value) → IsOutcome (openai_stream serde p body)
  unfolding openai_stream
  openai_stream-IsOutcome p body = sent-IsOutcome p (
      map_err transport (
        p.client.send (record { url = endpoint p; headers = stream_headers serde p; json = body })))

  -- A stream of the adapter is its error alone, or deltas and the usage once behind them.
  pub complete_stream-IsContract :
      (p : OpenAiProvider) (req : CompletionRequest) → IsContract (complete_stream serde p req)
  unfolding complete_stream
  complete_stream-IsContract p req =
      async_stream_yield-IsContract (openai_stream serde p (build_body serde req true))
        (openai_stream-IsOutcome p (build_body serde req true))

  -- The pieces of a response, if no character is cut, give the chunks of their whole.
  pub streamed-joined :
      (p : OpenAiProvider) (resp : Response) (bs : List Bytes)
      → IsWhole p.client bs
      → streamed serde p (record resp { items = map ok bs })
        ≡ streamed serde p (record resp { items = map ok (joined bs ∷ []) })
  unfolding streamed
  streamed-joined p resp bs whole =
      rw (drain_items-whole (on_frame serde) p.client bs nothing_drained whole) refl
