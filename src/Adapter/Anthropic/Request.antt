-- ===== src/Adapter/Anthropic/Request.antt =====
-- What `build_body` of crates/studio-router/src/anthropic.rs asks of the server.
use mathlib.Core.List.{append_assoc, append-nil}
use cobrust_studio.Base.{
  ◌≡◌, refl, sym, ap, ◌∙◌, Bool, true, false, not, List, [], ◌∷◌, ◌++◌, none, some, Text, String,
  codes, eq_text, lt_text, is_empty, unwrap_or, if◌then◌else◌,
}
use cobrust_studio.Json.{Value, bool, string, array, Fields, end, of_list, get, find_field}
use cobrust_studio.Provider.{Role, system, user, assistant, Message, CompletionRequest}
use cobrust_studio.Adapter.Body.{put, put_some, put_if, insert_field, natural, texts, turn_of}
use cobrust_studio.Adapter.Body.Lookup.{
  find_field-put, put-other, put_some-other, put_if-other, find_field-put_if,
}
use cobrust_studio.Adapter.Anthropic.{
  Separated, separate, separate_all, join_blank, Serde, build_body,
}

-- The specification: the texts of the system, and the turns of the others, each in their order.
unfoldable pub system_texts : List Message → List Text
system_texts [] = []
system_texts (m ∷ ms) = elim m.role [
  | system ↦ m.content ∷ system_texts ms
  | user ↦ system_texts ms
  | assistant ↦ system_texts ms
]

unfoldable pub turns : List Message → List Value
unfolding turn_of
turns [] = []
turns (m ∷ ms) = elim m.role [
  | system ↦ turns ms
  | user ↦ turn_of "user" m.content ∷ turns ms
  | assistant ↦ turn_of "assistant" m.content ∷ turns ms
]

abbrev Parted : List Message → Separated → Type 0
Parted ms s =
    separate_all ms s
    ≡ record { system_chunks = s.system_chunks ++ system_texts ms; convo = s.convo ++ turns ms }

separate-parts :
    (r : Role) (c : Text) (ms : List Message) (s : Separated)
    → ((s' : Separated) → Parted ms s')
    → Parted (record { role = r; content = c } ∷ ms) s
unfolding separate_all separate system_texts turns
separate-parts system c ms s later =
    later (record s { system_chunks = s.system_chunks ++ c ∷ [] })
    ∙ ap (λ (ts : List Text). record { system_chunks = ts; convo = s.convo ++ turns ms })
        (append_assoc s.system_chunks (c ∷ []) (system_texts ms))
separate-parts user c ms s later =
    later (record s { convo = s.convo ++ turn_of "user" c ∷ [] })
    ∙ ap
        (λ (vs : List Value). record {
          system_chunks = s.system_chunks ++ system_texts ms;
          convo = vs;
        })
        (append_assoc s.convo (turn_of "user" c ∷ []) (turns ms))
separate-parts assistant c ms s later =
    later (record s { convo = s.convo ++ turn_of "assistant" c ∷ [] })
    ∙ ap
        (λ (vs : List Value). record {
          system_chunks = s.system_chunks ++ system_texts ms;
          convo = vs;
        })
        (append_assoc s.convo (turn_of "assistant" c ∷ []) (turns ms))

separate_all-parts : (ms : List Message) (s : Separated) → Parted ms s
unfolding separate_all system_texts turns
separate_all-parts [] s =
    ap (λ (ts : List Text). record { system_chunks = ts; convo = s.convo })
      (sym (append-nil s.system_chunks))
    ∙ ap (λ (vs : List Value). record { system_chunks = s.system_chunks ++ []; convo = vs })
        (sym (append-nil s.convo))
separate_all-parts (m ∷ ms) s = separate-parts m.role m.content ms s (separate_all-parts ms)

separated :
    (ms : List Message)
    → separate_all ms (record { system_chunks = []; convo = [] })
      ≡ record { system_chunks = system_texts ms; convo = turns ms }
separated ms = separate_all-parts ms (record { system_chunks = []; convo = [] })

module _ (serde : Serde) (req : CompletionRequest) (stream : Bool) where
  abbrev divided : Separated
  divided = separate_all req.messages (record { system_chunks = []; convo = [] })

  -- the stages of the body
  abbrev bare : Fields
  bare = put "messages" (array (of_list divided.convo)) (put "model" (string req.model) end)

  abbrev fixed : Fields
  fixed = put "max_tokens" (natural (unwrap_or req.params.max_tokens 1024)) bare

  abbrev with_system : Fields
  with_system =
      put_if (not (is_empty divided.system_chunks)) "system"
        (string (join_blank divided.system_chunks)) fixed

  abbrev warm : Fields
  warm = put_some "temperature" serde.json_of_f32 req.params.temperature with_system

  abbrev narrow : Fields
  narrow = put_some "top_p" serde.json_of_f32 req.params.top_p warm

  abbrev filled : Bool
  filled = not (is_empty req.params.stop)

  abbrev stopped : Fields
  stopped = put_if filled "stop_sequences" (texts req.params.stop) narrow

  body-with_system :
      (k : String)
      → (eq_text (codes "stream") (codes k) ≡ false)
      → (eq_text (codes "stop_sequences") (codes k) ≡ false)
      → (eq_text (codes "top_p") (codes k) ≡ false)
      → (eq_text (codes "temperature") (codes k) ≡ false)
      → get (codes k) (build_body serde req stream) ≡ find_field (codes k) with_system
  unfolding build_body get
  body-with_system k a b c d =
      put_if-other k "stream" stream (bool true) stopped a
      ∙ put_if-other k "stop_sequences" filled (texts req.params.stop) narrow b
      ∙ put_some-other k "top_p" serde.json_of_f32 req.params.top_p warm c
      ∙ put_some-other k "temperature" serde.json_of_f32 req.params.temperature with_system d

  body-messages :
      get (codes "messages") (build_body serde req stream) ≡ some (array (of_list divided.convo))
  unfolding codes eq_text
  body-messages =
      body-with_system "messages" refl refl refl refl
      ∙ put_if-other "messages" "system" (not (is_empty divided.system_chunks))
          (string (join_blank divided.system_chunks)) fixed refl
      ∙ put-other "messages" "max_tokens" (natural (unwrap_or req.params.max_tokens 1024)) bare refl
      ∙ find_field-put "messages" (array (of_list divided.convo))
          (put "model" (string req.model) end)

  body-model : get (codes "model") (build_body serde req stream) ≡ some (string req.model)
  unfolding codes eq_text
  body-model =
      body-with_system "model" refl refl refl refl
      ∙ put_if-other "model" "system" (not (is_empty divided.system_chunks))
          (string (join_blank divided.system_chunks)) fixed refl
      ∙ put-other "model" "max_tokens" (natural (unwrap_or req.params.max_tokens 1024)) bare refl
      ∙ put-other "model" "messages" (array (of_list divided.convo))
          (put "model" (string req.model) end) refl
      ∙ find_field-put "model" (string req.model) end

  body-system : get (codes "system") (build_body serde req stream) ≡ (
      if not (is_empty divided.system_chunks)
      then some (string (join_blank divided.system_chunks))
      else none)
  unfolding codes eq_text find_field put insert_field lt_text
  body-system =
      body-with_system "system" refl refl refl refl
      ∙ find_field-put_if "system" (not (is_empty divided.system_chunks))
          (string (join_blank divided.system_chunks)) fixed

  -- The body has the model, the turns of the users and the assistants in their order, and the texts of
  -- the system, all of them wherever they stand, put together, where there is one.
  pub build_body-get :
      (get (codes "model") (build_body serde req stream) ≡ some (string req.model))
      × (get (codes "messages") (build_body serde req stream)
          ≡ some (array (of_list (turns req.messages))))
      × (get (codes "system") (build_body serde req stream) ≡ (
          if not (is_empty (system_texts req.messages))
          then some (string (join_blank (system_texts req.messages)))
          else none))
  build_body-get =
      let same = separated req.messages in
      (
        body-model,
        body-messages ∙ ap (λ (s : Separated). some (array (of_list s.convo))) same,
        body-system
            ∙ ap
                (λ (s : Separated).
                  if not (is_empty s.system_chunks)
                  then some (string (join_blank s.system_chunks))
                  else none)
                same,
      )
