-- ===== src/Agent/Turn.antt =====
-- crates/studio-server/src/routes/agent_turn.rs: the bounded loop of an agent turn and the check of its
-- request. The router, the text of the results of tools and the protocol message are parameters; an event
-- holds what its JSON is made of.
pub mod Events
pub mod Request
use cobrust_studio.Base.{
  ℕ, zero, suc, ◌+◌, Bool, true, false, ◌||◌, not, Option, none, some, List, [], ◌∷◌, ◌++◌, Text,
  String, codes, trim, is_empty, eq_text, is_control, any, len, leb, ltb, ◌==◌, min, Result, ok,
  err, ok_or, map_err, ◌>>=◌, ◌>>◌, refuse_if, if◌then◌else◌,
}
use cobrust_studio.Provider.{
  Role, system, user, assistant, Message, SamplingParams, CompletionRequest, TokenUsage,
}
use cobrust_studio.Host.{FilePath}
use cobrust_studio.Router.{DispatchResponse, RouterError}
use cobrust_studio.Agent.Policy.{
  ToolCall, TotalTokens, no_tokens, add, normalise_tools_allowed, request_code,
}
use cobrust_studio.Agent.Directive.{
  Outcome, returns, panics, AgentDirective, final, tool_use, Reader, parse_agent_directive,
}
use cobrust_studio.Agent.System.{System, World, Answer, value, failed, panicked}
use cobrust_studio.Agent.Execute.{ToolExecution, execute_tool}

abbrev pub max_iterations_cap : ℕ
max_iterations_cap = 16

pub record AgentTurnMessage : Type 0 where
  pub role : Text
  pub content : Text

pub record AgentTurnRequest : Type 0 where
  pub model : Text
  pub system_text : Text
  pub messages : List AgentTurnMessage
  pub params : SamplingParams
  pub max_iterations : ℕ
  pub tools_allowed : List Text
  pub task_tag : Option Text

pub record LoopRequest : Type 0 where
  pub model : Text
  pub params : SamplingParams
  pub messages : List Message
  pub max_iterations : ℕ
  pub tools_allowed : List Text
  pub task_tag : Option Text

-- The code of a refused request: each is answered with status 400.
abbrev pub Refused : Type 0
Refused = String

-- `parse_role`
unfoldable pub parse_role : Text → Option Role
parse_role role =
    if eq_text role (codes "system")
    then some system
    else if eq_text role (codes "user")
    then some user
    else if eq_text role (codes "assistant")
    then some assistant
    else none

-- `validate_task_tag`
unfoldable pub validate_task_tag : Option Text → Result Refused (Option Text)
validate_task_tag none = ok none
validate_task_tag (some tag) =
    if is_empty tag
    then ok none
    else if ltb 256 (len tag)
    then err "task_tag_too_long"
    else if any is_control tag
    then err "task_tag_invalid_chars"
    else ok (some tag)

-- the loop over the messages of a request
parse_messages : List AgentTurnMessage → Result Refused (List Message)
parse_messages [] = ok []
parse_messages (m ∷ ms) = do
  role ← ok_or (parse_role m.role) "invalid_body"
  rest ← parse_messages ms
  ok (record { role = role; content = m.content } ∷ rest)

system_message : Text → List Message
system_message s = if is_empty (trim s) then [] else record { role = system; content = s } ∷ []

-- `validate_request`
unfoldable pub validate_request :
    (List Text → Text) → Bool → AgentTurnRequest → Result Refused LoopRequest
unfolding parse_messages system_message parse_role
validate_request protocol_message write_enabled req = do
  refuse_if (is_empty (trim req.model)) "invalid_body"
  refuse_if (is_empty req.messages) "invalid_body"
  refuse_if (req.max_iterations == 0 || ltb max_iterations_cap req.max_iterations) "invalid_body"
  tools ← map_err request_code (normalise_tools_allowed req.tools_allowed write_enabled)
  tag ← validate_task_tag req.task_tag
  messages ← parse_messages req.messages
  ok (record {
    model = req.model;
    params = req.params;
    messages =
        record { role = system; content = protocol_message tools }
        ∷ (system_message req.system_text ++ messages);
    max_iterations = req.max_iterations;
    tools_allowed = tools;
    task_tag = tag;
  })

pub data Event : Type 0 where
  iteration_event : ℕ → DispatchResponse → AgentDirective → Event
  tool_call_event : ℕ → ToolCall → Event
  tool_result_event : ℕ → ToolExecution → Event
  done_event : Text → ℕ → TotalTokens → Option Text → Event
  error_event : RouterError → Event

-- The router, as the loop calls it, on a state of its own, and the texts that serde_json and `format!`
-- make.
pub record Services : Type 1 where
  pub R : Type 0
  pub dispatch : CompletionRequest → Option Text → R → Result RouterError DispatchResponse × R
  pub results_text : List ToolExecution → Text
  pub decimal : ℕ → Text

with_call :
    ℕ
    → ToolCall
    → ToolExecution
    → Outcome (List ToolExecution × List Event)
    → Outcome (List ToolExecution × List Event)
with_call n call x panics = panics
with_call n call x (returns (xs, events)) =
    returns (x ∷ xs, tool_call_event n call ∷ tool_result_event n x ∷ events)

with_events : List Event → Outcome (List Event) → Outcome (List Event)
with_events es panics = panics
with_events es (returns later) = returns (es ++ later)

pub record TurnState (services : Services) (sys : System) : Type 0 where
  pub routing : services.R
  pub world : World sys

module _ (services : Services) (sys : System) (reader : Reader) (project_root : FilePath)
    (write_enabled : Bool) where
  open services use {R, dispatch, results_text, decimal}

  -- `iteration_tag`
  iteration_tag : Option Text → ℕ → Option Text
  iteration_tag none n = some (codes "agent-iter-" ++ decimal n)
  iteration_tag (some tag) n = some (tag ++ (codes "-iter-" ++ decimal n))

  -- `execute_calls`: the executions and the events; `panics` ends the turn
  execute_calls :
      List Text
      → ℕ
      → List ToolCall
      → World sys
      → Outcome (List ToolExecution × List Event) × World sys
  execute_calls allowed n [] w = (returns ([], []), w)
  execute_calls allowed n (call ∷ calls) w =
      let (r, w') = execute_tool sys project_root write_enabled allowed call w in
      let (rest, w'') = execute_calls allowed n calls w' in
      elim r [ panics ↦ (panics, w') | returns x ↦ (with_call n call x rest, w'') ]

  -- the end of a round with tools: the messages of the request go on with the results
  with_results : LoopRequest → Text → List ToolExecution → LoopRequest
  with_results req text xs = record req {
    messages =
        req.messages
        ++ record { role = assistant; content = text }
          ∷ record { role = user; content = results_text xs }
          ∷ [];
  }

  completion_of : LoopRequest → CompletionRequest
  completion_of req = record { model = req.model; messages = req.messages; params = req.params }

  -- `run_loop` from round number `n` on, with the rounds that are left
  rounds :
      ℕ
      → ℕ
      → LoopRequest
      → TotalTokens
      → TurnState services sys
      → Outcome (List Event) × TurnState services sys
  rounds zero n req totals s = (
    returns
        (done_event (codes "max iterations reached") req.max_iterations totals req.task_tag ∷ []),
    s,
  )
  rounds (suc left) n req totals s =
      let (response, r') = dispatch (completion_of req) (iteration_tag req.task_tag n) s.routing in
      let s' = record s { routing = r' } in
      elim response [
        | err e ↦ (returns (error_event e ∷ []), s')
        | ok d ↦
            let totals' = add totals d.response.usage in
            elim (parse_agent_directive reader d.response.text) [
              | panics ↦ (panics, s')
              | returns (final text) ↦ (
                returns (
                    iteration_event n d (final text)
                    ∷ done_event text (min (n + 1) 255) totals' req.task_tag
                    ∷ []),
                s',
              )
              | returns (tool_use calls) ↦
                  let (ran, w') = execute_calls req.tools_allowed n calls s'.world in
                  let s'' = record s' { world = w' } in
                  elim ran [
                    | panics ↦ (panics, s'')
                    | returns done ↦
                        let (later, t) =
                          rounds left (n + 1) (with_results req d.response.text done.0) totals'
                            s'' in
                        (with_events (iteration_event n d (tool_use calls) ∷ done.1) later, t)
                  ]
            ]
      ]

  -- `run_loop`
  unfoldable pub run_loop :
      LoopRequest → TurnState services sys → Outcome (List Event) × TurnState services sys
  unfolding rounds completion_of iteration_tag execute_calls with_results with_events with_call
  run_loop req = rounds req.max_iterations 0 req no_tokens
