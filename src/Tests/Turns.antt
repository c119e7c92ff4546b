-- ===== src/Tests/Turns.antt =====
-- A turn of crates/studio-server/src/routes/agent_turn.rs.
use cobrust_studio.Base.{
  ℕ, ◌≡◌, refl, false, none, some, List, [], ◌∷◌, codes, Result, ok, trim, strip_prefix, eq_text,
  contains_text, set_insert, is_control, any, len, len_utf8,
}
use cobrust_studio.Agent.Policy.{
  no_tokens, add, normalise_tools_allowed, is_known_tool, is_write_tool, request_code,
}
use cobrust_studio.Agent.Directive.{
  returns, final, parse_agent_directive, parse_json_value, find, rfind, unfenced, then_some,
}
use cobrust_studio.Agent.Turn.{
  AgentTurnRequest, LoopRequest, Event, iteration_event, done_event, Services, TurnState, run_loop,
  validate_request, validate_task_tag, parse_role,
}
use cobrust_studio.Agent.Turn.Events.{IsTurn, run_loop-IsTurn}
use cobrust_studio.Agent.Turn.Request.{IsBounded, validate_request-IsBounded}
use cobrust_studio.Router.{DispatchResponse}
use cobrust_studio.Tests.Tools.{reader, project}
use cobrust_studio.Tests.Effects.{system, world}

abbrev reply : DispatchResponse
reply = record {
  response = record {
    text = codes "bye";
    model = codes "m";
    usage = record { prompt_tokens = 3; completion_tokens = 2 };
  };
  provider = codes "a";
  cache_hit = false;
}

abbrev services : Services
services = record {
  R = ℕ;
  dispatch = λ req tag r. (ok reply, r);
  results_text = λ xs. [];
  decimal = λ n. n ∷ [];
}

abbrev asked : AgentTurnRequest
asked = record {
  model = codes "m";
  system_text = [];
  messages = record { role = codes "user"; content = codes "hi" } ∷ [];
  params = record { max_tokens = none; temperature = none; top_p = none; stop = [] };
  max_iterations = 4;
  tools_allowed = codes "fs.read" ∷ [];
  task_tag = some (codes "t");
}

abbrev or_empty : {E : Type 0} → Result E LoopRequest → LoopRequest
or_empty (Result.err e) = record {
  model = [];
  params = record { max_tokens = none; temperature = none; top_p = none; stop = [] };
  messages = [];
  max_iterations = 0;
  tools_allowed = [];
  task_tag = none;
}
or_empty (ok r) = r

abbrev accepted : LoopRequest
accepted = or_empty (validate_request (λ tools. codes "tools") false asked)

validate_test : validate_request (λ tools. codes "tools") false asked ≡ ok accepted
unfolding validate_request validate_task_tag normalise_tools_allowed is_known_tool is_write_tool
    contains_text eq_text codes trim set_insert any is_control len len_utf8 request_code parse_role
validate_test = refl

validate_request-IsBounded_example : IsBounded false accepted
validate_request-IsBounded_example =
    validate_request-IsBounded (λ tools. codes "tools") false asked accepted validate_test

abbrev loop : LoopRequest
loop = record {
  model = codes "m";
  params = record { max_tokens = none; temperature = none; top_p = none; stop = [] };
  messages = [];
  max_iterations = 4;
  tools_allowed = [];
  task_tag = none;
}

abbrev start : TurnState services system
start = record { routing = 0; world = world }

abbrev events : List Event
events =
    iteration_event 0 reply (final (codes "bye"))
    ∷ done_event (codes "bye") 1 (record { prompt_tokens = 3; completion_tokens = 2 }) none
    ∷ []

turn_test : (run_loop services system reader project false loop start).0 ≡ returns events
unfolding run_loop parse_agent_directive parse_json_value trim find rfind unfenced then_some
    strip_prefix eq_text codes add no_tokens
turn_test = refl

run_loop-IsTurn_example : IsTurn 4 events
run_loop-IsTurn_example =
    run_loop-IsTurn services system reader project false loop start events turn_test
