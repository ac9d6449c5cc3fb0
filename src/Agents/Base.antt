-- ===== src/Agents/Base.antt =====
-- app/services/agents/base.py: BaseAgent, whose run opens a step row, gathers evidence with tools,
-- asks for a typed answer and closes the row.
pub mod Keeps
pub mod Recorded
pub mod Spending
use danah_v.Prelude.{
  ℕ, zero, suc, ◌+◌, ◌==◌, String, str_eq, Bool, true, false, Option, none, some, List, [], ◌∷◌,
  ◌++◌, if◌then◌else◌, modify_first,
}
use danah_v.Enums.{AgentName, Classification, StepStatus}
use danah_v.Exceptions.{Error, Result, ok, raise}
use danah_v.Models.{Db, PipelineStep}
use danah_v.Session.{
  Env, Session, Action, pure, throw, draw, write, commit, ask, attempt, of_result, ◌>>=◌, ◌>>◌,
}
use danah_v.Llm.{LlmSettings, TokenUsage, compute_cost_usd}
use danah_v.Agents.{AgentOutput}
use danah_v.Agents.Tools.{Tool, ToolCall, Observation, Lookup, find_tool, execute_tool}

-- A message of the conversation; its text is what the source renders from these parts.
pub data Message : Type 0 where
  user : String → Message
  assistant : String → Message
  tool_result : String → Observation → Message
  final_request : Message

pub record Reply : Type 0 where
  pub text : String
  pub usage : TokenUsage
  pub tool_calls : List ToolCall

-- The gateway, as an agent with answers of type `A` calls it: its n-th answer to a system prompt,
-- the messages, the tools that are offered and the model.
pub record Gateway (A : Type 0) : Type 0 where
  pub complete : ℕ → String → List Message → List Tool → String → Result Reply
  pub complete_structured : ℕ → String → List Message → String → Result (A × TokenUsage)

-- What a subclass sets, and its two prompts.
pub record BaseAgent (A : Type 0) : Type 0 where
  pub name : AgentName
  pub is_primary : Bool
  pub allowed_tools : List String
  pub system_prompt : Result String
  pub user_message : String

-- AgentContext, with the settings that an agent reads and what the tools find.
pub record AgentContext (A : Type 0) : Type 0 where
  pub gateway : Gateway A
  pub run_id : Option ℕ
  pub clearance : Classification
  pub settings : LlmSettings
  pub agent_max_tool_iterations : ℕ
  pub lookup : Lookup

-- system_prompt: no file name and a missing file are refused.
unfoldable pub system_prompt : (String → Option String) → (String → String) → String → Result String
system_prompt read_text with_schema prompt_file =
    if str_eq prompt_file ""
    then raise Error.orchestration_error
    else elim (read_text prompt_file) [
      | none ↦ raise Error.orchestration_error
      | some prompt ↦ ok (with_schema prompt)
    ]

-- _model
unfoldable pub agent_model : LlmSettings → Bool → String
agent_model cfg is_primary =
    if cfg.anthropic_first
    then (if is_primary then cfg.llm_model_primary else cfg.llm_model_fast)
    else if is_primary
    then cfg.openai_model_primary
    else cfg.openai_model_fast

-- `except LLMGatewayError` also catches its subclass.
abbrev pub is_gateway_error : Error → Bool
is_gateway_error Error.llm_gateway_error = true
is_gateway_error Error.llm_not_configured = true
is_gateway_error _ = false

-- The tools that are offered: the allowed names that are registered.
unfoldable pub offered : List String → List Tool
unfolding find_tool
offered [] = []
offered (name ∷ names) =
    let rest = offered names in elim (find_tool name) [ none ↦ rest | some tool ↦ tool ∷ rest ]

abbrev pub has_step_id : ℕ → PipelineStep → Bool
has_step_id id r = r.id == id

abbrev pub running_step : ℕ → ℕ → AgentName → PipelineStep
running_step id run_id agent = record {
  id = id;
  run_id = run_id;
  agent = agent;
  status = StepStatus.running;
  tokens_in = 0;
  tokens_out = 0;
  cost_usd = 0;
  failed_with_error = false;
}

abbrev pub closed_step : StepStatus → ℕ → ℕ → ℕ → Bool → PipelineStep → PipelineStep
closed_step status tokens_in tokens_out cost failed r = record r {
  status = status;
  tokens_in = tokens_in;
  tokens_out = tokens_out;
  cost_usd = cost;
  failed_with_error = failed;
}

-- _open_step: without a run there is no row.
unfoldable pub open_step : Env → Option ℕ → AgentName → Action (Option ℕ)
open_step env none agent = pure none
open_step env (some run_id) agent = do
  id ← draw env.uuid4
  write (λ db. record db { steps = db.steps ++ running_step id run_id agent ∷ [] })
  commit
  pure (some id)

-- _close_step
unfoldable pub close_step : Option ℕ → StepStatus → ℕ → ℕ → ℕ → Bool → Action Unit
close_step none status tokens_in tokens_out cost failed = pure tt
close_step (some id) status tokens_in tokens_out cost failed = do
  write (λ db. record db {
    steps =
        modify_first (has_step_id id) (closed_step status tokens_in tokens_out cost failed)
          db.steps;
  })
  commit

-- The local variables of _tool_loop.
pub record Progress : Type 0 where
  pub messages : List Message
  pub used : ℕ
  pub tokens_in : ℕ
  pub tokens_out : ℕ
  pub last : Option String

abbrev pub answered : Reply → Progress → Progress
answered reply p = record p {
  tokens_in = p.tokens_in + reply.usage.input_tokens;
  tokens_out = p.tokens_out + reply.usage.output_tokens;
  last = some reply.text;
}

abbrev pub noted : String → Progress → Progress
noted text p = record p {
  messages = p.messages ++ Message.assistant (if str_eq text "" then "(tool call)" else text) ∷ [];
}

abbrev pub observed : ToolCall → Observation → Progress → Progress
observed call o p = record p {
  used = p.used + 1;
  messages = p.messages ++ Message.tool_result call.name o ∷ [];
}

module _ {A : Type 0} (env : Env) (ctx : AgentContext A) (agent : BaseAgent A) where
  abbrev pub model : String
  model = agent_model ctx.settings agent.is_primary

  unfoldable pub execute_calls : List ToolCall → Progress → Action Progress
  execute_calls [] p = pure p
  execute_calls (call ∷ calls) p = do
    o ← execute_tool env ctx.lookup ctx.clearance call
    execute_calls calls (observed call o p)

  unfoldable pub next_reply : List Tool → Progress → Action Reply
  next_reply tools p = do
    prompt ← of_result agent.system_prompt
    ask (λ n. ctx.gateway.complete n prompt p.messages tools model)

  -- _tool_loop, with the iterations that are left.
  unfoldable pub tool_loop : List Tool → ℕ → Progress → Action Progress
  unfolding next_reply execute_calls
  tool_loop tools zero p = pure p
  tool_loop tools (suc left) p = do
    reply ← next_reply tools p
    elim reply.tool_calls [
      | [] ↦ pure (answered reply p)
      | call ∷ calls ↦ do
        p' ← execute_calls (call ∷ calls) (noted reply.text (answered reply p))
        tool_loop tools left p'
    ]

  abbrev pub begun : Progress
  begun = record {
    messages = Message.user agent.user_message ∷ [];
    used = 0;
    tokens_in = 0;
    tokens_out = 0;
    last = none;
  }

  -- An agent without a known tool asks nothing before its answer.
  unfoldable pub gather : List Tool → Action Progress
  unfolding tool_loop
  gather [] = pure begun
  gather (tool ∷ tools) = tool_loop (tool ∷ tools) ctx.agent_max_tool_iterations begun

  -- The assistant's last text and the request for the answer are appended after a loop.
  abbrev pub final_messages : Progress → List Message
  final_messages p = elim p.last [
    | none ↦ p.messages
    | some text ↦ p.messages ++ Message.assistant text ∷ Message.final_request ∷ []
  ]

  unfoldable pub final_answer : Progress → Action (A × TokenUsage)
  final_answer p = do
    prompt ← of_result agent.system_prompt
    ask (λ n. ctx.gateway.complete_structured n prompt (final_messages p) model)

  -- The except branch: another exception than the gateway's leaves the row as it is.
  unfoldable pub fail_step : Option ℕ → ℕ → ℕ → Error → Action (AgentOutput A)
  fail_step step tokens_in tokens_out e =
      if is_gateway_error e
      then (do
        close_step step StepStatus.failed tokens_in tokens_out 0 true
        pure (record {
          output = none;
          status = StepStatus.failed;
          tokens_in = tokens_in;
          tokens_out = tokens_out;
          cost_usd = 0;
        }))
      else throw e

  unfoldable pub complete_step : Option ℕ → ℕ → ℕ → A → Action (AgentOutput A)
  complete_step step tokens_in tokens_out output =
      let cost = compute_cost_usd ctx.settings model tokens_in tokens_out in
      do
        close_step step StepStatus.completed tokens_in tokens_out cost false
        pure (record {
          output = some output;
          status = StepStatus.completed;
          tokens_in = tokens_in;
          tokens_out = tokens_out;
          cost_usd = cost;
        })

  unfoldable pub settle_answer :
      Option ℕ → Progress → Result (A × TokenUsage) → Action (AgentOutput A)
  settle_answer step p (raise e) = fail_step step p.tokens_in p.tokens_out e
  settle_answer step p (ok (output, usage)) =
      complete_step step (p.tokens_in + usage.input_tokens) (p.tokens_out + usage.output_tokens)
        output

  -- Where the loop raises, what it has counted is lost.
  unfoldable pub settle_gathered : Option ℕ → Result Progress → Action (AgentOutput A)
  settle_gathered step (raise e) = fail_step step 0 0 e
  settle_gathered step (ok p) = do answer ← attempt (final_answer p); settle_answer step p answer

  unfoldable pub run : Action (AgentOutput A)
  unfolding open_step gather settle_gathered
  run = do
    step ← open_step env ctx.run_id agent.name
    gathered ← attempt (gather (offered agent.allowed_tools))
    settle_gathered step gathered
