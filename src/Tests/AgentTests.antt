-- ===== src/Tests/AgentTests.antt =====
-- An agent's step at concrete answers.
use danah_v.Prelude.{suc, ◌+◌, ◌*◌, ◌≤◌, ◌≡◌, refl, arith, some, [], ◌∷◌}
use danah_v.Enums.{AgentName, StepStatus}
use danah_v.Exceptions.{ok}
use danah_v.Chunking.Scan.{strip}
use danah_v.Agents.{AgentOutput, DraftInsight}
use danah_v.Agents.Tools.{execute_tool}
use danah_v.Agents.Base.{
  AgentContext, BaseAgent, Message, offered, run, close_step, complete_step, final_answer,
  settle_answer,
}
use danah_v.Agents.Base.Spending.{Bounded, run-Spent}
use danah_v.Agents.Team.{agent, allowed_tools, context}
use danah_v.Prelude.{List}
use danah_v.Llm.{compute_cost_usd}
use danah_v.Tests.{
  first_session, sample_desk, sample_drafts, sample_env, sample_gateway, sample_reply,
}

abbrev risk_context : AgentContext (List DraftInsight)
risk_context = context sample_env sample_desk (some 9) (sample_gateway sample_drafts)

abbrev risk_agent : BaseAgent (List DraftInsight)
risk_agent = agent sample_env sample_desk (some 9) AgentName.risk "Analyse."

abbrev risk_output : AgentOutput (List DraftInsight)
risk_output = record {
  output = some sample_drafts;
  status = StepStatus.completed;
  tokens_in = 90;
  tokens_out = 60;
  cost_usd = 1_170;
}

risk_returns : (run sample_env risk_context risk_agent first_session).0 ≡ ok risk_output
unfolding run offered allowed_tools execute_tool strip settle_answer final_answer complete_step
    close_step compute_cost_usd
risk_returns = refl

reply_bounded :
    (messages : List Message)
    → (sample_reply messages).usage.input_tokens + (sample_reply messages).usage.output_tokens ≤ 50
reply_bounded [] = omega arith
reply_bounded (m ∷ []) = omega arith
reply_bounded (m ∷ m' ∷ rest) = omega arith

risk_gateway-Bounded : Bounded 50 risk_context.gateway
risk_gateway-Bounded = record {
  reply = λ n prompt messages tools model. reply_bounded messages;
  answer = λ n prompt messages model. omega arith;
}

run-Spent_example : risk_output.tokens_in + risk_output.tokens_out ≤ suc 4 * 50
run-Spent_example =
    run-Spent sample_env risk_context risk_agent 50 risk_gateway-Bounded first_session risk_output
      risk_returns
