-- ===== src/Agents/Base/Spending.antt =====
-- What an agent's run may spend (BaseAgent.run and _tool_loop of app/services/agents/base.py).
use danah_v.Prelude.{
  ℕ, String, zero, suc, ◌+◌, ◌*◌, ◌≤◌, ◌≡◌, true, false, Option, List, [], ◌∷◌, arith, inl, inr,
  Bool-cases,
}
use danah_v.Enums.{StepStatus}
use danah_v.Exceptions.{Error, Result, ok, raise}
use danah_v.Session.{attempt, of_result, Env, Session, Action}
use danah_v.Session.Gives.{Gives, Then, Gives-any, Gives-ok, Gives-bind, Gives-List, Then-mono}
use danah_v.Llm.{TokenUsage}
use danah_v.Agents.{AgentOutput}
use danah_v.Agents.Tools.{Tool, ToolCall}
use danah_v.Agents.Base.{
  AgentContext, BaseAgent, Gateway, Message, Progress, answered, noted, observed, begun,
  execute_calls, next_reply, tool_loop, gather, final_answer, fail_step, complete_step,
  settle_answer, settle_gathered, run, offered, is_gateway_error, open_step, close_step,
}
use danah_v.Agents.Tools.{execute_tool}

abbrev pub usage_total : TokenUsage → ℕ
usage_total u = u.input_tokens + u.output_tokens

-- No single answer of the gateway costs more than `most` tokens.
pub record Bounded {A : Type 0} (most : ℕ) (gateway : Gateway A) : Type 0 where
  pub reply :
      (n : ℕ) (prompt : String) (messages : List Message) (tools : List Tool) (model : String)
      → Then (λ r. usage_total r.usage ≤ most) (gateway.complete n prompt messages tools model)
  pub answer :
      (n : ℕ) (prompt : String) (messages : List Message) (model : String)
      → Then (λ r. usage_total r.1 ≤ most) (gateway.complete_structured n prompt messages model)

abbrev spent : Progress → ℕ
spent p = p.tokens_in + p.tokens_out

abbrev Within : ℕ → Progress → Type 0
Within n p = spent p ≤ n

abbrev pub SpentAtMost : {A : Type 0} → ℕ → AgentOutput A → Type 0
SpentAtMost n out = out.tokens_in + out.tokens_out ≤ n

module _ {A : Type 0} (env : Env) (ctx : AgentContext A) (agent : BaseAgent A) where
  fail_step-Spent :
      (step : Option ℕ) (tokens_in tokens_out : ℕ) (e : Error)
      → Gives
          (SpentAtMost (tokens_in + tokens_out))
          (fail_step env ctx agent step tokens_in tokens_out e)
  unfolding fail_step
  fail_step-Spent step tokens_in tokens_out e = elim (Bool-cases (is_gateway_error e)) [
    | inl caught ↦ rw caught (
        Gives-bind (λ u. Unit) (SpentAtMost (tokens_in + tokens_out))
          (close_step step StepStatus.failed tokens_in tokens_out 0 true) _ (Gives-any _)
          (λ u _. record { at = λ s. omega arith }))
    | inr other ↦ rw other (record { at = λ s. tt })
  ]

  complete_step-Spent :
      (step : Option ℕ) (tokens_in tokens_out : ℕ) (output : A)
      → Gives
          (SpentAtMost (tokens_in + tokens_out))
          (complete_step env ctx agent step tokens_in tokens_out output)
  unfolding complete_step
  complete_step-Spent step tokens_in tokens_out output =
      Gives-bind (λ u. Unit) (SpentAtMost (tokens_in + tokens_out))
        (close_step step StepStatus.completed tokens_in tokens_out _ false) _ (Gives-any _)
        (λ u _. record { at = λ s. omega arith })

  execute_calls-Within :
      (n : ℕ) (calls : List ToolCall) (p : Progress)
      → Within n p
      → Gives (Within n) (execute_calls env ctx agent calls p)
  unfolding execute_calls
  execute_calls-Within n [] p h = record { at = λ s. h }
  execute_calls-Within n (call ∷ calls) p h =
      Gives-bind (λ o. Unit) (Within n) (execute_tool env ctx.lookup ctx.clearance call) _
        (Gives-any (execute_tool env ctx.lookup ctx.clearance call))
        (λ o _. execute_calls-Within n calls (observed call o p) h)

  module _ (most : ℕ) (bounded : Bounded most ctx.gateway) where
    next_reply-Bounded :
        (tools : List Tool) (p : Progress)
        → Gives (λ r. usage_total r.usage ≤ most) (next_reply env ctx agent tools p)
    unfolding next_reply
    next_reply-Bounded tools p =
        Gives-bind (λ prompt. Unit) (λ r. usage_total r.usage ≤ most)
          (of_result agent.system_prompt) _ (Gives-any (of_result agent.system_prompt))
          (λ prompt _. record { at = λ s. bounded.reply s.draws prompt p.messages tools _ })

    tool_loop-Within :
        (tools : List Tool) (left n : ℕ) (p : Progress)
        → Within n p
        → Gives (Within (n + left * most)) (tool_loop env ctx agent tools left p)
    unfolding tool_loop
    tool_loop-Within tools zero n p h = record { at = λ s. omega (arith, h) }
    tool_loop-Within tools (suc left) n p h =
        Gives-bind (λ r. usage_total r.usage ≤ most) (Within (n + suc left * most))
          (next_reply env ctx agent tools p) _ (next_reply-Bounded tools p)
          (λ reply cheap.
            Gives-List (Within (n + suc left * most)) reply.tool_calls _ _
              (record { at = λ s. omega (arith, h, cheap) })
              (λ call calls.
                Gives-bind (Within (n + most)) (Within (n + suc left * most))
                  (execute_calls env ctx agent (call ∷ calls) (noted reply.text (answered reply p)))
                  _
                  (execute_calls-Within (n + most) (call ∷ calls)
                    (noted reply.text (answered reply p)) (omega (arith, h, cheap)))
                  (λ p' h'. record {
                    at = λ s.
                        Then-mono (Within (n + most + left * most)) (Within (n + suc left * most))
                          (λ q k. omega (arith, k)) _
                          ((tool_loop-Within tools left (n + most) p' h').at s);
                  })))

    gather-Within :
        (tools : List Tool)
        → Gives (Within (0 + ctx.agent_max_tool_iterations * most)) (gather env ctx agent tools)
    unfolding gather
    gather-Within [] = record { at = λ s. omega arith }
    gather-Within (tool ∷ tools) =
        tool_loop-Within (tool ∷ tools) ctx.agent_max_tool_iterations 0 (begun env ctx agent)
          (omega arith)

    final_answer-Bounded :
        (p : Progress) → Gives (λ r. usage_total r.1 ≤ most) (final_answer env ctx agent p)
    unfolding final_answer
    final_answer-Bounded p =
        Gives-bind (λ prompt. Unit) (λ r. usage_total r.1 ≤ most) (of_result agent.system_prompt) _
          (Gives-any (of_result agent.system_prompt))
          (λ prompt _. record { at = λ s. bounded.answer s.draws prompt _ _ })

    weaken :
        (m n : ℕ) (action : Action (AgentOutput A))
        → m ≤ n
        → Gives (SpentAtMost m) action
        → Gives (SpentAtMost n) action
    weaken m n action le g = record {
      at = λ s. Then-mono (SpentAtMost m) (SpentAtMost n) (λ q k. omega (arith, k, le)) _ (g.at s);
    }

    settle_answer-Spent :
        (step : Option ℕ) (n : ℕ) (p : Progress) (r : Result (A × TokenUsage))
        → Within n p
        → Then (λ a. usage_total a.1 ≤ most) r
        → Gives (SpentAtMost (n + most)) (settle_answer env ctx agent step p r)
    unfolding settle_answer
    settle_answer-Spent step n p (raise e) h k =
        weaken (p.tokens_in + p.tokens_out) (n + most) _ (omega (arith, h))
          (fail_step-Spent step p.tokens_in p.tokens_out e)
    settle_answer-Spent step n p (ok (output, usage)) h k =
        weaken (p.tokens_in + usage.input_tokens + (p.tokens_out + usage.output_tokens)) (n + most)
          _ (omega (arith, h, k))
          (complete_step-Spent step (p.tokens_in + usage.input_tokens)
            (p.tokens_out + usage.output_tokens) output)

    settle_gathered-Spent :
        (step : Option ℕ) (n : ℕ) (r : Result Progress)
        → Then (Within n) r
        → Gives (SpentAtMost (n + most)) (settle_gathered env ctx agent step r)
    unfolding settle_gathered
    settle_gathered-Spent step n (raise e) h =
        weaken 0 (n + most) _ (omega arith) (fail_step-Spent step 0 0 e)
    settle_gathered-Spent step n (ok p) h =
        Gives-bind (Then (λ a. usage_total a.1 ≤ most)) (SpentAtMost (n + most))
          (attempt (final_answer env ctx agent p)) _
          (record { at = λ s. (final_answer-Bounded p).at s })
          (λ r k. settle_answer-Spent step n p r h k)

    run-Gives :
        Gives (SpentAtMost (0 + ctx.agent_max_tool_iterations * most + most)) (run env ctx agent)
    unfolding run
    run-Gives =
        let n = 0 + ctx.agent_max_tool_iterations * most in
        Gives-bind (λ step. Unit) (SpentAtMost (n + most)) (open_step env ctx.run_id agent.name) _
          (Gives-any (open_step env ctx.run_id agent.name))
          (λ step _.
            Gives-bind (Then (Within n)) (SpentAtMost (n + most))
              (attempt (gather env ctx agent (offered agent.allowed_tools))) _
              (record { at = λ s. (gather-Within (offered agent.allowed_tools)).at s })
              (settle_gathered-Spent step n))

    -- If no single answer of the gateway costs more than `most` tokens, an agent's run that returns
    -- reports at most `most` tokens for each iteration that the cap allows, and as much for the
    -- answer, however many tools each reply calls.
    pub run-Spent :
        (s : Session) (out : AgentOutput A)
        → (run env ctx agent s).0 ≡ ok out
        → out.tokens_in + out.tokens_out ≤ suc ctx.agent_max_tool_iterations * most
    run-Spent s out h = omega (
      arith,
      Gives-ok (SpentAtMost (0 + ctx.agent_max_tool_iterations * most + most)) (run env ctx agent) s
          out run-Gives h,
    )
