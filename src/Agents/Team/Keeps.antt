-- ===== src/Agents/Team/Keeps.antt =====
-- The agents' steps keep each invariant that the single writes of a run keep.
use danah_v.Prelude.{ℕ, Option}
use danah_v.Exceptions.{Result, ok, raise}
use danah_v.Models.{Db}
use danah_v.Session.{Env}
use danah_v.Session.Keeps.{
  Keeps-ask, Keeps-attempt, Keeps-of_result, Keeps, Keeps-pure, Keeps-throw, Keeps-bind, Keeps-if,
}
use danah_v.Llm.{TokenUsage}
use danah_v.Agents.{BriefingOutput}
use danah_v.Agents.Base.{is_gateway_error}
use danah_v.Agents.Base.Keeps.{run-Keeps}
use danah_v.Agents.Team.{
  ArabicRendering, Desk, judge, render_arabic, request_arabic, settle_arabic, team,
}
use danah_v.Orchestrator.Drafts.{Writes}
use danah_v.Orchestrator.Run.Keeps.{AgentsKeep}

module _ (env : Env) (desk : Desk) (run_id : Option ℕ) (P : Db → Type 0) where
  request_arabic-Keeps :
      (english : BriefingOutput) → Keeps P (request_arabic env desk run_id english)
  unfolding request_arabic
  request_arabic-Keeps english =
      Keeps-bind P _ _ (Keeps-of_result P desk.arabic_prompt) (λ prompt. Keeps-ask P _)

  settle_arabic-Keeps :
      (english : BriefingOutput) (r : Result (ArabicRendering × TokenUsage))
      → Keeps P (settle_arabic env desk run_id english r)
  unfolding settle_arabic
  settle_arabic-Keeps english (raise e) =
      Keeps-if P (is_gateway_error e) _ _ (Keeps-pure P _) (Keeps-throw P e)
  settle_arabic-Keeps english (ok (arabic, usage)) = Keeps-pure P (judge english arabic)

  render_arabic-Keeps : (english : BriefingOutput) → Keeps P (render_arabic env desk run_id english)
  unfolding render_arabic
  render_arabic-Keeps english =
      Keeps-bind P _ _ (Keeps-attempt P _ (request_arabic-Keeps english))
        (settle_arabic-Keeps english)

  pub team-Keeps : Writes env P → AgentsKeep P (team env desk run_id)
  team-Keeps closed = record {
    signal = λ ids. run-Keeps env _ _ P closed.memory closed.steps;
    analyse = λ name. run-Keeps env _ _ P closed.memory closed.steps;
    brief = run-Keeps env _ _ P closed.memory closed.steps;
    render_arabic = render_arabic-Keeps;
    remember = λ insights briefing st. run-Keeps env _ _ P closed.memory closed.steps;
  }
