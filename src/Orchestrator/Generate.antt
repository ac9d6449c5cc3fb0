-- ===== src/Orchestrator/Generate.antt =====
-- generate_briefing_only of app/services/orchestrator.py, and its route in app/api/briefings.py.
pub mod Keeps
use danah_v.Prelude.{
  ℕ, ◌+◌, String, Bool, true, false, Option, none, some, [], ◌∷◌, ◌==◌, if◌then◌else◌, find_first,
}
use danah_v.Enums.{ActorType, AgentName, PipelineTrigger, RunStatus}
use danah_v.Exceptions.{Error, Result, ok, raise}
use danah_v.Models.{Briefing, Db, PipelineRun, RunStats, Scalar, User}
use danah_v.Session.{Env, Action, pure, throw, query, draw, commit, ◌>>=◌, ◌>>◌}
use danah_v.Security.{assert_role, executive_and_above}
use danah_v.Audit.{record_audit}
use danah_v.Agents.{Agents, AgentOutput, BriefingOutput, ok_output}
use danah_v.Briefings.{BriefingDetail, briefing_detail}
use danah_v.Orchestrator.{day_of, no_stats, persist_briefing, start_run}
use danah_v.Orchestrator.Run.{fail_step, spend}
use danah_v.Orchestrator.Run.Execute.{finish}

-- Briefing.date == target
abbrev pub briefing_of_day : ℕ → Db → Option Briefing
briefing_of_day day db = find_first (λ b. b.date == day) db.briefings

abbrev pub spent_on : AgentOutput BriefingOutput → RunStats
spent_on result = spend result.tokens_in result.tokens_out result.cost_usd no_stats

-- _finish with these statistics.
unfoldable pub finish_with : Env → ℕ → RunStats → Option String → Action (RunStatus × RunStats)
unfolding finish
finish_with env run_id st reason s =
    let (r, end) = finish env run_id reason (record { session = s; stats = st }) in (r, end.session)

module _ (env : Env) (crew : ℕ → Agents) where
  unfoldable pub save_generated : ℕ → RunStats → Option BriefingOutput → Action Briefing
  unfolding finish_with persist_briefing
  save_generated run_id st none = do
    finish_with env run_id (fail_step AgentName.briefing st) (some "briefing agent failed")
    throw Error.orchestration_error
  save_generated run_id st (some english) = do
    briefing ← persist_briefing env (some run_id) (crew run_id).render_arabic english
    finish_with env run_id (record st { briefings = 1 }) none
    pure briefing

  unfoldable pub generate_new : User → Action Briefing
  unfolding save_generated start_run
  generate_new user = do
    run ← start_run env PipelineTrigger.manual (some user.id) none
    commit
    result ← (crew run.id).brief
    save_generated run.id (spent_on result) (ok_output result)

  -- The day that is asked for, or today.
  unfoldable pub target_day : Option ℕ → Action ℕ
  target_day none = do now ← draw env.now; pure (day_of now)
  target_day (some day) = pure day

  unfoldable pub reuse_or_generate : User → Option Briefing → Action Briefing
  unfolding generate_new
  reuse_or_generate user none = generate_new user
  reuse_or_generate user (some briefing) = pure briefing

  unfoldable pub generate_briefing_only : User → Option ℕ → Bool → Action Briefing
  unfolding reuse_or_generate target_day
  generate_briefing_only user for_date force = do
    day ← target_day for_date
    existing ← query (λ db. if force then none else briefing_of_day day db)
    reuse_or_generate user existing

  -- POST /api/briefings/generate
  unfoldable pub generate_briefing : User → Option ℕ → Bool → Option String → Action BriefingDetail
  unfolding generate_briefing_only assert_role briefing_detail
  generate_briefing user for_date force ip = do
    assert_role user executive_and_above
    briefing ← generate_briefing_only user for_date force
    record_audit env "briefing.generate" ActorType.user (some user.id) (some "briefing")
        (some briefing.id) ip
        (("date", Scalar.number briefing.date) ∷ ("force", Scalar.flag force) ∷ [])
    briefing_detail briefing user
