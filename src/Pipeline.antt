-- ===== src/Pipeline.antt =====
-- app/api/pipeline.py: a run is triggered, and what the API says of a run.
pub mod Trigger
use danah_v.Prelude.{
  ℕ, ◌+◌, String, Bool, true, false, not, ◌&&◌, Option, none, some, List, [], ◌∷◌, ◌==◌, leb,
  if◌then◌else◌, length, filterb, find_first, is_none,
}
use danah_v.Enums.{
  ActorType, PipelineTrigger, PublicationStatus, RunStatus, classification_rank, same_publication,
}
use danah_v.Exceptions.{Error}
use danah_v.Models.{Briefing, Db, Insight, PipelineRun, PipelineStep, Scalar, User}
use danah_v.Session.{Env, Action, pure, throw, query, commit, one_or, ◌>>=◌, ◌>>◌}
use danah_v.Security.{analyst_and_above, assert_role, user_clearance}
use danah_v.Audit.{record_audit}
use danah_v.Orchestrator.{start_run}
use danah_v.Orchestrator.Run.{is_of_run}
use danah_v.Orchestrator.Run.Execute.{has_run_id}

pub record RunAccepted : Type 0 where
  pub run_id : ℕ
  pub status : RunStatus

-- POST /api/pipeline/run. The job is handed to the queue last; if the queue refuses it, that is
-- logged, so the answer does not depend on it.
unfoldable pub trigger_run :
    Env → User → Option String → Option ℕ → List (String × Scalar) → Action RunAccepted
unfolding assert_role start_run
trigger_run env user ip max_items detail = do
  assert_role user analyst_and_above
  run ← start_run env PipelineTrigger.manual (some user.id) max_items
  record_audit env "pipeline.run" ActorType.user (some user.id) (some "pipeline_run") (some run.id)
      ip detail
  commit
  pure (record { run_id = run.id; status = run.status })

abbrev pub step_of_run : ℕ → PipelineStep → Bool
step_of_run run_id step = step.run_id == run_id

abbrev pub sum_of : (PipelineStep → ℕ) → List PipelineStep → ℕ
sum_of f [] = 0
sum_of f (s ∷ steps) = f s + sum_of f steps

abbrev pub step_tokens : PipelineStep → ℕ
step_tokens s = s.tokens_in + s.tokens_out

-- _run_insight_count and _run_briefing_count
unfoldable pub run_insight_count : Db → ℕ → User → ℕ
run_insight_count db run_id user = length (
    filterb
      (λ (i : Insight).
        is_of_run run_id i.run_id
        && (leb (classification_rank i.classification) (classification_rank (user_clearance user))
            && not (same_publication i.status PublicationStatus.rejected)))
      db.insights)

unfoldable pub run_briefing_count : Db → ℕ → User → ℕ
run_briefing_count db run_id user = length (
    filterb
      (λ (b : Briefing).
        is_of_run run_id b.run_id
        && (leb (classification_rank b.classification) (classification_rank (user_clearance user))
            && not (same_publication b.status PublicationStatus.rejected)))
      db.briefings)

pub record PipelineRunDetail : Type 0 where
  pub run : PipelineRun
  pub steps : List PipelineStep
  pub total_tokens : ℕ
  pub total_cost_usd : ℕ
  pub step_count : ℕ
  pub insight_count : ℕ
  pub briefing_count : ℕ

abbrev pub steps_of : Db → ℕ → List PipelineStep
steps_of db run_id = filterb (step_of_run run_id) db.steps

abbrev pub detail_of_run : Db → User → PipelineRun → PipelineRunDetail
detail_of_run db user run = record {
  run = run;
  steps = steps_of db run.id;
  total_tokens = sum_of step_tokens (steps_of db run.id);
  total_cost_usd = sum_of (λ s. s.cost_usd) (steps_of db run.id);
  step_count = length (steps_of db run.id);
  insight_count = run_insight_count db run.id user;
  briefing_count = run_briefing_count db run.id user;
}

unfoldable pub get_run : ℕ → User → Action PipelineRunDetail
get_run run_id user = do
  found ← query (λ db. find_first (has_run_id run_id) db.runs)
  run ← one_or Error.not_found found
  query (λ db. detail_of_run db user run)
