-- ===== src/Orchestrator/Generate/Keeps.antt =====
-- What generating a briefing keeps: each invariant that the single writes of a run keep.
use danah_v.Prelude.{Bool-cases, inl, inr, ℕ, refl, Bool, Option, none, some, String, [], ◌∷◌}
use danah_v.Enums.{ActorType, AgentName, PipelineTrigger}
use danah_v.Exceptions.{Error}
use danah_v.Models.{Briefing, Db, RunStats, Scalar, User}
use danah_v.Session.{Env}
use danah_v.Session.Keeps.{
  Keeps, Keeps-pure, Keeps-throw, Keeps-query, Keeps-draw, Keeps-commit, Keeps-bind, Keeps-if,
}
use danah_v.Security.{assert_role, executive_and_above, has_role}
use danah_v.Audit.Keeps.{AuditWrites, record_audit-Keeps}
use danah_v.Agents.{Agents, BriefingOutput, ok_output}
use danah_v.Briefings.{briefing_detail}
use danah_v.Orchestrator.{day_of, start_run}
use danah_v.Orchestrator.Drafts.{Writes, persist_briefing-Keeps}
use danah_v.Orchestrator.Run.{fail_step}
use danah_v.Orchestrator.Run.Keeps.{AgentsKeep}
use danah_v.Orchestrator.Run.Execute.{finish}
use danah_v.Orchestrator.Generate.{
  finish_with, generate_briefing, generate_briefing_only, generate_new, reuse_or_generate,
  save_generated, spent_on, target_day,
}

module _ (env : Env) (crew : ℕ → Agents) (P : Db → Type 0) (closed : Writes env P)
    (keep : (run_id : ℕ) → AgentsKeep P (crew run_id))
    (triggers : (by : PipelineTrigger) (initiated_by : Option ℕ) (max_items : Option ℕ)
      → Keeps P (start_run env by initiated_by max_items)) where
  finish_with-Keeps :
      (run_id : ℕ) (st : RunStats) (reason : Option String)
      → Keeps P (finish_with env run_id st reason)
  unfolding finish_with finish
  finish_with-Keeps run_id st reason = record {
    at = λ s h. elim (Bool-cases (env.accepts s.draws)) [
      | inl taken ↦
          rw (taken, finish_with)
            (let h' = closed.runs s.current run_id _ (λ r. refl) h.0 in (h', h'))
      | inr refused ↦ rw (refused, finish_with) h
    ];
  }

  save_generated-Keeps :
      (run_id : ℕ) (st : RunStats) (o : Option BriefingOutput)
      → Keeps P (save_generated env crew run_id st o)
  unfolding save_generated
  save_generated-Keeps run_id st none =
      Keeps-bind P _ _
        (finish_with-Keeps run_id (fail_step AgentName.briefing st) (some "briefing agent failed"))
        (λ r. Keeps-throw P Error.orchestration_error)
  save_generated-Keeps run_id st (some english) =
      Keeps-bind P _ _
        (persist_briefing-Keeps env (some run_id) P closed (crew run_id).render_arabic
          (keep run_id).render_arabic english)
        (λ b.
          Keeps-bind P _ _ (finish_with-Keeps run_id (record st { briefings = 1 }) none)
            (λ r. Keeps-pure P b))

  generate_new-Keeps : (user : User) → Keeps P (generate_new env crew user)
  unfolding generate_new
  generate_new-Keeps user =
      Keeps-bind P _ _ (triggers PipelineTrigger.manual (some user.id) none) (λ run.
        Keeps-bind P _ _ (Keeps-commit P) (λ u.
          Keeps-bind P _ _ (keep run.id).brief
            (λ result. save_generated-Keeps run.id (spent_on result) (ok_output result))))

  target_day-Keeps : (for_date : Option ℕ) → Keeps P (target_day env crew for_date)
  unfolding target_day
  target_day-Keeps none = Keeps-bind P _ _ (Keeps-draw P env.now) (λ now. Keeps-pure P (day_of now))
  target_day-Keeps (some day) = Keeps-pure P day

  reuse_or_generate-Keeps :
      (user : User) (o : Option Briefing) → Keeps P (reuse_or_generate env crew user o)
  unfolding reuse_or_generate
  reuse_or_generate-Keeps user none = generate_new-Keeps user
  reuse_or_generate-Keeps user (some b) = Keeps-pure P b

  generate_briefing_only-Keeps :
      (user : User) (for_date : Option ℕ) (force : Bool)
      → Keeps P (generate_briefing_only env crew user for_date force)
  unfolding generate_briefing_only
  generate_briefing_only-Keeps user for_date force =
      Keeps-bind P _ _ (target_day-Keeps for_date)
        (λ day. Keeps-bind P _ _ (Keeps-query P _) (reuse_or_generate-Keeps user))

  pub generate_briefing-Keeps :
      AuditWrites P
      → (user : User) (for_date : Option ℕ) (force : Bool) (ip : Option String)
      → Keeps P (generate_briefing env crew user for_date force ip)
  unfolding generate_briefing assert_role briefing_detail
  generate_briefing-Keeps audit user for_date force ip =
      Keeps-bind P _ _
        (Keeps-if P (has_role user executive_and_above) _ _ (Keeps-pure P tt)
          (Keeps-throw P Error.permission_denied))
        (λ u. Keeps-bind P _ _ (generate_briefing_only-Keeps user for_date force) (λ b.
          Keeps-bind P _ _
            (record_audit-Keeps env P audit "briefing.generate" ActorType.user (some user.id)
              (some "briefing") (some b.id) ip
              (("date", Scalar.number b.date) ∷ ("force", Scalar.flag force) ∷ []))
            (λ e. record { at = λ s h. h })))
