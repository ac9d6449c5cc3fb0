-- ===== src/Orchestrator/Drafts.antt =====
-- What the pipeline persists: drafts, which go to the queue. An invariant that is closed under the
-- single writes is kept by the loops; the publication gate is one.
use danah_v.Prelude.{
  ℕ, ◌+◌, ◌==◌, ◌≡◌, modify_first, Option, List, [], ◌∷◌, All-append, inl, inr, Bool-cases,
}
use danah_v.Enums.{AgentName, ApprovalSubject, InsightKind, Role}
use danah_v.Models.{Db, IngestedItem, MemoryEntry, PipelineStep, PipelineRun}
use danah_v.Exceptions.{Error}
use danah_v.Session.{Env, Action}
use danah_v.Session.Keeps.{
  Keeps-gate, Keeps, Keeps-pure, Keeps-throw, Keeps-draw, Keeps-write, Keeps-commit, Keeps-bind,
}
use danah_v.Approvals.{submit_for_approval}
use danah_v.Gate.{Gated}
use danah_v.Gate.Keeps.{submit_for_approval-Gated}
use danah_v.Agents.{DraftInsight, BriefingSectionDraft, BriefingOutput, MemoryDraft}
use danah_v.Orchestrator.{
  is_cited, insight_row, persist_insight, persist_drafts, persist_insights, briefing_row,
  persist_briefing, create_memory, day_of, add_insight, add_briefing, add_memory, memory_row,
}

draft_insight-Gated :
    (db : Db) (id : ℕ) (kind : InsightKind) (d : DraftInsight) (run_id : Option ℕ)
    (agent : AgentName)
    → Gated db
    → Gated (add_insight (insight_row id kind d run_id agent) db)
draft_insight-Gated db id kind d run_id agent g = record {
  insights_approved =
      All-append _ db.insights (insight_row id kind d run_id agent ∷ []) g.insights_approved
        ((λ e. cc), tt);
  briefings_approved = g.briefings_approved;
}

draft_briefing-Gated :
    (db : Db) (id today : ℕ) (english : BriefingOutput)
    (arabic : Option (List BriefingSectionDraft)) (run_id : Option ℕ)
    → Gated db
    → Gated (add_briefing (briefing_row id today english arabic run_id) db)
draft_briefing-Gated db id today english arabic run_id g = record {
  insights_approved = g.insights_approved;
  briefings_approved =
      All-append _ db.briefings (briefing_row id today english arabic run_id ∷ [])
        g.briefings_approved ((λ e. cc), tt);
}

-- An invariant that each write of the pipeline keeps.
pub record Writes (env : Env) (P : Db → Type 0) : Type 0 where
  pub submit :
      (t : ApprovalSubject) (id : ℕ) (agent : AgentName) (role : Role)
      → Keeps P (submit_for_approval env t id agent role)
  pub insight :
      (db : Db) (id : ℕ) (kind : InsightKind) (d : DraftInsight) (run_id : Option ℕ)
      (agent : AgentName)
      → P db
      → P (add_insight (insight_row id kind d run_id agent) db)
  pub briefing :
      (db : Db) (id today : ℕ) (english : BriefingOutput)
      (arabic : Option (List BriefingSectionDraft)) (run_id : Option ℕ)
      → P db
      → P (add_briefing (briefing_row id today english arabic run_id) db)
  pub memory : (db : Db) (row : MemoryEntry) → P db → P (add_memory row db)
  pub items : (db : Db) (rows : List IngestedItem) → P db → P (record db { items = rows })
  pub steps : (db : Db) (rows : List PipelineStep) → P db → P (record db { steps = rows })
  pub runs :
      (db : Db) (id : ℕ) (f : PipelineRun → PipelineRun)
      → ((r : PipelineRun) → (f r).id ≡ r.id)
      → P db
      → P (record db { runs = modify_first (λ r. r.id == id) f db.runs })

pub Writes-Gated : (env : Env) → Writes env Gated
Writes-Gated env = record {
  submit = submit_for_approval-Gated env;
  insight = draft_insight-Gated;
  briefing = draft_briefing-Gated;
  memory = λ db row g. g;
  items = λ db rows g. g;
  steps = λ db rows g. g;
  runs = λ db id f same g. g;
}

module _ (env : Env) (run_id : Option ℕ) (P : Db → Type 0) (closed : Writes env P) where
  open closed use {submit, insight, briefing, memory}

  persist_insight-Keeps :
      (kind : InsightKind) (agent : AgentName) (d : DraftInsight)
      → Keeps P (persist_insight env kind run_id agent d)
  unfolding persist_insight
  persist_insight-Keeps kind agent d = Keeps-bind P _ _ (Keeps-draw P env.uuid4) (λ id.
      Keeps-bind P _ _
        (Keeps-write P (add_insight (insight_row id kind d run_id agent))
          (λ db. insight db id kind d run_id agent))
        (λ _. Keeps-bind P _ _ (Keeps-gate P env.accepts Error.database_error) (λ _.
          Keeps-bind P _ _ (submit ApprovalSubject.insight id agent Role.executive)
            (λ _. Keeps-pure P tt))))

  persist_drafts-Keeps :
      (kind : InsightKind) (agent : AgentName) (drafts : List DraftInsight) (created : ℕ)
      → Keeps P (persist_drafts env kind run_id agent drafts created)
  unfolding persist_drafts
  persist_drafts-Keeps kind agent [] created = Keeps-pure P created
  persist_drafts-Keeps kind agent (d ∷ drafts) created = elim (Bool-cases (is_cited d)) [
    | inl h ↦ rw h (
        Keeps-bind P _ _ (persist_insight-Keeps kind agent d)
          (λ _. persist_drafts-Keeps kind agent drafts (created + 1)))
    | inr h ↦ rw h (persist_drafts-Keeps kind agent drafts created)
  ]

  pub persist_insights-Keeps :
      (agent : AgentName) (drafts : List DraftInsight)
      → Keeps P (persist_insights env run_id agent drafts)
  unfolding persist_insights
  persist_insights-Keeps AgentName.risk drafts =
      persist_drafts-Keeps InsightKind.risk AgentName.risk drafts 0
  persist_insights-Keeps AgentName.opportunity drafts =
      persist_drafts-Keeps InsightKind.opportunity AgentName.opportunity drafts 0
  persist_insights-Keeps AgentName.policy drafts =
      persist_drafts-Keeps InsightKind.policy AgentName.policy drafts 0
  persist_insights-Keeps _ drafts = Keeps-throw P _

  pub persist_briefing-Keeps :
      (render_arabic : BriefingOutput → Action (Option (List BriefingSectionDraft)))
      → ((english : BriefingOutput) → Keeps P (render_arabic english))
      → (english : BriefingOutput) → Keeps P (persist_briefing env run_id render_arabic english)
  unfolding persist_briefing
  persist_briefing-Keeps render_arabic rendered english =
      Keeps-bind P _ _ (Keeps-draw P env.now) (λ now. Keeps-bind P _ _ (rendered english) (λ arabic.
        Keeps-bind P _ _ (Keeps-draw P env.uuid4) (λ id.
          Keeps-bind P _ _
            (Keeps-write P (add_briefing (briefing_row id (day_of now) english arabic run_id))
              (λ db. briefing db id (day_of now) english arabic run_id))
            (λ _. Keeps-bind P _ _ (Keeps-gate P env.accepts Error.database_error) (λ _.
              Keeps-bind P _ _
                (submit ApprovalSubject.briefing id AgentName.briefing Role.executive)
                (λ _.
                  Keeps-bind P _ _ (Keeps-commit P)
                    (λ _. Keeps-pure P (briefing_row id (day_of now) english arabic run_id))))))))

  pub create_memory-Keeps : (d : MemoryDraft) → Keeps P (create_memory env run_id d)
  unfolding create_memory
  create_memory-Keeps d = Keeps-bind P _ _ (Keeps-draw P env.uuid4) (λ id.
      Keeps-bind P _ _
        (Keeps-write P (add_memory (memory_row id run_id d))
          (λ db. memory db (memory_row id run_id d)))
        (λ _. Keeps-gate P env.accepts Error.database_error))
