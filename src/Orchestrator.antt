-- ===== src/Orchestrator.antt =====
-- app/services/orchestrator.py: what the pipeline writes for each agent, on one session.
pub mod Task
pub mod Run
pub mod Drafts
pub mod Generate
use danah_v.Prelude.{
  ℕ, suc, ◌+◌, String, str_eq, Bool, true, false, not, ◌&&◌, ◌||◌, Option, none, some, List, [],
  ◌∷◌, ◌++◌, map, ltb, leb, ◌/◌, ◌==◌, if◌then◌else◌, is_none, find_first, modify_first,
  modify_where, filterb, sort_by, take, length,
}
use danah_v.Enums.{
  AgentName, ApprovalSubject, Classification, classification_rank, InsightKind, ItemStatus,
  PipelineTrigger, PublicationStatus, Role, RunStatus,
}
use danah_v.Exceptions.{Error}
use danah_v.Models.{
  Briefing, Db, IngestedItem, Insight, MemoryEntry, PipelineRun, RunStats, Section,
}
use danah_v.Session.{
  Env, Session, Action, pure, throw, query, write, draw, commit, flush, one_or, ◌>>=◌, ◌>>◌,
}
use danah_v.Approvals.{submit_for_approval}
use danah_v.Agents.{
  CitationKind, InsightCitation, ItemTriage, DraftInsight, BriefingSectionDraft, BriefingOutput,
  MemoryDraft,
}

abbrev pub no_stats : RunStats
no_stats = record {
  items_triaged = 0;
  items_archived = 0;
  risks = 0;
  opportunities = 0;
  policies = 0;
  briefings = 0;
  memories = 0;
  tokens = 0;
  cost_usd = 0;
  failed_steps = [];
}

-- session.add, with the flush that follows it.
abbrev pub add_insight : Insight → Db → Db
add_insight row db = record db { insights = db.insights ++ row ∷ [] }

abbrev pub add_briefing : Briefing → Db → Db
add_briefing row db = record db { briefings = db.briefings ++ row ∷ [] }

abbrev pub add_memory : MemoryEntry → Db → Db
add_memory row db = record db { memories = db.memories ++ row ∷ [] }

-- `if max_items`: none and zero are left out.
abbrev pub truthy : Option ℕ → Option ℕ
truthy none = none
truthy (some n) = if n == 0 then none else some n

unfoldable pub start_run : Env → PipelineTrigger → Option ℕ → Option ℕ → Action PipelineRun
start_run env trigger initiated_by max_items = do
  id ← draw env.uuid4
  now ← draw env.now
  let run : PipelineRun = record {
    id = id;
    trigger = trigger;
    status = RunStatus.running;
    started_at = now;
    finished_at = none;
    initiated_by = initiated_by;
    max_items = truthy max_items;
    stats = none;
    stopped_early = none;
    crashed = false;
  }
  write (λ db. record db { runs = db.runs ++ run ∷ [] })
  pure run

-- kind == "item" and kind == "chunk"
unfoldable pub cited : CitationKind → List InsightCitation → List ℕ
cited kind [] = []
cited CitationKind.item (c ∷ cs) =
    let rest = cited CitationKind.item cs in
    elim c.kind [ CitationKind.item ↦ c.id ∷ rest | CitationKind.chunk ↦ rest ]
cited CitationKind.chunk (c ∷ cs) =
    let rest = cited CitationKind.chunk cs in
    elim c.kind [ CitationKind.item ↦ rest | CitationKind.chunk ↦ c.id ∷ rest ]

abbrev pub kind_of : AgentName → Option InsightKind
kind_of AgentName.risk = some InsightKind.risk
kind_of AgentName.opportunity = some InsightKind.opportunity
kind_of AgentName.policy = some InsightKind.policy
kind_of _ = none

abbrev pub is_cited : DraftInsight → Bool
is_cited d = elim d.citations [ [] ↦ false | c ∷ cs ↦ true ]

abbrev pub insight_row : ℕ → InsightKind → DraftInsight → Option ℕ → AgentName → Insight
insight_row id kind d run_id agent = record {
  id = id;
  kind = kind;
  title = d.title;
  body = d.body;
  severity = d.severity;
  confidence = d.confidence;
  cited_items = cited CitationKind.item d.citations;
  cited_chunks = cited CitationKind.chunk d.citations;
  classification = Classification.official;
  status = PublicationStatus.draft;
  run_id = run_id;
  created_by_agent = agent;
}

-- The body of the loop for a draft that cites something.
unfoldable pub persist_insight :
    Env → InsightKind → Option ℕ → AgentName → DraftInsight → Action Unit
persist_insight env kind run_id agent d = do
  id ← draw env.uuid4
  write (add_insight (insight_row id kind d run_id agent))
  flush env
  submit_for_approval env ApprovalSubject.insight id agent Role.executive
  pure tt

unfoldable pub persist_drafts :
    Env → InsightKind → Option ℕ → AgentName → List DraftInsight → ℕ → Action ℕ
persist_drafts env kind run_id agent [] created = pure created
persist_drafts env kind run_id agent (d ∷ drafts) created =
    let rest = λ (n : ℕ). persist_drafts env kind run_id agent drafts n in
    if is_cited d
    then (do persist_insight env kind run_id agent d; rest (created + 1))
    else rest created

-- _persist_insights: a name without a kind is a KeyError, which the dictionary raises.
unfoldable pub persist_insights : Env → Option ℕ → AgentName → List DraftInsight → Action ℕ
unfolding persist_drafts
persist_insights env run_id agent drafts = elim (kind_of agent) [
  | none ↦ throw Error.danah_error
  | some kind ↦ persist_drafts env kind run_id agent drafts 0
]

-- ar_by_key.get(key): of two sections with one key the later stands in the dictionary.
unfoldable pub arabic_for : String → List BriefingSectionDraft → Option BriefingSectionDraft
arabic_for key [] = none
arabic_for key (x ∷ xs) =
    let rest = arabic_for key xs in
    elim rest [ some y ↦ some y | none ↦ if str_eq x.key key then some x else none ]

abbrev pub merged : List BriefingSectionDraft → BriefingSectionDraft → Section
merged arabic s = record {
  key = s.key;
  heading_en = s.heading;
  heading_ar = elim (arabic_for s.key arabic) [ none ↦ "" | some a ↦ a.heading ];
  body_en = s.body;
  body_ar = elim (arabic_for s.key arabic) [ none ↦ "" | some a ↦ a.body ];
}

abbrev pub or_empty : Option (List BriefingSectionDraft) → List BriefingSectionDraft
or_empty none = []
or_empty (some xs) = xs

abbrev pub briefing_row :
    ℕ → ℕ → BriefingOutput → Option (List BriefingSectionDraft) → Option ℕ → Briefing
briefing_row id today english arabic run_id = record {
  id = id;
  date = today;
  title = english.title;
  sections = map (merged (or_empty arabic)) english.sections;
  has_arabic = not (is_none arabic);
  cited_items = cited CitationKind.item english.citations;
  cited_chunks = cited CitationKind.chunk english.citations;
  confidence = english.confidence;
  classification = Classification.official;
  status = PublicationStatus.draft;
  run_id = run_id;
}

-- The date of a time in seconds.
abbrev pub day_of : ℕ → ℕ
day_of now = now / 86_400

-- _persist_briefing: the day is read before the Arabic pass.
unfoldable pub persist_briefing :
    Env
    → Option ℕ
    → (BriefingOutput → Action (Option (List BriefingSectionDraft)))
    → BriefingOutput
    → Action Briefing
persist_briefing env run_id render_arabic english = do
  now ← draw env.now
  arabic ← render_arabic english
  id ← draw env.uuid4
  let row = briefing_row id (day_of now) english arabic run_id
  write (add_briefing row)
  flush env
  submit_for_approval env ApprovalSubject.briefing id AgentName.briefing Role.executive
  commit
  pure row

abbrev pub memory_row : ℕ → Option ℕ → MemoryDraft → MemoryEntry
memory_row id run_id d = record {
  id = id;
  title = d.title;
  content = d.content;
  classification = Classification.official;
  run_id = run_id;
  created_by = none;
}

-- create_memory of app/services/memory_service.py, without the embedding.
unfoldable pub create_memory : Env → Option ℕ → MemoryDraft → Action Unit
create_memory env run_id d = do
  id ← draw env.uuid4
  write (add_memory (memory_row id run_id d))
  flush env

abbrev is_new : ItemStatus → Bool
is_new ItemStatus.new = true
is_new _ = false

-- published_at DESC NULLS LAST, created_at DESC
newer : IngestedItem → IngestedItem → Bool
newer a b = by_date a.published_at b.published_at
  where
    by_date : Option ℕ → Option ℕ → Bool
    by_date none none = leb b.created_at a.created_at
    by_date none (some y) = false
    by_date (some x) none = true
    by_date (some x) (some y) = if x == y then leb b.created_at a.created_at else ltb y x

-- recent_items_for_analysis of app/services/agents/tools.py for new items: their ids.
unfoldable pub recent_items : Classification → ℕ → Db → List ℕ
unfolding newer
recent_items clearance limit db =
    map (λ i. i.id)
      (take limit (
        sort_by newer (
          filterb
            (λ i.
              is_new i.status
              && leb (classification_rank i.classification) (classification_rank clearance))
            db.items)))

abbrev pub has_item_id : ℕ → IngestedItem → Bool
has_item_id id i = i.id == id

abbrev pub triage_item : ℕ → ItemStatus → ℕ → Db → Db
triage_item id status relevance db = record db {
  items =
      modify_first (has_item_id id) (λ i. record i { status = status; relevance = some relevance })
        db.items;
}
