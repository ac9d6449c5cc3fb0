-- ===== src/Tests.antt =====
-- Concrete data for the witnesses, which stand in the modules below.
pub mod AuditTests
pub mod GateTests
pub mod RunTests
pub mod AgentTests
pub mod TaskTests
pub mod PipelineTests
pub mod CorpusTests
pub mod AuthTests
pub mod LimitTests
pub mod LlmTests
pub mod ChunkTests
use danah_v.Prelude.{
  ℕ, zero, suc, ◌+◌, ◌≡◌, refl, String, Bool, true, false, Option, none, some, List, [], ◌∷◌,
  length,
}
use danah_v.Enums.{
  Classification, InsightKind, Role, PublicationStatus, AgentName, ItemStatus, StepStatus,
  PipelineTrigger, RunStatus,
}
use danah_v.Exceptions.{ok}
use danah_v.Models.{Db, IngestedItem, Insight, PipelineRun, Text, User}
use danah_v.Session.{Env, Session, pure}
use danah_v.Agents.{
  Agents, AgentOutput, BriefingOutput, CitationKind, DraftInsight, InsightCitation, ItemTriage,
  MemoryDraft, BriefingSectionDraft,
}
use danah_v.Orchestrator.Run.{Config}
use danah_v.Llm.{LlmSettings, TokenUsage}
use danah_v.Agents.Tools.{Arguments, RawTags, ToolCall}
use danah_v.Agents.Base.{Gateway, Message, Reply}
use danah_v.Agents.Team.{Desk}

abbrev zeros : ℕ → Text
zeros zero = []
zeros (suc n) = 48 ∷ zeros n

abbrev pub sample_env : Env
sample_env = record {
  uuid4 = λ n. 100 + n;
  now = λ n. 1000 + n;
  sha256 = λ t. length t ∷ zeros 63;
  dumps = λ p. p.ts ∷ [];
  smtp_configured = false;
  smtp_accepts = λ n address. false;
  is_header = λ subject. true;
  accepts = λ n. true;
}

pub sample_digest : (t : Text) → length (sample_env.sha256 t) ≡ 64
sample_digest t = refl

abbrev pub executive : User
executive = record {
  id = 7;
  email = "head@example.org";
  password_hash = 1 ∷ [];
  role = Role.executive;
  is_active = true;
  last_login_at = none;
}

abbrev pub item : IngestedItem
item = record {
  id = 1;
  source_id = 2;
  title = 70 ∷ 108 ∷ [];
  classification = Classification.internal;
  status = ItemStatus.new;
  relevance = none;
  published_at = some 900;
  created_at = 950;
  dedup_hash = 1 ∷ [];
}

abbrev pub insight : Insight
insight = record {
  id = 5;
  kind = InsightKind.risk;
  title = "Rivers rise";
  body = "The gauges are up.";
  severity = 3;
  confidence = 700;
  cited_items = 1 ∷ [];
  cited_chunks = [];
  classification = Classification.internal;
  status = PublicationStatus.draft;
  run_id = none;
  created_by_agent = AgentName.risk;
}

abbrev pub run : PipelineRun
run = record {
  id = 9;
  trigger = PipelineTrigger.manual;
  status = RunStatus.running;
  started_at = 1000;
  finished_at = none;
  initiated_by = some 7;
  max_items = none;
  stats = none;
  stopped_early = none;
  crashed = false;
}

abbrev pub first_db : Db
first_db = record {
  users = executive ∷ [];
  refresh_tokens = [];
  insights = insight ∷ [];
  briefings = [];
  approvals = [];
  notifications = [];
  audit_log = [];
  items = item ∷ [];
  runs = run ∷ [];
  steps = [];
  memories = [];
  tasks = [];
  sources = [];
  documents = [];
  chunks = [];
}

abbrev pub first_session : Session
first_session = record { current = first_db; committed = first_db; draws = 0 }

abbrev pub config : Config
config = record {
  signal_relevance_threshold = 300;
  pipeline_token_budget = 10_000;
  pipeline_max_items_per_run = 5;
}

abbrev answer : {A : Type 0} → A → AgentOutput A
answer a = record {
  output = some a;
  status = StepStatus.completed;
  tokens_in = 40;
  tokens_out = 10;
  cost_usd = 2;
}

abbrev pub sample_triage : List ItemTriage
sample_triage = (record { item_id = some 1; relevance = 800 }) ∷ []

abbrev pub sample_drafts : List DraftInsight
sample_drafts =
    (record {
      title = "Prepare";
      body = "Close the gates.";
      severity = 4;
      confidence = 600;
      citations = (record { kind = CitationKind.item; id = 1 }) ∷ [];
    })
    ∷ []

abbrev pub sample_briefing : BriefingOutput
sample_briefing = record { title = "Today"; sections = []; confidence = 500; citations = [] }

abbrev pub sample_agents : Agents
sample_agents = record {
  signal = λ ids. pure (answer sample_triage);
  analyse = λ name. pure (answer sample_drafts);
  brief = pure (answer sample_briefing);
  render_arabic = λ english. pure none;
  remember = λ insights briefing st.
      pure (answer ((record { title = 76 ∷ []; content = 87 ∷ 33 ∷ [] }) ∷ []));
}

abbrev pub sample_settings : LlmSettings
sample_settings = record {
  llm_max_retries = 3;
  anthropic_first = true;
  llm_model_primary = "large";
  llm_model_fast = "small";
  openai_model_primary = "other-large";
  openai_model_fast = "other-small";
  price_for = λ model. (3_000_000, 15_000_000);
}

abbrev usage : TokenUsage
usage = record { input_tokens = 30; output_tokens = 20 }

abbrev no_arguments : Arguments
no_arguments = record {
  query = [];
  title = [];
  content = [];
  tags = RawTags.no_tags;
  source_run = none;
}

abbrev pub save_call : ToolCall
save_call = record {
  name = "save_memory";
  arguments = record no_arguments { title = 76 ∷ []; content = 87 ∷ 33 ∷ [] };
}

-- The first reply calls a tool, the second none.
abbrev pub sample_reply : List Message → Reply
sample_reply (m ∷ []) = record { text = ""; usage = usage; tool_calls = save_call ∷ [] }
sample_reply _ = record { text = "Enough."; usage = usage; tool_calls = [] }

abbrev pub sample_gateway : {A : Type 0} → A → Gateway A
sample_gateway a = record {
  complete = λ n prompt messages tools model. ok (sample_reply messages);
  complete_structured = λ n prompt messages model. ok (a, usage);
}

abbrev pub sample_desk : Desk
sample_desk = record {
  triage_gateway = sample_gateway sample_triage;
  insight_gateway = sample_gateway sample_drafts;
  briefing_gateway = sample_gateway sample_briefing;
  arabic_gateway = sample_gateway (record { title_ar = 1575 ∷ []; sections_ar = [] });
  memory_gateway = sample_gateway [];
  prompts = λ name. ok "Answer in JSON.";
  arabic_prompt = ok "Render.";
  signal_message = λ ids. "Triage.";
  analysis_message = λ name. "Analyse.";
  briefing_message = "Brief.";
  arabic_message = λ english. "Render.";
  memory_message = λ insights briefing st. "Remember.";
  settings = sample_settings;
  agent_max_tool_iterations = 4;
  lookup = λ tool args clearance db. none;
}
