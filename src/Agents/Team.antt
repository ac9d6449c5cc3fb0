-- ===== src/Agents/Team.antt =====
-- The six agents (app/services/agents/*_agent.py) as the pipeline calls them, and the Arabic pass of
-- the Briefing agent.
pub mod Keeps
use danah_v.Prelude.{
  ℕ, ◌==◌, String, str_eq, Bool, true, false, not, ◌&&◌, ◌||◌, Option, none, some, List, [], ◌∷◌,
  ◌++◌, if◌then◌else◌, leb,
}
use danah_v.Enums.{AgentName, Classification}
use danah_v.Exceptions.{Error, Result, ok, raise}
use danah_v.Models.{Briefing, Insight, RunStats, Text}
use danah_v.Session.{ask, attempt, of_result, Env, Action, pure, throw, ◌>>=◌}
use danah_v.Llm.{LlmSettings, TokenUsage}
use danah_v.Agents.{
  Agents, AgentOutput, BriefingOutput, BriefingSectionDraft, DraftInsight, ItemTriage, MemoryDraft,
}
use danah_v.Agents.Tools.{Lookup}
use danah_v.Agents.Base.{
  AgentContext, BaseAgent, Gateway, Message, Reply, is_gateway_error, agent_model, run,
}

-- ArabicRendering: the title and the bodies are looked through for Arabic letters, so they are
-- given with their code points.
pub record ArabicRendering : Type 0 where
  pub title_ar : Text
  pub sections_ar : List (BriefingSectionDraft × Text)

-- What the agents take from outside: the gateway with each type of answer, the system prompts read
-- from their files, the messages rendered from their inputs, and what the tools find.
pub record Desk : Type 0 where
  pub triage_gateway : Gateway (List ItemTriage)
  pub insight_gateway : Gateway (List DraftInsight)
  pub briefing_gateway : Gateway BriefingOutput
  pub arabic_gateway : Gateway ArabicRendering
  pub memory_gateway : Gateway (List MemoryDraft)
  pub prompts : AgentName → Result String
  pub arabic_prompt : Result String
  pub signal_message : List ℕ → String
  pub analysis_message : AgentName → String
  pub briefing_message : String
  pub arabic_message : BriefingOutput → String
  pub memory_message : List Insight → Option Briefing → RunStats → String
  pub settings : LlmSettings
  pub agent_max_tool_iterations : ℕ
  pub lookup : Lookup

-- model_tier
unfoldable pub is_primary : AgentName → Bool
is_primary AgentName.signal = false
is_primary AgentName.memory = false
is_primary _ = true

unfoldable pub allowed_tools : AgentName → List String
allowed_tools AgentName.signal = []
allowed_tools AgentName.risk = "search_knowledge_base" ∷ "search_ingested_items" ∷ "get_memory" ∷ []
allowed_tools AgentName.opportunity =
    "search_knowledge_base" ∷ "search_ingested_items" ∷ "get_memory" ∷ []
allowed_tools AgentName.policy = "search_knowledge_base" ∷ "search_ingested_items" ∷ []
allowed_tools AgentName.briefing = "get_kpi_snapshot" ∷ "get_memory" ∷ []
allowed_tools AgentName.memory = "save_memory" ∷ "get_memory" ∷ []

-- A letter of the Arabic block, U+0600 to U+06FF.
abbrev pub is_arabic : ℕ → Bool
is_arabic c = leb 1536 c && leb c 1791

abbrev pub any_arabic : Text → Bool
any_arabic [] = false
any_arabic (c ∷ cs) = is_arabic c || any_arabic cs

abbrev pub sections_arabic : List (BriefingSectionDraft × Text) → Bool
sections_arabic [] = false
sections_arabic ((s, body) ∷ rest) = any_arabic body || sections_arabic rest

abbrev pub same_keys : List (BriefingSectionDraft × Text) → List BriefingSectionDraft → Bool
same_keys [] [] = true
same_keys ((a, body) ∷ arabic) (e ∷ english) = str_eq a.key e.key && same_keys arabic english
same_keys _ _ = false

-- _is_faithful
unfoldable pub is_faithful : BriefingOutput → ArabicRendering → Bool
is_faithful english arabic =
    if same_keys arabic.sections_ar english.sections
    then any_arabic arabic.title_ar || sections_arabic arabic.sections_ar
    else false

abbrev pub sections_of : List (BriefingSectionDraft × Text) → List BriefingSectionDraft
sections_of [] = []
sections_of ((s, body) ∷ rest) = s ∷ sections_of rest

unfoldable pub judge : BriefingOutput → ArabicRendering → Option (List BriefingSectionDraft)
unfolding is_faithful
judge english arabic =
    if is_faithful english arabic then some (sections_of arabic.sections_ar) else none

module _ (env : Env) (desk : Desk) (run_id : Option ℕ) where
  abbrev pub agent : {A : Type 0} → AgentName → String → BaseAgent A
  agent name message = record {
    name = name;
    is_primary = is_primary name;
    allowed_tools = allowed_tools name;
    system_prompt = desk.prompts name;
    user_message = message;
  }

  abbrev pub context : {A : Type 0} → Gateway A → AgentContext A
  context gateway = record {
    gateway = gateway;
    run_id = run_id;
    clearance = Classification.official_sensitive;
    settings = desk.settings;
    agent_max_tool_iterations = desk.agent_max_tool_iterations;
    lookup = desk.lookup;
  }

  -- The structured call of render_arabic.
  unfoldable pub request_arabic : BriefingOutput → Action (ArabicRendering × TokenUsage)
  request_arabic english = do
    prompt ← of_result desk.arabic_prompt
    ask (λ n.
        desk.arabic_gateway.complete_structured n prompt
          (Message.user (desk.arabic_message english) ∷ []) (agent_model desk.settings true))

  unfoldable pub settle_arabic :
      BriefingOutput
      → Result (ArabicRendering × TokenUsage)
      → Action (Option (List BriefingSectionDraft))
  unfolding judge
  settle_arabic english (raise e) = if is_gateway_error e then pure none else throw e
  settle_arabic english (ok (arabic, usage)) = pure (judge english arabic)

  unfoldable pub render_arabic : BriefingOutput → Action (Option (List BriefingSectionDraft))
  unfolding request_arabic settle_arabic
  render_arabic english = do answer ← attempt (request_arabic english); settle_arabic english answer

  -- The registry of agents, as the orchestrator runs them.
  abbrev pub team : Agents
  team = record {
    signal = λ ids.
        run env (context desk.triage_gateway) (agent AgentName.signal (desk.signal_message ids));
    analyse =
        λ name. run env (context desk.insight_gateway) (agent name (desk.analysis_message name));
    brief =
        run env (context desk.briefing_gateway) (agent AgentName.briefing desk.briefing_message);
    render_arabic = render_arabic;
    remember = λ insights briefing st.
        run env (context desk.memory_gateway)
          (agent AgentName.memory (desk.memory_message insights briefing st));
  }
