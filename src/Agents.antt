-- ===== src/Agents.antt =====
-- The typed outputs of the agents (app/services/agents/schemas.py), and what one step returns
-- (AgentOutput of app/services/agents/base.py). Scores are in thousandths.
pub mod Tools
pub mod Base
pub mod Team
use danah_v.Prelude.{ℕ, String, Bool, true, false, ◌&&◌, not, Option, List, is_none}
use danah_v.Enums.{AgentName, StepStatus}
use danah_v.Models.{Briefing, Insight, RunStats, Text}
use danah_v.Session.{Action}

pub data CitationKind : Type 0 where
  item chunk : CitationKind

pub record InsightCitation : Type 0 where
  pub kind : CitationKind
  pub id : ℕ

-- `item_id` is nothing where the string is no UUID.
pub record ItemTriage : Type 0 where
  pub item_id : Option ℕ
  pub relevance : ℕ

pub record DraftInsight : Type 0 where
  pub title : String
  pub body : String
  pub severity : ℕ
  pub confidence : ℕ
  pub citations : List InsightCitation

pub record BriefingSectionDraft : Type 0 where
  pub key : String
  pub heading : String
  pub body : String

pub record BriefingOutput : Type 0 where
  pub title : String
  pub sections : List BriefingSectionDraft
  pub confidence : ℕ
  pub citations : List InsightCitation

pub record MemoryDraft : Type 0 where
  pub title : Text
  pub content : Text

pub record AgentOutput (A : Type 0) : Type 0 where
  pub output : Option A
  pub status : StepStatus
  pub tokens_in : ℕ
  pub tokens_out : ℕ
  pub cost_usd : ℕ

abbrev pub is_completed : StepStatus → Bool
is_completed StepStatus.completed = true
is_completed _ = false

abbrev pub is_ok : {A : Type 0} → AgentOutput A → Bool
is_ok o = is_completed o.status && not (is_none o.output)

-- The output of a step that is ok.
abbrev pub ok_output : {A : Type 0} → AgentOutput A → Option A
ok_output o = elim (is_completed o.status) [ true ↦ o.output | false ↦ Option.none ]

-- What the orchestrator asks of the agents: a step of each, as an action on the session that the
-- agent is given. `analyse` is the step of the Risk, Opportunity or Policy agent, and
-- `render_arabic` the second pass of the Briefing agent: the Arabic headings and bodies by key.
pub record Agents : Type 0 where
  pub signal : List ℕ → Action (AgentOutput (List ItemTriage))
  pub analyse : AgentName → Action (AgentOutput (List DraftInsight))
  pub brief : Action (AgentOutput BriefingOutput)
  pub render_arabic : BriefingOutput → Action (Option (List BriefingSectionDraft))
  pub remember : List Insight → Option Briefing → RunStats → Action (AgentOutput (List MemoryDraft))
