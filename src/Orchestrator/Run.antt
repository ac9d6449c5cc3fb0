-- ===== src/Orchestrator/Run.antt =====
-- app/services/orchestrator.py: the steps of a run, and execute_run.
pub mod Fanout
pub mod Keeps
pub mod Execute
use danah_v.Prelude.{
  ℕ, ◌+◌, Bool, true, false, not, ◌&&◌, Option, none, some, List, [], ◌∷◌, ◌++◌, ltb, ◌==◌,
  if◌then◌else◌, is_none, find_first, filterb, sort_by, leb,
}
use danah_v.Enums.{AgentName, same_agent, Classification, ItemStatus}
use danah_v.Exceptions.{Error, Result, ok, raise}
use danah_v.Models.{Briefing, Db, Insight, RunStats}
use danah_v.Session.{Env, Action, query, commit, write}
use danah_v.Agents.{Agents, AgentOutput, ItemTriage, BriefingOutput, ok_output, MemoryDraft}
use danah_v.Orchestrator.{recent_items, has_item_id, triage_item, persist_briefing, create_memory}
use danah_v.Orchestrator.Task.{Task, lift, pure, tell, stats, ◌>>=◌, ◌>>◌}

-- The settings that a run reads. Relevance is in thousandths.
pub record Config : Type 0 where
  pub signal_relevance_threshold : ℕ
  pub pipeline_token_budget : ℕ
  pub pipeline_max_items_per_run : ℕ

abbrev pub spend : ℕ → ℕ → ℕ → RunStats → RunStats
spend tokens_in tokens_out cost st = record st {
  tokens = st.tokens + (tokens_in + tokens_out);
  cost_usd = st.cost_usd + cost;
}

abbrev pub fail_step : AgentName → RunStats → RunStats
fail_step agent st = record st { failed_steps = st.failed_steps ++ agent ∷ [] }

-- The body of the loop over the triage: an id that is no UUID or names no item is skipped.
unfoldable pub triage_found : ℕ → ℕ → ℕ → List ℕ → Task (List ℕ)
triage_found threshold id relevance triaged =
    if ltb relevance threshold
    then (do
      lift (write (triage_item id ItemStatus.archived relevance))
      tell (λ st. record st { items_archived = st.items_archived + 1 })
      pure triaged)
    else (do
      lift (write (triage_item id ItemStatus.triaged relevance))
      tell (λ st. record st { items_triaged = st.items_triaged + 1 })
      pure (triaged ++ id ∷ []))

unfoldable pub triage_id : ℕ → ℕ → ℕ → List ℕ → Task (List ℕ)
unfolding triage_found
triage_id threshold id relevance triaged = do
  found ← lift (query (λ db. find_first (has_item_id id) db.items))
  elim found [ none ↦ pure triaged | some _ ↦ triage_found threshold id relevance triaged ]

unfoldable pub triage_one : ℕ → ItemTriage → List ℕ → Task (List ℕ)
unfolding triage_id
triage_one threshold t triaged = elim t.item_id [
  | none ↦ pure triaged
  | some id ↦ triage_id threshold id t.relevance triaged
]

unfoldable pub triage_all : ℕ → List ItemTriage → List ℕ → Task (List ℕ)
triage_all threshold [] triaged = pure triaged
triage_all threshold (t ∷ ts) triaged = do
  triaged' ← triage_one threshold t triaged
  triage_all threshold ts triaged'

abbrev pub is_of_run : ℕ → Option ℕ → Bool
is_of_run run_id none = false
is_of_run run_id (some id) = id == run_id

-- _drafted_insights
unfoldable pub drafted_insights : ℕ → Db → List Insight
drafted_insights run_id db =
    sort_by (λ i j. leb j.severity i.severity)
      (filterb (λ i. is_of_run run_id i.run_id) db.insights)

-- _drafted_briefing
unfoldable pub drafted_briefing : ℕ → Db → Option Briefing
drafted_briefing run_id db = find_first (λ b. is_of_run run_id b.run_id) db.briefings

module _ (env : Env) (cfg : Config) (agents : Agents) (run_id : ℕ) where
  unfoldable pub save_triage : Option (List ItemTriage) → Task (List ℕ)
  save_triage none = do tell (fail_step AgentName.signal); pure []
  save_triage (some triage) = do
    triaged ← triage_all cfg.signal_relevance_threshold triage []
    lift commit
    pure triaged

  unfoldable pub signal_output : AgentOutput (List ItemTriage) → Task (List ℕ)
  signal_output result = do
    tell (spend result.tokens_in result.tokens_out result.cost_usd)
    save_triage (ok_output result)

  unfoldable pub triage_items : List ℕ → Task (List ℕ)
  triage_items [] = pure []
  triage_items (i ∷ rest) = do result ← lift (agents.signal (i ∷ rest)); signal_output result

  -- _run_signal
  unfoldable pub run_signal : ℕ → Task (List ℕ)
  run_signal limit = do
    items ← lift (query (recent_items Classification.official_sensitive limit))
    triage_items items

  unfoldable pub save_briefing : Option BriefingOutput → Task Unit
  save_briefing none = tell (fail_step AgentName.briefing)
  save_briefing (some english) = do
    lift (persist_briefing env (some run_id) agents.render_arabic english)
    tell (λ st. record st { briefings = st.briefings + 1 })

  -- _run_briefing with _persist_briefing.
  unfoldable pub run_briefing : Task Unit
  run_briefing = do
    result ← lift agents.brief
    tell (spend result.tokens_in result.tokens_out result.cost_usd)
    save_briefing (ok_output result)

  unfoldable pub remember_all : List MemoryDraft → Task Unit
  remember_all [] = pure tt
  remember_all (d ∷ drafts) = do
    lift (create_memory env (some run_id) d)
    tell (λ st. record st { memories = st.memories + 1 })
    remember_all drafts

  unfoldable pub save_memories : Option (List MemoryDraft) → Task Unit
  save_memories none = tell (fail_step AgentName.memory)
  save_memories (some drafts) = do remember_all drafts; lift commit

  unfoldable pub memory_output : AgentOutput (List MemoryDraft) → Task Unit
  memory_output result = do
    tell (spend result.tokens_in result.tokens_out result.cost_usd)
    save_memories (ok_output result)

  -- _run_memory
  unfoldable pub run_memory : Task Unit
  run_memory st =
      let db = st.session.current in
      (lift (agents.remember (drafted_insights run_id db) (drafted_briefing run_id db) st.stats)
          >>= memory_output)
        st
