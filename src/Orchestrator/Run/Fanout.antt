-- ===== src/Orchestrator/Run/Fanout.antt =====
-- app/services/orchestrator.py: _run_analysis_fanout. Each agent works on a session of its own, and
-- what the agents commit is taken in the order of the list of agents.
pub mod Tally
use danah_v.Prelude.{
  ℕ, ◌+◌, Bool, true, false, Option, none, some, List, [], ◌∷◌, ◌++◌, if◌then◌else◌,
}
use danah_v.Enums.{AgentName, StepStatus}
use danah_v.Exceptions.{Error, Result, ok, raise}
use danah_v.Models.{RunStats}
use danah_v.Session.{Env, Session, Action, pure, commit, ◌>>=◌, ◌>>◌}
use danah_v.Agents.{Agents, AgentOutput, DraftInsight, is_completed, ok_output}
use danah_v.Orchestrator.{persist_insights}
use danah_v.Orchestrator.Task.{Task}
use danah_v.Orchestrator.Run.{spend, fail_step}

pub record AnalysisOutcome : Type 0 where
  pub agent : AgentName
  pub status : StepStatus
  pub tokens_in : ℕ
  pub tokens_out : ℕ
  pub cost_usd : ℕ
  pub created : ℕ

-- `async with factory() as own_session`: it begins from what is committed, and what it leaves
-- uncommitted is lost. The session of the run, which has no open work here, sees the commits.
abbrev pub on_own_session : {A : Type 0} → Action A → Action A
on_own_session m s =
    let (r, s') = m (record s { current = s.committed }) in
    (r, record s' { current = s'.committed })

-- The statistics after one outcome: a crashed agent, or one whose step is not completed, is a
-- failed step, and goes on to the next.
unfoldable pub tally : AgentName → Result AnalysisOutcome → RunStats → RunStats
tally name (raise e) st = fail_step name st
tally name (ok o) st =
    let spent = spend o.tokens_in o.tokens_out o.cost_usd st in
    if is_completed o.status
    then elim o.agent [
      | AgentName.risk ↦ record spent { risks = spent.risks + o.created }
      | AgentName.opportunity ↦ record spent { opportunities = spent.opportunities + o.created }
      | _ ↦ record spent { policies = spent.policies + o.created }
    ]
    else fail_step o.agent spent

unfoldable pub tally_all : List (AgentName × Result AnalysisOutcome) → RunStats → RunStats
unfolding tally
tally_all [] st = st
tally_all ((name, r) ∷ outcomes) st = tally_all outcomes (tally name r st)

module _ (env : Env) (agents : Agents) (run_id : ℕ) where
  unfoldable pub persist_and_commit : AgentName → Option (List DraftInsight) → Action ℕ
  persist_and_commit name none = pure 0
  persist_and_commit name (some drafts) = do
    created ← persist_insights env (some run_id) name drafts
    commit
    pure created

  -- _isolated
  unfoldable pub isolated : AgentName → Action AnalysisOutcome
  isolated name = do
    result ← agents.analyse name
    created ← persist_and_commit name (ok_output result)
    pure (record {
      agent = name;
      status = result.status;
      tokens_in = result.tokens_in;
      tokens_out = result.tokens_out;
      cost_usd = result.cost_usd;
      created = created;
    })

  -- asyncio.gather with return_exceptions: an exception is an outcome.
  unfoldable pub gather :
      List AgentName → Session → List (AgentName × Result AnalysisOutcome) × Session
  gather [] s = ([], s)
  gather (name ∷ names) s =
      let (r, s') = on_own_session (isolated name) s in
      let (rest, s'') = gather names s' in ((name, r) ∷ rest, s'')

  unfoldable pub run_analysis_fanout : List AgentName → Task Unit
  unfolding tally_all
  run_analysis_fanout names st =
      let (outcomes, s) = gather names st.session in
      (ok tt, record { session = s; stats = tally_all outcomes st.stats })
