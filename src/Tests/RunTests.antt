-- ===== src/Tests/RunTests.antt =====
-- Witnesses on pipeline runs.
use danah_v.Prelude.{ℕ, ◌≡◌, refl, none, some, List, [], ◌∷◌, find_first}
use danah_v.Enums.{AgentName, RunStatus, StepStatus}
use danah_v.Exceptions.{Error, Result, ok, raise}
use danah_v.Models.{RunStats}
use danah_v.Session.{Session}
use danah_v.Orchestrator.{no_stats}
use danah_v.Orchestrator.Task.{RunState}
use danah_v.Orchestrator.Run.{Config}
use danah_v.Orchestrator.Run.Fanout.{AnalysisOutcome}
use danah_v.Orchestrator.Run.Execute.{has_run_id, signal_step, item_limit, execute_run}
use danah_v.Orchestrator.Run.Execute.Outcome.{HasRun, Over, execute_run-Reports}
use danah_v.Agents.Team.{team}
use danah_v.Tests.{sample_env, sample_agents, sample_desk, config, run, first_db, first_session}

run_found : find_first (has_run_id 9) first_db.runs ≡ some run
unfolding find_first
run_found = refl

first_run : HasRun 9 first_db
first_run = (run, run_found)

execute_run-Reports_example :
    let (out, end) =
      execute_run sample_env config
        (team sample_env sample_desk (some 9))
        9
        []
        none
        first_session in
    Over sample_env 9 out end.committed
execute_run-Reports_example =
    execute_run-Reports sample_env config sample_desk 9 [] none first_session first_run first_run

-- The Signal step spends 50 tokens.
abbrev small_budget : Config
small_budget = record config { pipeline_token_budget = 50 }

abbrev after_signal : Result (List ℕ) × RunState
after_signal =
    signal_step sample_env small_budget sample_agents 9 []
      (item_limit sample_env small_budget sample_agents 9 none)
      (record { session = first_session; stats = no_stats })

abbrev stopped : Result (RunStatus × RunStats) × Session
stopped = execute_run sample_env small_budget sample_agents 9 [] none first_session

-- One agent crashed, one failed, one completed.
abbrev outcomes : List (AgentName × Result AnalysisOutcome)
outcomes =
    (AgentName.risk, raise Error.danah_error)
    ∷ (AgentName.opportunity, ok (outcome AgentName.opportunity StepStatus.failed))
    ∷ (AgentName.policy, ok (outcome AgentName.policy StepStatus.completed))
    ∷ []
  where
    outcome : AgentName → StepStatus → AnalysisOutcome
    outcome name status = record {
      agent = name;
      status = status;
      tokens_in = 30;
      tokens_out = 5;
      cost_usd = 1;
      created = 2;
    }
