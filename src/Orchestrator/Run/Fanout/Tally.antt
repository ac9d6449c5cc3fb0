-- ===== src/Orchestrator/Run/Fanout/Tally.antt =====
-- How the outcomes of the analysis agents are counted (_run_analysis_fanout of
-- app/services/orchestrator.py).
use danah_v.Prelude.{
  ℕ, ◌+◌, ◌≡◌, refl, sym, ap, ◌∙◌, List, [], ◌∷◌, ◌++◌, map, ++-assoc, ++-[], arith, if◌then◌else◌,
}
use danah_v.Enums.{AgentName}
use danah_v.Exceptions.{Result, ok, raise}
use danah_v.Models.{RunStats}
use danah_v.Session.{Env, Session}
use danah_v.Agents.{Agents, is_completed}
use danah_v.Orchestrator.Run.Fanout.{
  AnalysisOutcome, tally, tally_all, gather, isolated, on_own_session,
}

-- The agents that an outcome reports as failed.
abbrev pub failure : AgentName → Result AnalysisOutcome → List AgentName
failure name (raise e) = name ∷ []
failure name (ok o) = if is_completed o.status then [] else o.agent ∷ []

abbrev pub failures : List (AgentName × Result AnalysisOutcome) → List AgentName
failures [] = []
failures ((name, r) ∷ outcomes) = failure name r ++ failures outcomes

-- What an outcome has spent; an agent that crashed reports nothing.
abbrev pub spent : Result AnalysisOutcome → ℕ
spent (raise e) = 0
spent (ok o) = o.tokens_in + o.tokens_out

abbrev pub total : List (AgentName × Result AnalysisOutcome) → ℕ
total [] = 0
total ((name, r) ∷ outcomes) = spent r + total outcomes

tally-failure :
    (name : AgentName) (r : Result AnalysisOutcome) (st : RunStats)
    → ((tally name r st).failed_steps ≡ st.failed_steps ++ failure name r)
      × ((tally name r st).tokens ≡ st.tokens + spent r)
unfolding tally
tally-failure name (raise e) st = ground arith
tally-failure name (ok o) st = ground (arith, ++-[] st.failed_steps)

-- After the fan-out the failed steps are those from before with the agents that crashed or did
-- not complete, in order, and the tokens have grown by what every reported outcome has spent,
-- completed or not.
pub tally_all-exact :
    (outcomes : List (AgentName × Result AnalysisOutcome)) (st : RunStats)
    → ((tally_all outcomes st).failed_steps ≡ st.failed_steps ++ failures outcomes)
      × ((tally_all outcomes st).tokens ≡ st.tokens + total outcomes)
unfolding tally_all
tally_all-exact [] st = (sym (++-[] st.failed_steps), omega arith)
tally_all-exact ((name, r) ∷ outcomes) st =
    let (failed, tokens) = tally-failure name r st in
    let (failed', tokens') = tally_all-exact outcomes (tally name r st) in
    (
      failed'
          ∙ (ap (λ l. l ++ failures outcomes) failed
              ∙ ++-assoc st.failed_steps (failure name r) (failures outcomes)),
      omega arith,
    )

-- Every agent has an outcome, in the order of the list, whichever of them crash.
pub gather-names :
    (env : Env) (agents : Agents) (run_id : ℕ) (names : List AgentName) (s : Session)
    → map (λ o. o.0) (gather env agents run_id names s).0 ≡ names
unfolding gather
gather-names env agents run_id [] s = refl
gather-names env agents run_id (name ∷ names) s =
    ap (λ l. name ∷ l)
      (gather-names env agents run_id names (on_own_session (isolated env agents run_id name) s).1)
