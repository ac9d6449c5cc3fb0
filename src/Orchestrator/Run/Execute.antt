-- ===== src/Orchestrator/Run/Execute.antt =====
-- app/services/orchestrator.py: execute_run and _finish.
pub mod Outcome
pub mod Budget
pub mod Keeps
use danah_v.Prelude.{
  ℕ, ◌+◌, String, Bool, true, false, not, ◌&&◌, ◌||◌, Option, none, some, List, [], ◌∷◌, ◌++◌, ltb,
  ◌==◌, if◌then◌else◌, is_none, find_first, modify_first, modify_where, filterb,
}
use danah_v.Enums.{AgentName, same_agent, ItemStatus, RunStatus}
use danah_v.Exceptions.{Error, Result, ok, raise}
use danah_v.Models.{Db, IngestedItem, PipelineRun, RunStats}
use danah_v.Session.{Env, Session, Action, commit, draw, flush, query, write}
use danah_v.Agents.{Agents}
use danah_v.Orchestrator.{no_stats}
use danah_v.Orchestrator.Task.{RunState, Task, lift, pure, tell, stats, ◌>>=◌, ◌>>◌}
use danah_v.Orchestrator.Run.{Config, run_signal, run_briefing, run_memory}
use danah_v.Orchestrator.Run.Fanout.{run_analysis_fanout}

abbrev pub has_run_id : ℕ → PipelineRun → Bool
has_run_id id r = r.id == id

abbrev pub mem_agent : AgentName → List AgentName → Bool
mem_agent a [] = false
mem_agent a (x ∷ xs) = same_agent a x || mem_agent a xs

-- set(agents) if agents else every agent
abbrev pub selected : List AgentName → AgentName → Bool
selected [] a = true
selected (x ∷ xs) a = mem_agent a (x ∷ xs)

unfoldable pub analysis_agents : List AgentName → List AgentName
unfolding filterb
analysis_agents agents =
    filterb (selected agents) (AgentName.risk ∷ AgentName.opportunity ∷ AgentName.policy ∷ [])

abbrev pub has_failed : RunStats → Bool
has_failed st = elim st.failed_steps [ [] ↦ false | a ∷ rest ↦ true ]

abbrev pub final_status : RunStats → Option String → RunStatus
final_status st reason =
    if has_failed st || not (is_none reason) then RunStatus.partial else RunStatus.completed

abbrev pub finished : RunStatus → ℕ → RunStats → Option String → PipelineRun → PipelineRun
finished status now st reason r = record r {
  status = status;
  finished_at = some now;
  max_items = none;
  stats = some st;
  stopped_early = reason;
}

-- _finish. What the commit flushes may be refused.
unfoldable pub finish : Env → ℕ → Option String → Task (RunStatus × RunStats)
finish env run_id reason = do
  st ← stats
  lift (flush env)
  now ← lift (draw env.now)
  lift (
      write (λ db. record db {
        runs =
            modify_first (has_run_id run_id) (finished (final_status st reason) now st reason)
              db.runs;
      }))
  lift commit
  pure (final_status st reason, st)

abbrev pub budget_exhausted : ℕ → RunStats → Bool
budget_exhausted budget st = not (ltb st.tokens budget)

abbrev pub mem_id : ℕ → List ℕ → Bool
mem_id a [] = false
mem_id a (x ∷ xs) = a == x || mem_id a xs

abbrev pub is_empty : {A : Type 0} → List A → Bool
is_empty [] = true
is_empty (x ∷ xs) = false

-- The items that an analysis agent has read are not read again.
unfoldable pub mark_analyzed : List ℕ → List AgentName → Task Unit
mark_analyzed triaged analysts =
    if not (is_empty triaged) && not (is_empty analysts)
    then (do
      lift (
          write (λ db. record db {
            items =
                modify_where (λ i. mem_id i.id triaged)
                  (λ i. record i { status = ItemStatus.analyzed }) db.items;
          }))
      lift commit)
    else pure tt

-- The except branch: what the run has written so far is committed with it. There is no rollback before
-- the commit, so that it raises where the session has been refused a write.
unfoldable pub crash : Env → ℕ → Error → Task (RunStatus × RunStats)
crash env run_id e = do
  st ← stats
  lift (flush env)
  now ← lift (draw env.now)
  lift (
      write (λ db. record db {
        runs =
            modify_first (has_run_id run_id)
              (λ r. record r {
                status = RunStatus.failed;
                finished_at = some now;
                max_items = none;
                stats = some st;
                crashed = true;
              })
              db.runs;
      }))
  lift commit
  λ s. (raise e, s)

abbrev pub when : Bool → Task Unit → Task Unit
when b m = if b then m else pure tt

module _ (env : Env) (cfg : Config) (agents : Agents) (run_id : ℕ) where
  -- From the fan-out on: why the run stopped early, or nothing.
  unfoldable pub after_signal : List AgentName → List ℕ → Task (Option String)
  after_signal chosen triaged = do
    let analysts = analysis_agents chosen
    when (not (is_empty analysts)) (run_analysis_fanout env agents run_id analysts)
    st ← stats
    if budget_exhausted cfg.pipeline_token_budget st
        then pure (some "token budget exhausted after analysis")
        else (do
          when (selected chosen AgentName.briefing) (run_briefing env cfg agents run_id)
          when (selected chosen AgentName.memory) (run_memory env cfg agents run_id)
          mark_analyzed triaged analysts
          pure none)

  unfoldable pub signal_step : List AgentName → ℕ → Task (List ℕ)
  signal_step chosen limit =
      if selected chosen AgentName.signal then run_signal env cfg agents run_id limit else pure []

  -- The try block, up to the final call of _finish.
  unfoldable pub run_steps : List AgentName → ℕ → Task (Option String)
  unfolding after_signal signal_step
  run_steps chosen limit = do
    triaged ← signal_step chosen limit
    st ← stats
    if budget_exhausted cfg.pipeline_token_budget st
        then pure (some "token budget exhausted after Signal")
        else after_signal chosen triaged

  -- max_items or the configured limit
  unfoldable pub item_limit : Option ℕ → ℕ
  item_limit none = cfg.pipeline_max_items_per_run
  item_limit (some n) = if n == 0 then cfg.pipeline_max_items_per_run else n

  unfoldable pub settle : Result (Option String) → Task (RunStatus × RunStats)
  settle (ok reason) = finish env run_id reason
  settle (raise e) = crash env run_id e

  -- The run row is loaded first; without one the run is refused.
  unfoldable pub run_loaded :
      Option PipelineRun → List AgentName → Option ℕ → Action (RunStatus × RunStats)
  run_loaded none chosen max_items s = (raise Error.orchestration_error, s)
  run_loaded (some _) chosen max_items s =
      let (r, st) =
        run_steps chosen (item_limit max_items) (record { session = s; stats = no_stats }) in
      let (result, end) = settle r st in (result, end.session)

  unfoldable pub execute_run : List AgentName → Option ℕ → Action (RunStatus × RunStats)
  unfolding run_loaded settle
  execute_run chosen max_items s =
      run_loaded (find_first (has_run_id run_id) s.current.runs) chosen max_items s
