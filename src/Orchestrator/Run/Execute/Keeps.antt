-- ===== src/Orchestrator/Run/Execute/Keeps.antt =====
-- What a pipeline run keeps, whatever its agents answer: each invariant that its single writes keep.
use danah_v.Prelude.{
  ℕ, String, Bool, true, false, not, Option, none, some, List, [], ◌∷◌, inl, inr, Bool-cases,
  find_first, refl,
}
use danah_v.Enums.{AgentName}
use danah_v.Exceptions.{Result, ok, raise}
use danah_v.Models.{Db, PipelineRun}
use danah_v.Session.{Env}
use danah_v.Session.Keeps.{Keeps}
use danah_v.Agents.{Agents}
use danah_v.Orchestrator.{no_stats}
use danah_v.Orchestrator.Drafts.{Writes}
use danah_v.Orchestrator.Task.{RunState, Task, pure, ◌>>◌}
use danah_v.Orchestrator.Task.Keeps.{KeepsTask, KeepsTask-pure, KeepsTask-if, KeepsTask-bind}
use danah_v.Orchestrator.Run.{Config, run_briefing, run_memory}
use danah_v.Orchestrator.Run.Keeps.{
  AgentsKeep, run_signal-Keeps, run_briefing-Keeps, run_memory-Keeps, run_analysis_fanout-Keeps,
}
use danah_v.Orchestrator.Run.Fanout.{run_analysis_fanout}
use danah_v.Orchestrator.Run.Execute.{
  selected, analysis_agents, is_empty, budget_exhausted, finish, crash, mark_analyzed, has_run_id,
  after_signal, signal_step, run_steps, item_limit, settle, run_loaded, execute_run, when,
}

module _ (env : Env) (cfg : Config) (agents : Agents) (run_id : ℕ) (P : Db → Type 0)
    (closed : Writes env P) (keep : AgentsKeep P agents) where
  when-Keeps : (b : Bool) (m : Task Unit) → KeepsTask P m → KeepsTask P (when b m)
  when-Keeps true m k = k
  when-Keeps false m k = KeepsTask-pure P tt

  mark_analyzed-Keeps :
      (triaged : List ℕ) (analysts : List AgentName) → KeepsTask P (mark_analyzed triaged analysts)
  unfolding mark_analyzed
  mark_analyzed-Keeps [] analysts = record { at = λ st h. h }
  mark_analyzed-Keeps (i ∷ ids) [] = record { at = λ st h. h }
  mark_analyzed-Keeps (i ∷ ids) (a ∷ names) = record {
    at = λ st h. let h' = closed.items st.session.current _ h.0 in (h', h');
  }

  after_signal-Keeps :
      (chosen : List AgentName) (triaged : List ℕ)
      → KeepsTask P (after_signal env cfg agents run_id chosen triaged)
  unfolding after_signal
  after_signal-Keeps chosen triaged =
      let analysts = analysis_agents chosen in
      KeepsTask-bind P
        (when (not (is_empty analysts)) (run_analysis_fanout env agents run_id analysts)) _
        (when-Keeps (not (is_empty analysts)) _
          (run_analysis_fanout-Keeps env cfg agents run_id P closed keep analysts))
        (λ _. record {
          at = λ st h. elim (Bool-cases (budget_exhausted cfg.pipeline_token_budget st.stats)) [
            | inl e ↦ rw e h
            | inr e ↦ rw e ((later-Keeps analysts).at st h)
          ];
        })
    where
      later-Keeps :
          (analysts : List AgentName)
          → KeepsTask P (
              when (selected chosen AgentName.briefing) (run_briefing env cfg agents run_id)
              >> (when (selected chosen AgentName.memory) (run_memory env cfg agents run_id)
                  >> (mark_analyzed triaged analysts >> pure {A = Option String} none)))
      later-Keeps analysts =
          KeepsTask-bind P
            (when (selected chosen AgentName.briefing) (run_briefing env cfg agents run_id)) _
            (when-Keeps (selected chosen AgentName.briefing) _
              (run_briefing-Keeps env cfg agents run_id P closed keep))
            (λ _.
              KeepsTask-bind P
                (when (selected chosen AgentName.memory) (run_memory env cfg agents run_id)) _
                (when-Keeps (selected chosen AgentName.memory) _
                  (run_memory-Keeps env cfg agents run_id P closed keep))
                (λ _.
                  KeepsTask-bind P (mark_analyzed triaged analysts) (λ _. pure none)
                    (mark_analyzed-Keeps triaged analysts) (λ _. KeepsTask-pure P none)))

  signal_step-Keeps :
      (chosen : List AgentName) (limit : ℕ)
      → KeepsTask P (signal_step env cfg agents run_id chosen limit)
  unfolding signal_step
  signal_step-Keeps chosen limit =
      KeepsTask-if P (selected chosen AgentName.signal) _ (pure [])
        (run_signal-Keeps env cfg agents run_id P closed keep limit) (KeepsTask-pure P [])

  pub run_steps-Keeps :
      (chosen : List AgentName) (limit : ℕ)
      → KeepsTask P (run_steps env cfg agents run_id chosen limit)
  unfolding run_steps
  run_steps-Keeps chosen limit =
      KeepsTask-bind P (signal_step env cfg agents run_id chosen limit) _
        (signal_step-Keeps chosen limit)
        (λ triaged. record {
          at = λ st h. elim (Bool-cases (budget_exhausted cfg.pipeline_token_budget st.stats)) [
            | inl e ↦ rw e h
            | inr e ↦ rw e ((after_signal-Keeps chosen triaged).at st h)
          ];
        })

  settle-Keeps : (r : Result (Option String)) → KeepsTask P (settle env cfg agents run_id r)
  unfolding settle finish crash
  settle-Keeps (ok reason) = record {
    at = λ st h. elim (Bool-cases (env.accepts st.session.draws)) [
      | inl taken ↦
          rw taken (let h' = closed.runs st.session.current run_id _ (λ r. refl) h.0 in (h', h'))
      | inr refused ↦ rw refused h
    ];
  }
  settle-Keeps (raise e) = record {
    at = λ st h. elim (Bool-cases (env.accepts st.session.draws)) [
      | inl taken ↦
          rw taken (let h' = closed.runs st.session.current run_id _ (λ r. refl) h.0 in (h', h'))
      | inr refused ↦ rw refused h
    ];
  }

  run_loaded-Keeps :
      (o : Option PipelineRun) (chosen : List AgentName) (max_items : Option ℕ)
      → Keeps P (run_loaded env cfg agents run_id o chosen max_items)
  unfolding run_loaded
  run_loaded-Keeps none chosen max_items = record { at = λ s h. h }
  run_loaded-Keeps (some run) chosen max_items = record {
    at = λ s h.
        let begin : RunState = record { session = s; stats = no_stats } in
        let limit = item_limit env cfg agents run_id max_items in
        let (r, st) = run_steps env cfg agents run_id chosen limit begin in
        (settle-Keeps r).at st ((run_steps-Keeps chosen limit).at begin h);
  }

  -- Whatever the agents answer and wherever a run stops or crashes, it keeps each invariant that
  -- the single writes of a run and the agents' own steps keep.
  pub execute_run-Keeps :
      (chosen : List AgentName) (max_items : Option ℕ)
      → Keeps P (execute_run env cfg agents run_id chosen max_items)
  unfolding execute_run
  execute_run-Keeps chosen max_items = record {
    at = λ s h.
        (run_loaded-Keeps (find_first (has_run_id run_id) s.current.runs) chosen max_items).at s h;
  }
