-- ===== src/System/Invariants.antt =====
-- What every request and every pipeline run keeps, every history keeps.
use danah_v.Prelude.{ℕ, String, Option, some, List}
use danah_v.Enums.{PipelineTrigger}
use danah_v.Models.{Db, User}
use danah_v.Session.{Env}
use danah_v.Session.Keeps.{Keeps, get_db-Keeps}
use danah_v.Notifications.{mark_read}
use danah_v.Agents.Team.{Desk, team}
use danah_v.Agents.Team.Keeps.{team-Keeps}
use danah_v.Orchestrator.{start_run}
use danah_v.Orchestrator.Drafts.{Writes}
use danah_v.Orchestrator.Run.{Config}
use danah_v.Orchestrator.Run.Execute.Keeps.{execute_run-Keeps}
use danah_v.Orchestrator.Generate.Keeps.{generate_briefing-Keeps}
use danah_v.Tasks.{TaskUpdate}
use danah_v.Tasks.Keeps.{Changes, TaskWrites, create_task-Keeps, update_task-Keeps}
use danah_v.Api.{decide_approval}
use danah_v.System.{
  Step, decision, read_notifications, create_action, update_action, generate, trigger, run_pipeline,
  Reach, start, next,
}

-- An invariant that the routes keep, and the single writes of a run.
pub record Kept (env : Env) (P : Db → Type 0) : Type 0 where
  pub decides :
      (user : User) (id : ℕ) (verdict comment : String) (ip : Option String)
      → Keeps P (decide_approval env user id verdict comment ip)
  pub reads : (user : User) (ids : List ℕ) → Keeps P (mark_read env user ids)
  pub triggers :
      (by : PipelineTrigger) (initiated_by max_items : Option ℕ)
      → Keeps P (start_run env by initiated_by max_items)
  pub writes : Writes env P
  pub actions : TaskWrites P
  pub changes : (payload : TaskUpdate) → Changes P payload

module _ (env : Env) (cfg : Config) (desk : Desk) (P : Db → Type 0) (kept : Kept env P) where
  step_keeps : (db db' : Db) → Step env cfg desk db db' → P db → P db'
  step_keeps db _ (decision user id verdict comment ip _ n) h =
      get_db-Keeps P _ db n (kept.decides user id verdict comment ip) h
  step_keeps db _ (read_notifications user ids _ n) h =
      get_db-Keeps P _ db n (kept.reads user ids) h
  step_keeps db _ (create_action user payload ip _ n) h =
      get_db-Keeps P _ db n (create_task-Keeps env P kept.actions user ip payload) h
  step_keeps db _ (update_action user id payload ip _ n) h =
      get_db-Keeps P _ db n
        (update_task-Keeps env P kept.actions user ip payload (kept.changes payload) id) h
  step_keeps db _ (generate user for_date force ip _ n) h =
      get_db-Keeps P _ db n
        (generate_briefing-Keeps env (λ run_id. team env desk (some run_id)) P kept.writes
          (λ run_id. team-Keeps env desk (some run_id) P kept.writes) kept.triggers
          kept.actions.audit user for_date force ip)
        h
  step_keeps db _ (trigger by initiated_by max_items _ n) h =
      get_db-Keeps P _ db n (kept.triggers by initiated_by max_items) h
  step_keeps db _ (run_pipeline run_id chosen max_items _ n) h =
      get_db-Keeps P _ db n
        (execute_run-Keeps env cfg (team env desk (some run_id)) run_id P kept.writes
          (team-Keeps env desk (some run_id) P kept.writes) chosen max_items)
        h

  pub reach_keeps : (first db : Db) → P first → Reach env cfg desk first db → P db
  reach_keeps first db h start = h
  reach_keeps first db h (next before _ path step) =
      step_keeps before db step (reach_keeps first before h path)
