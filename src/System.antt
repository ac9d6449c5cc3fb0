-- ===== src/System.antt =====
-- The requests and jobs that change a subject, its approval or a run, as steps on the database:
-- app/api/approvals.py, app/api/notifications.py, app/api/tasks.py, app/api/briefings.py and
-- app/workers/tasks.py over the services.
pub mod Invariants
pub mod Gate
pub mod Unique
use danah_v.Prelude.{ℕ, String, Bool, Option, List, some}
use danah_v.Enums.{AgentName, PipelineTrigger}
use danah_v.Models.{Db, User}
use danah_v.Session.{Env, Session, Action, get_db}
use danah_v.Notifications.{mark_read}
use danah_v.Agents.Team.{Desk, team}
use danah_v.Orchestrator.{start_run}
use danah_v.Orchestrator.Run.{Config}
use danah_v.Orchestrator.Run.Execute.{execute_run}
use danah_v.Api.{decide_approval}
use danah_v.Orchestrator.Generate.{generate_briefing}
use danah_v.Tasks.{TaskCreate, TaskUpdate, create_task, update_task}

-- One request or job, run to its end: the job run_pipeline commits after execute_run as a request
-- does. `n` values have been drawn from outside before it.
pub data Step (env : Env) (cfg : Config) (desk : Desk) : Db → Db → Type 0 where
  decision :
      (user : User) (approval_id : ℕ) (verdict comment : String) (ip : Option String) (db : Db)
      (n : ℕ)
      → Step env cfg desk db
          (get_db (decide_approval env user approval_id verdict comment ip) db n).1
  read_notifications :
      (user : User) (ids : List ℕ) (db : Db) (n : ℕ)
      → Step env cfg desk db (get_db (mark_read env user ids) db n).1
  create_action :
      (user : User) (payload : TaskCreate) (ip : Option String) (db : Db) (n : ℕ)
      → Step env cfg desk db (get_db (create_task env payload user ip) db n).1
  update_action :
      (user : User) (id : ℕ) (payload : TaskUpdate) (ip : Option String) (db : Db) (n : ℕ)
      → Step env cfg desk db (get_db (update_task env id payload user ip) db n).1
  generate :
      (user : User) (for_date : Option ℕ) (force : Bool) (ip : Option String) (db : Db) (n : ℕ)
      → Step env cfg desk db
          (get_db
            (generate_briefing env (λ run_id. team env desk (some run_id)) user for_date force ip)
            db
            n).1
  trigger :
      (by : PipelineTrigger) (initiated_by max_items : Option ℕ) (db : Db) (n : ℕ)
      → Step env cfg desk db (get_db (start_run env by initiated_by max_items) db n).1
  run_pipeline :
      (run_id : ℕ) (chosen : List AgentName) (max_items : Option ℕ) (db : Db) (n : ℕ)
      → Step env cfg desk db
          (get_db
            (execute_run env cfg (team env desk (some run_id)) run_id chosen max_items)
            db
            n).1

-- Any number of them, in any order.
pub data Reach (env : Env) (cfg : Config) (desk : Desk) (first : Db) : Db → Type 0 where
  start : Reach env cfg desk first first
  next :
      (db db' : Db)
      → Reach env cfg desk first db
      → Step env cfg desk db db'
      → Reach env cfg desk first db'
