-- ===== src/Tasks.antt =====
-- app/api/tasks.py: the action tracker. What the request schema guarantees (app/schemas/task.py) is
-- a hypothesis of the theorems.
pub mod Keeps
pub mod Board
use danah_v.Prelude.{
  drop, ℕ, String, Bool, true, false, ◌&&◌, not, Option, none, some, List, [], ◌∷◌, ◌++◌, ◌==◌, ltb,
  leb, if◌then◌else◌, is_none, find_first, modify_first, filterb, sort_by, take,
}
use danah_v.Enums.{
  ActorType, Classification, TaskStatus, Urgency, classification_rank, task_status_value,
  urgency_value,
}
use danah_v.Exceptions.{Error}
use danah_v.Models.{Db, Scalar, Task, User}
use danah_v.Session.{Env, Action, pure, throw, query, write, draw, ◌>>=◌, ◌>>◌}
use danah_v.Security.{analyst_and_above, assert_role, can_read, user_clearance}
use danah_v.Audit.{record_audit}

pub record TaskCreate : Type 0 where
  pub title : String
  pub description : String
  pub urgency : Urgency
  pub owner : String
  pub due_date : Option ℕ
  pub classification : Classification
  pub source_insight_id : Option ℕ

-- A field that is not set, or is null, is nothing; the date keeps the two apart.
pub record TaskUpdate : Type 0 where
  pub title : Option String
  pub description : Option String
  pub status : Option TaskStatus
  pub urgency : Option Urgency
  pub owner : Option String
  pub progress : Option ℕ
  pub due_date : Option (Option ℕ)
  pub fields : String

abbrev pub has_task_id : ℕ → Task → Bool
has_task_id id t = t.id == id

abbrev pub same_status : TaskStatus → TaskStatus → Bool
same_status TaskStatus.pending TaskStatus.pending = true
same_status TaskStatus.in_progress TaskStatus.in_progress = true
same_status TaskStatus.blocked TaskStatus.blocked = true
same_status TaskStatus.done TaskStatus.done = true
same_status _ _ = false

abbrev pub wanted : Option TaskStatus → Task → Bool
wanted none t = true
wanted (some status) t = same_status t.status status

-- list_tasks: the newest first.
unfoldable pub list_tasks : User → Option TaskStatus → ℕ → ℕ → Db → List Task
list_tasks user status limit offset db = take limit (
    drop offset (
      sort_by (λ a b. leb b.created_at a.created_at)
        (filterb
          (λ t.
            leb (classification_rank t.classification) (classification_rank (user_clearance user))
            && wanted status t)
          db.tasks)))

abbrev pub new_task : ℕ → ℕ → ℕ → TaskCreate → Task
new_task id now by payload = record {
  id = id;
  title = payload.title;
  description = payload.description;
  status = TaskStatus.pending;
  urgency = payload.urgency;
  owner = payload.owner;
  progress = 0;
  due_date = payload.due_date;
  classification = payload.classification;
  created_by = some by;
  source_insight_id = payload.source_insight_id;
  created_at = now;
}

abbrev pub add_task : Task → Db → Db
add_task t db = record db { tasks = db.tasks ++ t ∷ [] }

abbrev pub audit_task :
    Env → String → User → ℕ → Option String → List (String × Scalar) → Action Unit
audit_task env action user id ip detail = do
  record_audit env action ActorType.user (some user.id) (some "task") (some id) ip detail
  pure tt

unfoldable pub insert_task : Env → TaskCreate → User → Option String → Action Task
insert_task env payload user ip = do
  id ← draw env.uuid4
  now ← draw env.now
  let task = new_task id now user.id payload
  write (add_task task)
  audit_task env "task.create" user id ip (
      ("title", Scalar.text task.title)
      ∷ ("urgency", Scalar.text (urgency_value task.urgency))
      ∷ [])
  pure task

unfoldable pub create_task : Env → TaskCreate → User → Option String → Action Task
unfolding assert_role insert_task
create_task env payload user ip = do
  assert_role user analyst_and_above
  if can_read user payload.classification
      then insert_task env payload user ip
      else throw Error.permission_denied

abbrev pub or_else : {A : Type 0} → Option A → A → A
or_else none a = a
or_else (some b) a = b

-- The fields that are given.
abbrev pub with_changes : TaskUpdate → Task → Task
with_changes payload t = record t {
  title = or_else payload.title t.title;
  description = or_else payload.description t.description;
  status = or_else payload.status t.status;
  urgency = or_else payload.urgency t.urgency;
  owner = or_else payload.owner t.owner;
  progress = or_else payload.progress t.progress;
  due_date = or_else payload.due_date t.due_date;
}

-- An action that is done has progress 100.
unfoldable pub coherent : Task → Task
coherent t =
    if same_status t.status TaskStatus.done && ltb t.progress 100
    then record t { progress = 100 }
    else t

unfoldable pub changed : TaskUpdate → Task → Task
unfolding coherent
changed payload t = coherent (with_changes payload t)

unfoldable pub save_task : Env → Task → TaskUpdate → User → Option String → Action Task
unfolding changed
save_task env task payload user ip = do
  write (λ db. record db { tasks = modify_first (has_task_id task.id) (changed payload) db.tasks })
  audit_task env "task.update" user task.id ip (
      ("fields", Scalar.text payload.fields)
      ∷ ("status", Scalar.text (task_status_value (changed payload task).status))
      ∷ [])
  pure (changed payload task)

-- An action above the clearance of the user does not exist for the user.
unfoldable pub update_found : Env → Option Task → TaskUpdate → User → Option String → Action Task
unfolding save_task
update_found env none payload user ip = throw Error.not_found
update_found env (some task) payload user ip =
    if can_read user task.classification
    then save_task env task payload user ip
    else throw Error.not_found

unfoldable pub update_task : Env → ℕ → TaskUpdate → User → Option String → Action Task
unfolding update_found
update_task env id payload user ip = do
  assert_role user analyst_and_above
  found ← query (λ db. find_first (has_task_id id) db.tasks)
  update_found env found payload user ip
