-- ===== src/Tasks/Keeps.antt =====
-- What the task routes of app/api/tasks.py keep: the invariants that their single writes keep.
use danah_v.Prelude.{ℕ, String, Option, none, some, List, [], ◌∷◌, find_first, modify_first}
use danah_v.Enums.{ActorType, task_status_value, urgency_value}
use danah_v.Exceptions.{Error}
use danah_v.Models.{Db, Scalar, Task, User}
use danah_v.Session.{Env}
use danah_v.Session.Keeps.{
  Keeps, Keeps-pure, Keeps-throw, Keeps-query, Keeps-draw, Keeps-write, Keeps-bind, Keeps-if,
}
use danah_v.Security.{analyst_and_above, assert_role, can_read, has_role}
use danah_v.Audit.Keeps.{AuditWrites, record_audit-Keeps}
use danah_v.Tasks.{
  TaskCreate, TaskUpdate, add_task, audit_task, changed, create_task, has_task_id, insert_task,
  new_task, save_task, update_found, update_task,
}

-- Closed under a new action and under a change of one.
pub record TaskWrites (P : Db → Type 0) : Type 0 where
  pub audit : AuditWrites P
  pub create :
      (db : Db) (id now by : ℕ) (payload : TaskCreate)
      → P db
      → P (add_task (new_task id now by payload) db)

abbrev pub Changes : (Db → Type 0) → TaskUpdate → Type 0
Changes P payload =
    (db : Db) (id : ℕ)
    → P db
    → P (record db { tasks = modify_first (has_task_id id) (changed payload) db.tasks })

module _ (env : Env) (P : Db → Type 0) (closed : TaskWrites P) (user : User)
    (ip : Option String) where
  audit_task-Keeps :
      (action : String) (id : ℕ) (detail : List (String × Scalar))
      → Keeps P (audit_task env action user id ip detail)
  audit_task-Keeps action id detail =
      Keeps-bind P _ _
        (record_audit-Keeps env P closed.audit action ActorType.user (some user.id) (some "task")
          (some id) ip detail)
        (λ _. Keeps-pure P tt)

  assert_analyst-Keeps : Keeps P (assert_role user analyst_and_above)
  unfolding assert_role
  assert_analyst-Keeps =
      Keeps-if P (has_role user analyst_and_above) _ _ (Keeps-pure P tt)
        (Keeps-throw P Error.permission_denied)

  insert_task-Keeps : (payload : TaskCreate) → Keeps P (insert_task env payload user ip)
  unfolding insert_task
  insert_task-Keeps payload = Keeps-bind P _ _ (Keeps-draw P env.uuid4) (λ id.
      Keeps-bind P _ _ (Keeps-draw P env.now) (λ now.
        let task = new_task id now user.id payload in
        Keeps-bind P _ _
          (Keeps-write P (add_task task) (λ db. closed.create db id now user.id payload))
          (λ _.
            Keeps-bind P _ _
              (audit_task-Keeps "task.create" id (
                ("title", Scalar.text task.title)
                ∷ ("urgency", Scalar.text (urgency_value task.urgency))
                ∷ []))
              (λ _. Keeps-pure P task))))

  pub create_task-Keeps : (payload : TaskCreate) → Keeps P (create_task env payload user ip)
  unfolding create_task
  create_task-Keeps payload = Keeps-bind P _ _ assert_analyst-Keeps (λ _.
      Keeps-if P (can_read user payload.classification) _ _ (insert_task-Keeps payload)
        (Keeps-throw P Error.permission_denied))

  module _ (payload : TaskUpdate) (changes : Changes P payload) where
    save_task-Keeps : (task : Task) → Keeps P (save_task env task payload user ip)
    unfolding save_task
    save_task-Keeps task =
        Keeps-bind P _ _
          (Keeps-write P
            (λ db. record db {
              tasks = modify_first (has_task_id task.id) (changed payload) db.tasks;
            })
            (λ db. changes db task.id))
          (λ _.
            Keeps-bind P _ _
              (audit_task-Keeps "task.update" task.id (
                ("fields", Scalar.text payload.fields)
                ∷ ("status", Scalar.text (task_status_value (changed payload task).status))
                ∷ []))
              (λ _. Keeps-pure P (changed payload task)))

    update_found-Keeps : (found : Option Task) → Keeps P (update_found env found payload user ip)
    unfolding update_found
    update_found-Keeps none = Keeps-throw P Error.not_found
    update_found-Keeps (some task) =
        Keeps-if P (can_read user task.classification) _ _ (save_task-Keeps task)
          (Keeps-throw P Error.not_found)

    pub update_task-Keeps : (id : ℕ) → Keeps P (update_task env id payload user ip)
    unfolding update_task
    update_task-Keeps id = Keeps-bind P _ _ assert_analyst-Keeps (λ _.
        Keeps-bind P _ _ (Keeps-query P (λ db. find_first (has_task_id id) db.tasks))
          update_found-Keeps)
