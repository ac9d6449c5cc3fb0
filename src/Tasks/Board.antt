-- ===== src/Tasks/Board.antt =====
-- The board of actions stays coherent, and keeps from a user what the user may not read
-- (app/api/tasks.py).
use danah_v.Prelude.{
  ℕ, ◌+◌, ◌≤◌, ◌≡◌, refl, String, true, false, ◌&&◌, Option, none, some, List, [], ◌∷◌, arith, ltb,
  All, All-append, All-modify_first, find_first, All-take, All-drop, All-sort_by, All-filterb, inl,
  inr, Bool-cases, if◌then◌else◌,
}
use danah_v.Enums.{TaskStatus}
use danah_v.Exceptions.{Error, raise}
use danah_v.Models.{Db, Task, User}
use danah_v.Session.{Env, Session, get_db}
use danah_v.Session.Keeps.{get_db-Keeps}
use danah_v.Security.{analyst_and_above, assert_role, can_read, has_role}
use danah_v.Tasks.{
  TaskCreate, TaskUpdate, changed, coherent, create_task, has_task_id, list_tasks, or_else,
  same_status, update_found, update_task, wanted, with_changes,
}
use danah_v.Tasks.Keeps.{Changes, TaskWrites, create_task-Keeps, update_task-Keeps}

-- Progress is a percentage, and an action that is done has all of it.
abbrev pub IsCoherent : Task → Type 0
IsCoherent t = (t.progress ≤ 100) × (t.status ≡ TaskStatus.done → t.progress ≡ 100)

abbrev pub Coherent : Db → Type 0
Coherent db = All IsCoherent db.tasks

-- What the schema of the request guarantees.
abbrev pub IsValid : TaskUpdate → Type 0
IsValid payload = (n : ℕ) → payload.progress ≡ some n → n ≤ 100

same_status-done : (t : TaskStatus) → t ≡ TaskStatus.done → same_status t TaskStatus.done ≡ true
same_status-done t h = rw h refl

or_else-bound :
    (o : Option ℕ) (n : ℕ) → ((m : ℕ) → o ≡ some m → m ≤ 100) → n ≤ 100 → or_else o n ≤ 100
or_else-bound none n h k = k
or_else-bound (some m) n h k = h m refl

coherent-IsCoherent : (t : Task) → t.progress ≤ 100 → IsCoherent (coherent t)
unfolding coherent
coherent-IsCoherent t h =
    elim (Bool-cases (same_status t.status TaskStatus.done && ltb t.progress 100)) [
      | inl low ↦ rw low (omega arith, λ e. refl)
      | inr fine ↦ rw fine (h, λ e. ground (arith, same_status-done t.status e))
    ]

TaskWrites-Coherent : TaskWrites Coherent
TaskWrites-Coherent = record {
  audit = λ db e h. h;
  create =
      λ db id now by payload h. All-append IsCoherent db.tasks _ h ((omega arith, λ e. cc), tt);
}

Changes-Coherent : (payload : TaskUpdate) → IsValid payload → Changes Coherent payload
unfolding changed
Changes-Coherent payload valid db id h =
    All-modify_first IsCoherent (has_task_id id) (changed payload) db.tasks
      (λ t _ c.
        coherent-IsCoherent (with_changes payload t)
          (or_else-bound payload.progress t.progress valid c.0))
      h

-- A request to the board.
pub data Edit : Type 0 where
  create : User → TaskCreate → Edit
  update : User → ℕ → TaskUpdate → Edit

abbrev pub IsValidEdit : Edit → Type 0
IsValidEdit (Edit.create user payload) = Unit
IsValidEdit (Edit.update user id payload) = IsValid payload

-- The database after requests one after another, each committed or rolled back; `n` values are
-- drawn before the first, and eight are set aside for each.
abbrev pub edited : Env → List Edit → Db → ℕ → Db
edited env [] db n = db
edited env (Edit.create user payload ∷ edits) db n =
    edited env edits (get_db (create_task env payload user none) db n).1 (n + 8)
edited env (Edit.update user id payload ∷ edits) db n =
    edited env edits (get_db (update_task env id payload user none) db n).1 (n + 8)

-- Whatever analysts and others send to the board, in any order, as long as a progress that is sent is
-- at most 100: every action keeps a progress of at most 100, and of exactly 100 if it is done, if
-- that held at the start.
pub edited-Coherent :
    (env : Env) (edits : List Edit) (db : Db) (n : ℕ)
    → All IsValidEdit edits
    → Coherent db
    → Coherent (edited env edits db n)
edited-Coherent env [] db n valid h = h
edited-Coherent env (Edit.create user payload ∷ edits) db n (_, valid) h =
    edited-Coherent env edits _ (n + 8) valid (
      get_db-Keeps Coherent (create_task env payload user none) db n
        (create_task-Keeps env Coherent TaskWrites-Coherent user none payload) h)
edited-Coherent env (Edit.update user id payload ∷ edits) db n (good, valid) h =
    edited-Coherent env edits _ (n + 8) valid (
      get_db-Keeps Coherent (update_task env id payload user none) db n
        (update_task-Keeps env Coherent TaskWrites-Coherent user none payload
          (Changes-Coherent payload good) id)
        h)

module _ (env : Env) (user : User) (ip : Option String) (id : ℕ) (payload : TaskUpdate) where
  update_found-hidden :
      (found : Option Task) (s : Session)
      → ((task : Task) → found ≡ some task → can_read user task.classification ≡ false)
      → update_found env found payload user ip s ≡ (raise Error.not_found, s)
  unfolding update_found
  update_found-hidden none s hidden = refl
  update_found-hidden (some task) s hidden = rw (hidden task refl) refl

  -- What an update answers about an action that the user may not read is what it answers about one
  -- that does not exist, and the session stays as it is; a user below analyst is told neither.
  pub update_task-hidden :
      (s : Session)
      → ((task : Task)
          → find_first (has_task_id id) s.current.tasks ≡ some task
          → can_read user task.classification ≡ false)
      → update_task env id payload user ip s ≡ (
        raise
            (if has_role user analyst_and_above then Error.not_found else Error.permission_denied),
        s,
      )
  unfolding update_task assert_role update_found
  update_task-hidden s hidden = elim (Bool-cases (has_role user analyst_and_above)) [
    | inl senior ↦
        rw senior (update_found-hidden (find_first (has_task_id id) s.current.tasks) s hidden)
    | inr junior ↦ rw junior refl
  ]

-- An action that the user may read, of the status that was asked for.
abbrev pub Shown : User → Option TaskStatus → Task → Type 0
Shown user status t = (can_read user t.classification ≡ true) × (wanted status t ≡ true)

-- The board shows a user nothing above the clearance of the user and nothing of another status than
-- the one asked for, on whatever page.
pub list_tasks-Shown :
    (user : User) (status : Option TaskStatus) (limit offset : ℕ) (db : Db)
    → All (Shown user status) (list_tasks user status limit offset db)
unfolding list_tasks can_read
list_tasks-Shown user status limit offset db = All-take (Shown user status) limit _ (
    All-drop (Shown user status) offset _ (
      All-sort_by (Shown user status) _ _
        (All-filterb (Shown user status) _ db.tasks (λ t h. ground arith))))
