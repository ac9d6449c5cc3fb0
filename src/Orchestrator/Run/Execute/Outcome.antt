-- ===== src/Orchestrator/Run/Execute/Outcome.antt =====
-- How a pipeline run ends (execute_run of app/services/orchestrator.py).
use danah_v.Prelude.{
  ℕ, ◌≡◌, refl, ◌⊎◌, ◌||◌, not, is_none, String, true, false, Option, none, some, List, [], ◌∷◌,
  find_first, modify_first, find_first-modify_first, find_first-holds, find_first-there, Bool-cases,
  inl, inr, arith,
}
use danah_v.Enums.{AgentName, RunStatus}
use danah_v.Exceptions.{Error, Result, ok, raise}
use danah_v.Models.{Db, PipelineRun, RunStats}
use danah_v.Session.{Env, Session}
use danah_v.Approvals.Queue.{submit_for_approval-runs, submit_for_approval-committed}
use danah_v.Agents.{Agents}
use danah_v.Agents.Team.{Desk, team}
use danah_v.Agents.Team.Keeps.{team-Keeps}
use danah_v.Orchestrator.{no_stats}
use danah_v.Orchestrator.Drafts.{Writes}
use danah_v.Orchestrator.Task.{RunState}
use danah_v.Orchestrator.Run.{Config}
use danah_v.Orchestrator.Run.Execute.{
  has_run_id, has_failed, finish, crash, settle, run_steps, run_loaded, item_limit, execute_run,
  final_status, finished,
}
use danah_v.Orchestrator.Run.Execute.Keeps.{run_steps-Keeps}

-- The row of the run is there.
abbrev pub HasRun : ℕ → Db → Type 0
HasRun run_id db = (r : PipelineRun) × (find_first (has_run_id run_id) db.runs ≡ some r)

HasRun-modify :
    (run_id id : ℕ) (f : PipelineRun → PipelineRun) (runs : List PipelineRun)
    → ((r : PipelineRun) → (f r).id ≡ r.id)
    → (r : PipelineRun) × (find_first (has_run_id run_id) runs ≡ some r)
    → (r : PipelineRun) × (find_first (has_run_id run_id) (modify_first (has_run_id id) f runs)
        ≡ some r)
unfolding find_first modify_first
HasRun-modify run_id id f [] same (r, h) = absurd (cc)
HasRun-modify run_id id f (x ∷ runs) same (r, h) = elim (Bool-cases (has_run_id id x)) [
  | inl e ↦ elim (Bool-cases (has_run_id run_id x)) [
    | inl t ↦ (f x, ground (arith, same x))
    | inr t ↦ (r, ground (arith, same x))
  ]
  | inr e ↦ elim (Bool-cases (has_run_id run_id x)) [
    | inl t ↦ (r, ground arith)
    | inr t ↦
        let (r', h') =
          HasRun-modify run_id id f runs same
            (r, find_first-there (has_run_id run_id) x runs r t h) in
        (r', ground arith)
  ]
]

pub Writes-HasRun : (env : Env) (run_id : ℕ) → Writes env (HasRun run_id)
Writes-HasRun env run_id = record {
  submit = λ t id agent role. record {
    at = λ s (h, c). (
      rw (submit_for_approval-runs env t id agent role s) h,
      rw (submit_for_approval-committed env t id agent role s) c,
    );
  };
  insight = λ db id kind d run agent h. h;
  briefing = λ db id today english arabic run h. h;
  memory = λ db row h. h;
  items = λ db rows h. h;
  steps = λ db rows h. h;
  runs = λ db id f same h. HasRun-modify run_id id f db.runs same h;
}

-- `completed` only if no failed step is named.
abbrev pub Final : RunStatus → RunStats → Type 0
Final status st =
    ((status ≡ RunStatus.completed) × (st.failed_steps ≡ [])) ⊎ (status ≡ RunStatus.partial)

-- What a result says of the row of its run.
abbrev pub Reports : Result (RunStatus × RunStats) → PipelineRun → Type 0
Reports (ok (status, st)) r = (r.status ≡ status) × (r.stats ≡ some st) × Final status st
Reports (raise e) r = (r.status ≡ RunStatus.failed) × (r.crashed ≡ true)

none_failed :
    (st : RunStats) (reason : Option String)
    → (has_failed st || not (is_none reason)) ≡ false
    → st.failed_steps ≡ []
none_failed st reason h = ground arith

final_status-finished : (st : RunStats) (reason : Option String) → Final (final_status st reason) st
final_status-finished st reason = elim (Bool-cases (has_failed st || not (is_none reason))) [
  | inl partly ↦ rw partly (inr refl)
  | inr whole ↦ rw whole (inl (refl, none_failed st reason whole))
]

-- The database has refused a write.
abbrev pub Refused : Env → Type 0
Refused env = (n : ℕ) × (env.accepts n ≡ false)

-- How a run has ended: the committed row reports it, or a write was refused.
abbrev pub Over : Env → ℕ → Result (RunStatus × RunStats) → Db → Type 0
Over env run_id r committed =
    ((last : PipelineRun) × (find_first (has_run_id run_id) committed.runs ≡ some last)
      × Reports r last)
    ⊎ ((r ≡ raise Error.database_error) × Refused env)

module _ (env : Env) (cfg : Config) (agents : Agents) (run_id : ℕ) where
  settle-Over :
      (r : Result (Option String)) (st : RunState) (row : PipelineRun)
      → find_first (has_run_id run_id) st.session.current.runs ≡ some row
      → let (out, end) = settle env cfg agents run_id r st in
        Over env run_id out end.session.committed
  unfolding settle finish crash
  settle-Over (ok reason) st row h = elim (Bool-cases (env.accepts st.session.draws)) [
    | inr refused ↦ rw refused (inr (refl, (st.session.draws, refused)))
    | inl taken ↦ rw taken (
        inl (
          finished (final_status st.stats reason) (env.now st.session.draws) st.stats reason row,
          find_first-modify_first (has_run_id run_id) _ st.session.current.runs row h
              (find_first-holds (has_run_id run_id) st.session.current.runs row h),
          (refl, refl, final_status-finished st.stats reason),
        ))
  ]
  settle-Over (raise e) st row h = elim (Bool-cases (env.accepts st.session.draws)) [
    | inr refused ↦ rw refused (inr (refl, (st.session.draws, refused)))
    | inl taken ↦ rw taken (
        inl (
          record row {
            status = RunStatus.failed;
            finished_at = some (env.now st.session.draws);
            max_items = none;
            stats = some st.stats;
            crashed = true;
          },
          find_first-modify_first (has_run_id run_id) _ st.session.current.runs row h
              (find_first-holds (has_run_id run_id) st.session.current.runs row h),
          (refl, refl),
        ))
  ]

module _ (env : Env) (cfg : Config) (desk : Desk) (run_id : ℕ) where
  -- A run whose row exists ends, whatever the language model answers and whichever tools it calls,
  -- and unless the database has refused a write, the committed row says how: what execute_run returns
  -- is the status and the statistics of the row, and the status is `completed`, where the statistics
  -- name no failed step, or `partial`; if it raises, the row is marked failed and crashed. Where a
  -- write was refused, execute_run may raise the error of the database in place of that.
  pub execute_run-Reports :
      (chosen : List AgentName) (max_items : Option ℕ) (s : Session)
      → HasRun run_id s.current
      → HasRun run_id s.committed
      → let (out, end) =
          execute_run env cfg (team env desk (some run_id)) run_id chosen max_items s in
        Over env run_id out end.committed
  unfolding execute_run run_loaded
  execute_run-Reports chosen max_items s (row, h) k =
      let agents = team env desk (some run_id) in
      let begin : RunState = record { session = s; stats = no_stats } in
      let limit = item_limit env cfg agents run_id max_items in
      let (r, st) = run_steps env cfg agents run_id chosen limit begin in
      let closed = Writes-HasRun env run_id in
      let ((row', h'), _) =
        (run_steps-Keeps env cfg agents run_id (HasRun run_id) closed
            (team-Keeps env desk (some run_id) (HasRun run_id) closed) chosen limit).at
          begin ((row, h), k) in
      rw h (settle-Over env cfg agents run_id r st row' h')
