-- ===== src/Pipeline/Trigger.antt =====
-- What a triggered run leaves (trigger_run of app/api/pipeline.py).
use danah_v.Prelude.{
  ℕ, suc, ◌≡◌, refl, String, true, false, Option, none, some, List, [], ◌∷◌, ◌++◌, Bool-cases, inl,
  inr, ◌⊎◌,
}
use danah_v.Enums.{ActorType, PipelineTrigger, RunStatus}
use danah_v.Exceptions.{Error, ok, raise}
use danah_v.Models.{Db, PipelineRun, Scalar, User}
use danah_v.Session.{Env, Session}
use danah_v.Security.{analyst_and_above, assert_role, has_role}
use danah_v.Audit.{entry_payload, record_audit, sealed_entry, tail_hash}
use danah_v.Orchestrator.{start_run, truthy}
use danah_v.Pipeline.{trigger_run}

-- The run that is triggered.
abbrev pub new_run : Env → User → Option ℕ → Session → PipelineRun
new_run env user max_items s = record {
  id = env.uuid4 s.draws;
  trigger = PipelineTrigger.manual;
  status = RunStatus.running;
  started_at = env.now (suc s.draws);
  finished_at = none;
  initiated_by = some user.id;
  max_items = truthy max_items;
  stats = none;
  stopped_early = none;
  crashed = false;
}

-- Everything that is committed before the job is handed over: the run, and its audit entry.
abbrev pub triggered_db :
    Env → User → Option String → Option ℕ → List (String × Scalar) → Session → Db
triggered_db env user ip max_items detail s = record s.current {
  runs = s.current.runs ++ new_run env user max_items s ∷ [];
  audit_log =
      s.current.audit_log
      ++ sealed_entry env (suc (suc (suc s.draws))) (tail_hash s.current.audit_log) (
          entry_payload (env.now (suc (suc s.draws))) (some user.id) ActorType.user "pipeline.run"
            (some "pipeline_run") (some (env.uuid4 s.draws)) ip detail)
        ∷ [];
}

-- A user below analyst is refused and nothing changes. For any other, the run row, `running`, and the
-- audit entry that names it are committed when the run id is given out, so that the worker and the
-- caller find the run.
pub trigger_run-committed :
    (env : Env) (user : User) (ip : Option String) (max_items : Option ℕ)
    (detail : List (String × Scalar)) (s : Session)
    → ((has_role user analyst_and_above ≡ true)
        × (trigger_run env user ip max_items detail s ≡ (
          ok (record { run_id = env.uuid4 s.draws; status = RunStatus.running }),
          record {
            current = triggered_db env user ip max_items detail s;
            committed = triggered_db env user ip max_items detail s;
            draws = suc (suc (suc (suc s.draws)));
          },
        )))
      ⊎ ((has_role user analyst_and_above ≡ false)
          × (trigger_run env user ip max_items detail s ≡ (raise Error.permission_denied, s)))
unfolding trigger_run assert_role start_run record_audit
trigger_run-committed env user ip max_items detail s =
    elim (Bool-cases (has_role user analyst_and_above)) [
      | inl senior ↦ inl (senior, rw senior refl)
      | inr junior ↦ inr (junior, rw junior refl)
    ]
