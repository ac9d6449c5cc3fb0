-- ===== src/Tests/PipelineTests.antt =====
-- A triggered run and a generated briefing.
use danah_v.Prelude.{◌≡◌, true, false, none, some, [], ◌⊎◌}
use danah_v.Enums.{RunStatus}
use danah_v.Exceptions.{Error, ok, raise}
use danah_v.Security.{analyst_and_above, has_role}
use danah_v.Pipeline.{trigger_run}
use danah_v.Pipeline.Trigger.{trigger_run-committed, triggered_db}
use danah_v.Tests.{executive, first_session, sample_env}

trigger_run-committed_example :
    ((has_role executive analyst_and_above ≡ true)
      × (trigger_run sample_env executive none (some 20) [] first_session ≡ (
        ok (record { run_id = 100; status = RunStatus.running }),
        record {
          current = triggered_db sample_env executive none (some 20) [] first_session;
          committed = triggered_db sample_env executive none (some 20) [] first_session;
          draws = 4;
        },
      )))
    ⊎ ((has_role executive analyst_and_above ≡ false)
        × (trigger_run sample_env executive none (some 20) [] first_session
            ≡ (raise Error.permission_denied, first_session)))
trigger_run-committed_example =
    trigger_run-committed sample_env executive none (some 20) [] first_session
