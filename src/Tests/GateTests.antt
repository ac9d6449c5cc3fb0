-- ===== src/Tests/GateTests.antt =====
-- Witnesses on approvals and the publication gate.
use danah_v.Prelude.{◌≡◌, refl, none, some, [], ◌∷◌, find_first}
use danah_v.Enums.{
  AgentName, ApprovalStatus, ApprovalSubject, PipelineTrigger, PublicationStatus, Role,
}
use danah_v.Exceptions.{Error, Result, ok, raise}
use danah_v.Models.{Approval, Db}
use danah_v.Session.{Session, get_db}
use danah_v.Approvals.{decision_outcome, subject_title, decide, ApprovalDecisionResponse}
use danah_v.Audit.{record_audit}
use danah_v.Approvals.Decision.{Decidable, decide-ok-Decidable, verdict}
use danah_v.Api.{decide_approval}
use danah_v.Gate.{Gated}
use danah_v.Orchestrator.{start_run}
use danah_v.Orchestrator.Run.Execute.{execute_run}
use danah_v.System.{Reach, start, next, decision, trigger, run_pipeline}
use danah_v.Gate.Unique.Keeps.{Unique}
use danah_v.System.Gate.{Reach-Gated}
use danah_v.System.Unique.{Reach-Unique}
use danah_v.Agents.Team.{team}
use danah_v.Tests.{sample_env, sample_desk, config, executive, first_db, first_session}

first_db-Gated : Gated first_db
first_db-Gated = record { insights_approved = ((λ e. cc), tt); briefings_approved = tt }

-- A run is triggered, it is executed, and an executive approves what it has queued.
abbrev triggered : Db
triggered = (get_db (start_run sample_env PipelineTrigger.manual (some 7) none) first_db 0).1

abbrev analysed : Db
analysed =
    (get_db (execute_run sample_env config (team sample_env sample_desk (some 100)) 100 [] none)
      triggered 2).1

abbrev approved : Db
approved = (get_db (decide_approval sample_env executive 110 "approved" "" none) analysed 40).1

history : Reach sample_env config sample_desk first_db approved
history =
    next analysed approved
      (next triggered analysed
        (next first_db triggered start (trigger PipelineTrigger.manual (some 7) none first_db 0))
        (run_pipeline 100 [] none triggered 2))
      (decision executive 110 "approved" "" none analysed 40)

Reach-Gated_example : Gated approved
Reach-Gated_example =
    Reach-Gated sample_env config sample_desk first_db approved first_db-Gated history

Reach-Unique_example : Unique approved
Reach-Unique_example = Reach-Unique sample_env config sample_desk first_db approved tt history

abbrev queued_row : Approval
queued_row = record {
  id = 30;
  subject_type = ApprovalSubject.insight;
  subject_id = 5;
  requested_by_agent = AgentName.risk;
  assigned_role = Role.executive;
  status = ApprovalStatus.pending;
  decided_by = none;
  decided_at = none;
  comment = none;
}

abbrev waiting : Session
waiting = record first_session { current = record first_db { approvals = queued_row ∷ [] } }

abbrev rejected : Result ApprovalDecisionResponse
rejected = verdict sample_env 30 executive "rejected" "Too vague." none waiting

abbrev response : ApprovalDecisionResponse
response = record {
  id = 30;
  status = ApprovalStatus.rejected;
  subject_type = ApprovalSubject.insight;
  subject_id = 5;
  subject_status = PublicationStatus.rejected;
  decided_by = 7;
  decided_at = 1000;
}

returned : rejected ≡ ok response
unfolding decide decision_outcome find_first subject_title record_audit
returned = refl

decide-ok-Decidable_example : Decidable sample_env 30 executive "rejected" "Too vague." none waiting
decide-ok-Decidable_example =
    decide-ok-Decidable sample_env 30 executive "rejected" "Too vague." none waiting response
      returned

unknown_refused :
    verdict sample_env 30 executive "publish" "" none waiting ≡ raise Error.invalid_request
unfolding decide decision_outcome
unknown_refused = refl
