-- ===== src/System/Gate.antt =====
-- The publication gate over every history of requests and pipeline runs.

use danah_v.Models.{Db}
use danah_v.Session.{Env}
use danah_v.Notifications.{mark_read}
use danah_v.Agents.Team.{Desk}
use danah_v.Orchestrator.{start_run}
use danah_v.Orchestrator.Drafts.{Writes-Gated}
use danah_v.Orchestrator.Run.{Config}
use danah_v.Audit.Keeps.{AuditWrites}
use danah_v.Prelude.{[], ◌∷◌, ◌++◌}
use danah_v.Gate.{Approved-log, Gated, GatedRows-mono}
use danah_v.Gate.Decide.{decide_approval-Gated}
use danah_v.System.Invariants.{Kept, reach_keeps}
use danah_v.System.{Reach}

audit_entry-Gated : AuditWrites Gated
audit_entry-Gated db e g =
    GatedRows-mono db.audit_log (db.audit_log ++ e ∷ []) db.approvals db.approvals db.insights
      db.briefings (Approved-log db.audit_log (e ∷ []) db.approvals) g

Gated-Kept : (env : Env) → Kept env Gated
unfolding mark_read start_run
Gated-Kept env = record {
  decides = decide_approval-Gated env;
  reads = λ user ids. record { at = λ s h. h };
  triggers = λ by initiated_by max_items. record { at = λ s h. h };
  writes = Writes-Gated env;
  actions = record { audit = audit_entry-Gated; create = λ db id now by payload g. g };
  changes = λ payload db id g. g;
}

module _ (env : Env) (cfg : Config) (desk : Desk) where
  -- The publication gate: whatever requests and pipeline runs happen, in any order, and whatever the
  -- language model answers and whichever tools it calls, every insight and briefing that is published
  -- has an approval that a person gave and that the audit log records under an admin's or an
  -- executive's role, if that held at the start.
  pub Reach-Gated : (first db : Db) → Gated first → Reach env cfg desk first db → Gated db
  Reach-Gated first db h path = reach_keeps env cfg desk Gated (Gated-Kept env) first db h path
