-- ===== src/System/Unique.antt =====
-- One approval for each subject over every history of requests and pipeline runs.

use danah_v.Models.{Db}
use danah_v.Session.{Env}
use danah_v.Notifications.{mark_read}
use danah_v.Agents.Team.{Desk}
use danah_v.Orchestrator.{start_run}
use danah_v.Orchestrator.Run.{Config}
use danah_v.Gate.Unique.Keeps.{Unique, Writes-Unique, decide_approval-Unique}
use danah_v.System.Invariants.{Kept, reach_keeps}
use danah_v.System.{Reach}

Unique-Kept : (env : Env) → Kept env Unique
unfolding mark_read start_run
Unique-Kept env = record {
  decides = decide_approval-Unique env;
  reads = λ user ids. record { at = λ s h. h };
  triggers = λ by initiated_by max_items. record { at = λ s h. h };
  writes = Writes-Unique env;
  actions = record { audit = λ db e u. u; create = λ db id now by payload u. u };
  changes = λ payload db id u. u;
}

module _ (env : Env) (cfg : Config) (desk : Desk) where
  -- Whatever requests and pipeline runs happen, in any order, and whatever the language model answers
  -- and whichever tools it calls, no subject has two approvals, if none had at the start: a subject
  -- that is submitted again uses the approval that it has.
  pub Reach-Unique : (first db : Db) → Unique first → Reach env cfg desk first db → Unique db
  Reach-Unique first db h path = reach_keeps env cfg desk Unique (Unique-Kept env) first db h path
