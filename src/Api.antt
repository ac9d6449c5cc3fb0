-- ===== src/Api.antt =====
-- The routes of app/api/ that call a modelled service: a role is asserted first.
use danah_v.Prelude.{ℕ, String, Option}
use danah_v.Models.{User}
use danah_v.Session.{Env, Action, ◌>>◌}
use danah_v.Security.{assert_role, executive_and_above}
use danah_v.Approvals.{ApprovalDecisionResponse, decide}

-- POST /api/approvals/{approval_id}/decision
unfoldable pub decide_approval :
    Env → User → ℕ → String → String → Option String → Action ApprovalDecisionResponse
unfolding assert_role
decide_approval env user approval_id decision comment ip = do
  assert_role user executive_and_above
  decide env approval_id user decision comment ip
