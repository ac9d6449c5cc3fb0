-- ===== src/Briefings.antt =====
-- The reads of app/api/briefings.py: which briefings a user is shown, and what one of them shows. The
-- texts of the bodies are left out, as in the table.
pub mod Visibility
use danah_v.Prelude.{
  ℕ, Bool, ◌&&◌, Option, none, List, ◌==◌, filterb, sort_by, take, drop, find_first,
}
use danah_v.Enums.{ApprovalSubject}
use danah_v.Exceptions.{Error}
use danah_v.Models.{Approval, Briefing, Db, User}
use danah_v.Session.{Action, pure, query, one_or, ◌>>=◌}
use danah_v.Security.{user_clearance}
use danah_v.Approvals.{approval_for_subject}
use danah_v.Insights.{
  Citation, RawCitations, citations_for, has_status, is_within, visible_statuses,
}

-- _visibility: the clearance and the status.
unfoldable pub is_visible : User → Briefing → Bool
unfolding visible_statuses
is_visible user b =
    is_within (user_clearance user) b.classification
    && has_status b.status (visible_statuses user none)

-- `newer` is date DESC, created_at DESC.
unfoldable pub list_briefings : User → ℕ → ℕ → (Briefing → Briefing → Bool) → Db → List Briefing
unfolding is_visible
list_briefings user limit offset newer db =
    take limit (drop offset (sort_by newer (filterb (is_visible user) db.briefings)))

pub record BriefingDetail : Type 0 where
  pub briefing : Briefing
  pub citations : List Citation
  pub approval : Option Approval

abbrev pub raw_citations : Briefing → RawCitations
raw_citations b = RawCitations.grouped b.cited_items b.cited_chunks

abbrev pub detail_of : Briefing → List Citation → Option Approval → BriefingDetail
detail_of b citations approval = record { briefing = b; citations = citations; approval = approval }

unfoldable pub briefing_detail : Briefing → User → Action BriefingDetail
unfolding citations_for approval_for_subject
briefing_detail b user = do
  citations ← query (λ db. citations_for (user_clearance user) db (raw_citations b))
  approval ← query (approval_for_subject ApprovalSubject.briefing b.id)
  pure (detail_of b citations approval)

unfoldable pub find_visible : User → ℕ → Db → Option Briefing
unfolding is_visible
find_visible user id db = find_first (λ b. b.id == id && is_visible user b) db.briefings

unfoldable pub get_briefing : User → ℕ → Action BriefingDetail
unfolding find_visible briefing_detail
get_briefing user id = do
  found ← query (find_visible user id)
  b ← one_or Error.not_found found
  briefing_detail b user
