-- ===== src/Briefings/Visibility.antt =====
-- Who is shown which briefing (list_briefings and get_briefing of app/api/briefings.py).
use danah_v.Prelude.{
  ℕ, ◌≤◌, ◌≡◌, refl, Bool, true, Option, arith, All, All-take, All-drop, All-sort_by, All-filterb,
  find_first-holds, Option-cases, inl, inr, ◌⊎◌,
}
use danah_v.Enums.{ApprovalSubject, PublicationStatus, Role, classification_rank}
use danah_v.Exceptions.{Error, ok, raise}
use danah_v.Models.{Briefing, Db, User}
use danah_v.Session.{Session}
use danah_v.Security.{user_clearance}
use danah_v.Approvals.{approval_for_subject}
use danah_v.Insights.{citations_for}
use danah_v.Insights.Visibility.{viewer_published}
use danah_v.Insights.Citations.{Shown, citations_for-Shown}
use danah_v.Briefings.{
  BriefingDetail, briefing_detail, detail_of, find_visible, get_briefing, is_visible,
  list_briefings, raw_citations,
}

-- Within the clearance, and published if the user is a viewer.
abbrev pub IsShown : User → Briefing → Type 0
IsShown user b =
    (classification_rank b.classification ≤ classification_rank (user_clearance user))
    × (user.role ≡ Role.viewer → b.status ≡ PublicationStatus.published)

is_visible-IsShown : (user : User) (b : Briefing) → is_visible user b ≡ true → IsShown user b
unfolding is_visible
is_visible-IsShown user b h =
    (ground arith, λ v. viewer_published user.role Option.none b.status user refl v (ground arith))

-- No briefing above the clearance of the user is listed, and to a viewer only published ones are, on
-- whatever page and in whatever order.
pub list_briefings-IsShown :
    (user : User) (limit offset : ℕ) (newer : Briefing → Briefing → Bool) (db : Db)
    → All (IsShown user) (list_briefings user limit offset newer db)
unfolding list_briefings
list_briefings-IsShown user limit offset newer db = All-take (IsShown user) limit _ (
    All-drop (IsShown user) offset _ (
      All-sort_by (IsShown user) newer _
        (All-filterb (IsShown user) _ db.briefings (λ b h. is_visible-IsShown user b h))))

abbrev pub shown_detail : User → Db → Briefing → BriefingDetail
shown_detail user db b =
    detail_of b (citations_for (user_clearance user) db (raw_citations b))
      (approval_for_subject ApprovalSubject.briefing b.id db)

module _ (user : User) (id : ℕ) where
  -- What is opened: a briefing with this id that the user may see, with citations that are numbered
  -- from 1 and that the user may read, and with its approval.
  abbrev pub Opens : Db → BriefingDetail → Type 0
  Opens db detail =
      (detail.briefing.id ≡ id)
      × IsShown user detail.briefing
      × Shown (user_clearance user) db detail.citations
      × (detail.approval ≡ approval_for_subject ApprovalSubject.briefing id db)

  -- Opening a briefing gives one with this id that the user may see, with its approval and with
  -- citations that are numbered from 1 without a gap and that each name an item or a document chunk
  -- which exists and is within the clearance of the user; or it says "not found". Either way the
  -- session stays as it is.
  pub get_briefing-Opens :
      (s : Session)
      → ((detail : BriefingDetail) × (get_briefing user id s ≡ (ok detail, s))
          × Opens s.current detail)
        ⊎ (get_briefing user id s ≡ (raise Error.not_found, s))
  unfolding get_briefing find_visible briefing_detail
  get_briefing-Opens s = elim (Option-cases (find_visible user id s.current)) [
    | inl missing ↦ inr (rw missing refl)
    | inr (b, found) ↦
        let h = find_first-holds _ s.current.briefings b found in
        let here : b.id ≡ id = ground arith in
        inl (
          shown_detail user s.current b,
          rw found refl,
          (
            here,
            is_visible-IsShown user b (ground arith),
            citations_for-Shown (user_clearance user) s.current (raw_citations b),
            rw here refl,
          ),
        )
  ]
