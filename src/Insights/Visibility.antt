-- ===== src/Insights/Visibility.antt =====
-- Who is shown which insight (list_insights and get_insight of app/api/insights.py).
use danah_v.Prelude.{
  ℕ, ◌≤◌, ◌≡◌, refl, Bool, true, false, Option, none, some, ◌==◌, arith, All, All-take, All-drop,
  All-sort_by, All-filterb, find_first-none, find_first-holds, All-mono, Option-cases, inl, inr,
  Bool-cases, ◌⊎◌,
}
use danah_v.Enums.{ApprovalSubject, PublicationStatus, Role, classification_rank}
use danah_v.Exceptions.{Error, ok, raise}
use danah_v.Models.{Db, Insight, User}
use danah_v.Session.{Session}
use danah_v.Security.{user_clearance}
use danah_v.Approvals.{approval_for_subject}
use danah_v.Insights.{
  InsightDetail, InsightFilter, citations_for, detail_of, raw_citations, find_visible, get_insight,
  has_status, is_viewer, is_visible, list_insights, selected_insights, visible_statuses,
}

-- Within the clearance, and published if the user is a viewer.
abbrev pub Visible : User → Insight → Type 0
Visible user i =
    (classification_rank i.classification ≤ classification_rank (user_clearance user))
    × (user.role ≡ Role.viewer → i.status ≡ PublicationStatus.published)

pub viewer_published :
    (role : Role) (requested : Option PublicationStatus) (status : PublicationStatus) (user : User)
    → user.role ≡ role
    → role ≡ Role.viewer
    → has_status status (visible_statuses user requested) ≡ true
    → status ≡ PublicationStatus.published
unfolding visible_statuses
viewer_published role requested status user e v h = ground (arith, e, v)

is_visible-Visible :
    (user : User) (requested : Option PublicationStatus) (i : Insight)
    → is_visible user requested i ≡ true
    → Visible user i
unfolding is_visible
is_visible-Visible user requested i h =
    (ground arith, λ v. viewer_published user.role requested i.status user refl v (ground arith))

-- Whatever a user asks for, no insight above the clearance of the user is listed, and to a viewer
-- only published ones are, on whatever page and in whatever order.
pub list_insights-Visible :
    (user : User) (f : InsightFilter) (newer : Insight → Insight → Bool) (db : Db)
    → All (Visible user) (list_insights user f newer db).items
unfolding list_insights selected_insights
list_insights-Visible user f newer db = All-take (Visible user) f.limit _ (
    All-drop (Visible user) f.offset _ (
      All-sort_by (Visible user) newer _ (
        All-filterb (Visible user) _ db.insights
          (λ i h. is_visible-Visible user f.status i (ground arith)))))

abbrev pub shown_detail : User → Db → Insight → InsightDetail
shown_detail user db i =
    detail_of i (citations_for (user_clearance user) db (raw_citations i))
      (approval_for_subject ApprovalSubject.insight i.id db)

-- The insight that is opened: one with this id that the user may see.
abbrev pub Opened : User → ℕ → Db → Insight → Type 0
Opened user id db i = (find_visible user id db ≡ some i) × (i.id ≡ id) × Visible user i

hidden_rejected :
    (user : User) (i : Insight)
    → i.status ≡ PublicationStatus.rejected
    → is_visible user none i ≡ false
unfolding is_visible visible_statuses
hidden_rejected user i h = elim (Bool-cases (is_viewer user)) [
  | inl viewer ↦ ground (arith, h, viewer)
  | inr staff ↦ ground (arith, h, staff)
]

module _ (user : User) (id : ℕ) where
  -- Opening an insight returns one with this id that the user may see, with its citations as the user
  -- may read them, or says "not found"; either way the session is as it was.
  pub get_insight-Opened :
      (s : Session)
      → ((i : Insight) × Opened user id s.current i
          × (get_insight user id s ≡ (ok (shown_detail user s.current i), s)))
        ⊎ (get_insight user id s ≡ (raise Error.not_found, s))
  unfolding get_insight find_visible
  get_insight-Opened s = elim (Option-cases (find_visible user id s.current)) [
    | inl missing ↦ inr (rw missing refl)
    | inr (i, found) ↦
        let h = find_first-holds _ s.current.insights i found in
        inl (i, (found, ground arith, is_visible-Visible user none i (ground arith)), rw found refl)
  ]

  -- If every insight with an id is rejected, whoever opens it is told that there is none, and the
  -- session stays as it is.
  pub get_insight-rejected :
      (s : Session)
      → All (λ i. (i.id == id) ≡ true → i.status ≡ PublicationStatus.rejected) s.current.insights
      → get_insight user id s ≡ (raise Error.not_found, s)
  unfolding get_insight find_visible
  get_insight-rejected s rejected =
      let nothing : find_visible user id s.current ≡ none = find_first-none _ s.current.insights (
        All-mono _ _
          (λ i h. elim (Bool-cases (i.id == id)) [
            | inl here ↦ rw here (hidden_rejected user i (h here))
            | inr there ↦ rw there refl
          ])
          s.current.insights rejected) in
      rw nothing refl
