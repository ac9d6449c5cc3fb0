-- ===== src/Approvals/Queue.antt =====
-- What submit_for_approval of app/services/approval_service.py does, case by case.
use danah_v.Prelude.{
  ℕ, String, str_append, suc, ◌≡◌, refl, ap, ◌∙◌, inl, inr, true, Option, none, some, [], ◌∷◌, ◌++◌,
  arith, if◌then◌else◌, find_first, modify_first, Option-cases, Bool-cases, find_first-append_none,
}
use danah_v.Enums.{
  ApprovalSubject, AgentName, Role, PublicationStatus, same_subject, subject_value,
  NotificationKind,
}
use danah_v.Exceptions.{Error, raise}
use danah_v.Models.{Approval, Db, Notification}
use danah_v.Session.{Env, Session}
use danah_v.Notifications.{notify_approval_pending, email_role}
use danah_v.Approvals.{
  is_pending, is_approved, subject_title, set_subject_status, is_for, approval_for_subject,
  pending_row, set_pending, submit_for_approval,
}

same_subject_refl : (t : ApprovalSubject) → same_subject t t ≡ true
same_subject_refl ApprovalSubject.insight = refl
same_subject_refl _ = refl

set_subject_status-runs :
    (t : ApprovalSubject) (id : ℕ) (status : PublicationStatus) (db : Db)
    → (set_subject_status t id status db).runs ≡ db.runs
unfolding set_subject_status
set_subject_status-runs ApprovalSubject.insight id status db = refl
set_subject_status-runs ApprovalSubject.briefing id status db = refl

is_for-pending_row :
    (n : ℕ) (t : ApprovalSubject) (id : ℕ) (agent : AgentName) (role : Role)
    → is_for t id (pending_row n t id agent role) ≡ true
is_for-pending_row n t id agent role = ground (arith, same_subject_refl t)

module _ (env : Env) (t : ApprovalSubject) (id : ℕ) (agent : AgentName) (role : Role) where
  abbrev pub row : Session → Approval
  row s = pending_row (env.uuid4 s.draws) t id agent role

  abbrev pub queued : Db → Db
  queued db =
      set_subject_status t id PublicationStatus.pending_approval
        (record db { approvals = modify_first (is_for t id) set_pending db.approvals })

  abbrev pub announced : String → ℕ → Db → Db
  announced title n db = record db {
    notifications = db.notifications ++ pending_notice title n ∷ [];
  }
    where
      pending_notice : String → ℕ → Notification
      pending_notice title n = record {
        id = env.uuid4 n;
        user_id = none;
        role = some Role.executive;
        kind = NotificationKind.approval_pending;
        title = str_append "Approval required: " title;
        subject_ref = (subject_value t, id);
        read_at = none;
      }

  -- The database after a submission of a subject with this title, by the approval on file.
  abbrev pub submitted : String → Session → Option Approval → Db
  submitted title s none =
      announced title (suc s.draws)
        (queued (record s.current { approvals = s.current.approvals ++ row s ∷ [] }))
  submitted title s (some a) =
      if is_approved a.status
      then s.current
      else if is_pending a.status
      then queued s.current
      else announced title (suc s.draws) (queued s.current)

  module _ (s : Session) where
    abbrev after : Session
    after = (submit_for_approval env t id agent role s).1

    -- A subject that does not exist is refused, and nothing is written.
    pub submit_for_approval-missing :
        subject_title t id s.current ≡ none
        → submit_for_approval env t id agent role s ≡ (raise Error.not_found, s)
    unfolding submit_for_approval
    submit_for_approval-missing h = ground arith

    pub row_found :
        approval_for_subject t id s.current ≡ none
        → find_first (is_for t id) (s.current.approvals ++ row s ∷ []) ≡ some (row s)
    unfolding approval_for_subject find_first
    row_found h =
        rw (find_first-append_none (is_for t id) s.current.approvals (row s ∷ []) h)
          (rw (is_for-pending_row (env.uuid4 s.draws) t id agent role))

    submitted-new :
        (title : String)
        → subject_title t id s.current ≡ some title
        → approval_for_subject t id s.current ≡ none
        → after.current ≡ submitted title s none
    unfolding submit_for_approval notify_approval_pending email_role
    submitted-new title h k = ground (arith, row_found k)

    submitted-old :
        (title : String) (a : Approval)
        → subject_title t id s.current ≡ some title
        → approval_for_subject t id s.current ≡ some a
        → after.current ≡ submitted title s (some a)
    unfolding submit_for_approval notify_approval_pending email_role
    submitted-old title a h k = ground arith

    -- The submission of a subject that exists does to the database what `submitted` says, whether it
    -- returns or its email raises.
    pub submit_for_approval-current :
        (title : String)
        → subject_title t id s.current ≡ some title
        → after.current ≡ submitted title s (approval_for_subject t id s.current)
    submit_for_approval-current title h =
        elim (Option-cases (approval_for_subject t id s.current)) [
          | inl k ↦ rw k (submitted-new title h k)
          | inr (a, k) ↦ rw k (submitted-old title a h k)
        ]

    -- Nothing is committed on the way.
    pub submit_for_approval-committed : after.committed ≡ s.committed
    unfolding submit_for_approval notify_approval_pending email_role
    submit_for_approval-committed = ground arith

    submitted-runs :
        (title : String) (o : Option Approval) → (submitted title s o).runs ≡ s.current.runs
    submitted-runs title none = set_subject_status-runs t id PublicationStatus.pending_approval _
    submitted-runs title (some a) = elim (Bool-cases (is_approved a.status)) [
      | inl e ↦ rw e
      | inr e ↦ elim (Bool-cases (is_pending a.status)) [
        | inl p ↦ rw (e, p) (set_subject_status-runs t id PublicationStatus.pending_approval _)
        | inr p ↦ rw (e, p) (set_subject_status-runs t id PublicationStatus.pending_approval _)
      ]
    ]

    -- The runs are no part of a submission.
    pub submit_for_approval-runs : after.current.runs ≡ s.current.runs
    submit_for_approval-runs = elim (Option-cases (subject_title t id s.current)) [
      | inl missing ↦ ap (λ x. x.1.current.runs) (submit_for_approval-missing missing)
      | inr (title, h) ↦
          ap (λ db. db.runs) (submit_for_approval-current title h) ∙ submitted-runs title _
    ]
