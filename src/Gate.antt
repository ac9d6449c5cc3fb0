-- ===== src/Gate.antt =====
-- The publication gate across the whole database: what has to stand behind a published subject
-- (app/services/approval_service.py and the route of app/api/approvals.py).
pub mod Keeps
pub mod Decide
pub mod Unique
use danah_v.Prelude.{
  ℕ, String, ◌≡◌, refl, sym, ◌≢◌, ◌⊎◌, inl, inr, Bool, true, false, Option, some, none, List, [],
  ◌∷◌, ◌++◌, arith, subst, find_first, modify_first, All, Any, All-mono, Any-mono, All-append,
  Any-append_left, Any-append_right, All-modify_first, Any-modify_first, Any-modify_first_found,
  ==_iff, ◌==◌,
}
use danah_v.Enums.{
  ActorType, ApprovalStatus, ApprovalSubject, PublicationStatus, Role, role_value, subject_value,
}
use danah_v.Models.{Approval, AuditLog, Briefing, Db, Insight, Scalar}
use danah_v.Approvals.{has_insight_id, has_briefing_id, set_subject_status}

-- An audit entry that records a decision on the subject, taken by this user in a senior role.
pub record IsDecision (t : ApprovalSubject) (id decider : ℕ) (e : AuditLog) : Type 0 where
  pub action : e.payload.action ≡ "approval.decision"
  pub actor_type : e.payload.actor_type ≡ ActorType.user
  pub actor : e.payload.actor_id ≡ some decider
  pub subject_type : e.payload.subject_type ≡ some (subject_value t)
  pub subject : e.payload.subject_id ≡ some id
  pub role : Role
  pub senior : (role ≡ Role.admin) ⊎ (role ≡ Role.executive)
  pub named : Any (λ kv. kv ≡ ("decided_by_role", Scalar.text (role_value role))) e.payload.detail

-- An approval of the subject that names the person who decided, with the audit entry of that.
pub record Approves (t : ApprovalSubject) (id : ℕ) (log : List AuditLog) (a : Approval)
    : Type 0 where
  pub subject_type : a.subject_type ≡ t
  pub subject : a.subject_id ≡ id
  pub approved : a.status ≡ ApprovalStatus.approved
  pub decider : ℕ
  pub decided : a.decided_by ≡ some decider
  pub audited : Any (IsDecision t id decider) log

abbrev pub Approved : List AuditLog → List Approval → ApprovalSubject → ℕ → Type 0
Approved log approvals t id = Any (Approves t id log) approvals

-- Every published subject has been approved by a person.
pub record GatedRows (log : List AuditLog) (approvals : List Approval) (insights : List Insight)
    (briefings : List Briefing) : Type 0 where
  pub insights_approved :
      All
        (λ i.
          i.status ≡ PublicationStatus.published
          → Approved log approvals ApprovalSubject.insight i.id)
        insights
  pub briefings_approved :
      All
        (λ b.
          b.status ≡ PublicationStatus.published
          → Approved log approvals ApprovalSubject.briefing b.id)
        briefings

abbrev pub Gated : Db → Type 0
Gated db = GatedRows db.audit_log db.approvals db.insights db.briefings

pub Approved-log :
    (log more : List AuditLog) (approvals : List Approval) (t : ApprovalSubject) (id : ℕ)
    → Approved log approvals t id
    → Approved (log ++ more) approvals t id
Approved-log log more approvals t id h =
    Any-mono (Approves t id log) (Approves t id (log ++ more))
      (λ a x. record {
        subject_type = x.subject_type;
        subject = x.subject;
        approved = x.approved;
        decider = x.decider;
        decided = x.decided;
        audited = Any-append_left (IsDecision t id x.decider) log more x.audited;
      })
      approvals h

-- Changing an approval that is not approved takes nothing away.
pub Approved-modify :
    (log : List AuditLog) (p : Approval → Bool) (f : Approval → Approval)
    (approvals : List Approval) (a : Approval) (t : ApprovalSubject) (id : ℕ)
    → find_first p approvals ≡ some a
    → a.status ≢ ApprovalStatus.approved
    → Approved log approvals t id
    → Approved log (modify_first p f approvals) t id
Approved-modify log p f approvals a t id found unapproved h =
    Any-modify_first (Approves t id log) p f approvals a found (λ x. unapproved x.approved) h

-- More approvals and a longer log keep the gate.
pub GatedRows-mono :
    (log log' : List AuditLog) (rows rows' : List Approval) (insights : List Insight)
    (briefings : List Briefing)
    → ((t : ApprovalSubject) (id : ℕ) → Approved log rows t id → Approved log' rows' t id)
    → GatedRows log rows insights briefings
    → GatedRows log' rows' insights briefings
GatedRows-mono log log' rows rows' insights briefings keep g = record {
  insights_approved =
      All-mono _ _ (λ i h p. keep ApprovalSubject.insight i.id (h p)) insights g.insights_approved;
  briefings_approved =
      All-mono _ _ (λ b h p. keep ApprovalSubject.briefing b.id (h p)) briefings
        g.briefings_approved;
}

-- A subject may be given any status, `published` only if it has been approved.
pub set_subject_status-Gated :
    (log : List AuditLog) (approvals : List Approval) (t : ApprovalSubject) (id : ℕ)
    (status : PublicationStatus) (db : Db)
    → (status ≡ PublicationStatus.published → Approved log approvals t id)
    → GatedRows log approvals db.insights db.briefings
    → GatedRows log approvals
        (set_subject_status t id status db).insights
        (set_subject_status t id status db).briefings
unfolding set_subject_status
set_subject_status-Gated log approvals ApprovalSubject.insight id status db ok g = record {
  insights_approved =
      All-modify_first _ (has_insight_id id) (λ i. record i { status = status }) db.insights
        (λ i here _ p.
          subst (Approved log approvals ApprovalSubject.insight) (sym ((==_iff i.id id).0 here))
            (ok p))
        g.insights_approved;
  briefings_approved = g.briefings_approved;
}
set_subject_status-Gated log approvals ApprovalSubject.briefing id status db ok g = record {
  insights_approved = g.insights_approved;
  briefings_approved =
      All-modify_first _ (has_briefing_id id) (λ b. record b { status = status }) db.briefings
        (λ b here _ p.
          subst (Approved log approvals ApprovalSubject.briefing) (sym ((==_iff b.id id).0 here))
            (ok p))
        g.briefings_approved;
}

-- The status of a subject is no part of the approvals and of the log.
pub set_subject_status_frame :
    (t : ApprovalSubject) (id : ℕ) (status : PublicationStatus) (db : Db)
    → ((set_subject_status t id status db).approvals ≡ db.approvals)
      × ((set_subject_status t id status db).audit_log ≡ db.audit_log)
unfolding set_subject_status
set_subject_status_frame ApprovalSubject.insight id status db = (refl, refl)
set_subject_status_frame ApprovalSubject.briefing id status db = (refl, refl)
