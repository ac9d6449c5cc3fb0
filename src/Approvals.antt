-- ===== src/Approvals.antt =====
-- app/services/approval_service.py: the publication gate. An agent's draft reaches the queue, and
-- a person decides.
pub mod Queue
pub mod Decision
use Prim.Native.String.{count}
use danah_v.Prelude.{
  ℕ, String, str_eq, ◌≡◌, Bool, true, false, not, ◌&&◌, ◌||◌, Option, none, some, List, [], ◌∷◌,
  ◌++◌, ◌==◌, if◌then◌else◌, is_none, find_first, modify_first,
}
use danah_v.Enums.{
  ActorType, AgentName, agent_value, ApprovalStatus, ApprovalSubject, same_subject, subject_value,
  PublicationStatus, publication_value, Role, role_value,
}
use danah_v.Exceptions.{Error}
use danah_v.Models.{Db, Approval, Briefing, Insight, Scalar, User}
use danah_v.Session.{
  then_return, Env, Session, Action, pure, throw, query, write, draw, one_or, ◌>>=◌, ◌>>◌,
}
use danah_v.Audit.{record_audit}
use danah_v.Notifications.{notify_approval_pending, notify_briefing_published}

-- DECISION_OUTCOMES.
unfoldable pub decision_outcome : String → Option (ApprovalStatus × PublicationStatus)
decision_outcome decision =
    if str_eq decision "approved"
    then some (ApprovalStatus.approved, PublicationStatus.published)
    else if str_eq decision "rejected"
    then some (ApprovalStatus.rejected, PublicationStatus.rejected)
    else if str_eq decision "changes_requested"
    then some (ApprovalStatus.changes_requested, PublicationStatus.pending_approval)
    else none

abbrev pub is_pending : ApprovalStatus → Bool
is_pending ApprovalStatus.pending = true
is_pending _ = false

abbrev pub is_approved : ApprovalStatus → Bool
is_approved ApprovalStatus.approved = true
is_approved _ = false

abbrev pub has_insight_id : ℕ → Insight → Bool
has_insight_id id i = i.id == id

abbrev pub has_briefing_id : ℕ → Briefing → Bool
has_briefing_id id b = b.id == id

-- The title of the subject that an approval points at, or nothing.
unfoldable pub subject_title : ApprovalSubject → ℕ → Db → Option String
subject_title ApprovalSubject.insight id db = elim (find_first (has_insight_id id) db.insights) [
  | none ↦ none
  | some i ↦ some i.title
]
subject_title ApprovalSubject.briefing id db = elim (find_first (has_briefing_id id) db.briefings) [
  | none ↦ none
  | some b ↦ some b.title
]

-- _resolve_subject: the services use the title of what it returns, and set its status.
unfoldable pub resolve_subject : ApprovalSubject → ℕ → Action String
resolve_subject subject_type subject_id = do
  found ← query (subject_title subject_type subject_id)
  one_or Error.not_found found

-- subject.status = status, on the row that _resolve_subject loads.
unfoldable pub set_subject_status : ApprovalSubject → ℕ → PublicationStatus → Db → Db
set_subject_status ApprovalSubject.insight id status db = record db {
  insights = modify_first (has_insight_id id) (λ i. record i { status = status }) db.insights;
}
set_subject_status ApprovalSubject.briefing id status db = record db {
  briefings = modify_first (has_briefing_id id) (λ b. record b { status = status }) db.briefings;
}

-- The unique key of an approval.
abbrev pub is_for : ApprovalSubject → ℕ → Approval → Bool
is_for subject_type subject_id a =
    same_subject a.subject_type subject_type && a.subject_id == subject_id

unfoldable pub approval_for_subject : ApprovalSubject → ℕ → Db → Option Approval
approval_for_subject subject_type subject_id db =
    find_first (is_for subject_type subject_id) db.approvals

abbrev pub pending_row : ℕ → ApprovalSubject → ℕ → AgentName → Role → Approval
pending_row id subject_type subject_id agent role = record {
  id = id;
  subject_type = subject_type;
  subject_id = subject_id;
  requested_by_agent = agent;
  assigned_role = role;
  status = ApprovalStatus.pending;
  decided_by = none;
  decided_at = none;
  comment = none;
}

-- INSERT … ON CONFLICT DO NOTHING RETURNING id: whether a row was written.
unfoldable pub insert_approval : Approval → Db → Db × Bool
unfolding approval_for_subject
insert_approval row db = elim (approval_for_subject row.subject_type row.subject_id db) [
  | none ↦ (record db { approvals = db.approvals ++ row ∷ [] }, true)
  | some _ ↦ (db, false)
]

abbrev pub set_pending : Approval → Approval
set_pending a = record a { status = ApprovalStatus.pending }

unfoldable pub submit_for_approval : Env → ApprovalSubject → ℕ → AgentName → Role → Action Approval
unfolding resolve_subject insert_approval approval_for_subject
submit_for_approval env subject_type subject_id agent role = do
  title ← resolve_subject subject_type subject_id
  id ← draw env.uuid4
  let row = pending_row id subject_type subject_id agent role
  inserted ← query (λ db. (insert_approval row db).1)
  write (λ db. (insert_approval row db).0)
  found ← query (approval_for_subject subject_type subject_id)
  approval ← one_or Error.approval_error found
  if is_approved approval.status then pure approval else do
    let reopened = not (is_pending approval.status)
    write (λ db. record db {
      approvals = modify_first (is_for subject_type subject_id) set_pending db.approvals;
    })
    write (set_subject_status subject_type subject_id PublicationStatus.pending_approval)
    let pending =
        if inserted || reopened
        then notify_approval_pending env subject_type subject_id title
        else pure tt
    then_return pending (set_pending approval)

-- The response of a decision.
pub record ApprovalDecisionResponse : Type 0 where
  pub id : ℕ
  pub status : ApprovalStatus
  pub subject_type : ApprovalSubject
  pub subject_id : ℕ
  pub subject_status : PublicationStatus
  pub decided_by : ℕ
  pub decided_at : ℕ

abbrev pub decided : ApprovalStatus → ℕ → ℕ → String → Approval → Approval
decided status user_id now comment a = record a {
  status = status;
  decided_by = some user_id;
  decided_at = some now;
  comment = if str_eq comment "" then none else some comment;
}

abbrev pub has_approval_id : ℕ → Approval → Bool
has_approval_id id a = a.id == id

abbrev pub is_briefing : ApprovalSubject → Bool
is_briefing ApprovalSubject.insight = false
is_briefing ApprovalSubject.briefing = true

-- What the audit entry of a decision says beside its actor and its subject.
abbrev pub decision_detail :
    Approval → String → PublicationStatus → Role → String → List (String × Scalar)
decision_detail a decision subject_status role comment =
    ("approval_id", Scalar.ident a.id)
    ∷ ("decision", Scalar.text decision)
    ∷ ("subject_status", Scalar.text (publication_value subject_status))
    ∷ ("requested_by_agent", Scalar.text (agent_value a.requested_by_agent))
    ∷ ("assigned_role", Scalar.text (role_value a.assigned_role))
    ∷ ("decided_by_role", Scalar.text (role_value role))
    ∷ ("comment_chars", Scalar.number (count comment))
    ∷ []

-- The notification of a decision, where one is due.
announce : Env → Bool → ℕ → String → Action Unit
announce env due briefing_id title =
    if due then notify_briefing_published env briefing_id title else pure tt

unfoldable pub decide :
    Env → ℕ → User → String → String → Option String → Action ApprovalDecisionResponse
unfolding decision_outcome resolve_subject announce
decide env approval_id user decision comment ip = do
  (status, subject_status) ← one_or Error.invalid_request (decision_outcome decision)
  found ← query (λ db. find_first (has_approval_id approval_id) db.approvals)
  approval ← one_or Error.not_found found
  if not (is_pending approval.status) then throw Error.approval_error else do
    title ← resolve_subject approval.subject_type approval.subject_id
    now ← draw env.now
    write (λ db. record db {
      approvals =
          modify_first (has_approval_id approval_id) (decided status user.id now comment)
            db.approvals;
    })
    write (set_subject_status approval.subject_type approval.subject_id subject_status)
    record_audit env "approval.decision" ActorType.user (some user.id)
        (some (subject_value approval.subject_type)) (some approval.subject_id) ip
        (decision_detail approval decision subject_status user.role comment)
    then_return
        (announce env (is_approved status && is_briefing approval.subject_type) approval.subject_id
          title)
        (record {
          id = approval.id;
          status = status;
          subject_type = approval.subject_type;
          subject_id = approval.subject_id;
          subject_status = subject_status;
          decided_by = user.id;
          decided_at = now;
        })
