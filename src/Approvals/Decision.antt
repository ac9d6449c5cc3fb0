-- ===== src/Approvals/Decision.antt =====
-- What decide of app/services/approval_service.py does, case by case.
use danah_v.Prelude.{
  true, ◌⊎◌, Bool-cases, ℕ, suc, String, ◌≡◌, Option, some, [], ◌∷◌, ◌++◌, arith, find_first,
  modify_first, inl, inr, Option-cases,
}
use danah_v.Enums.{ActorType, ApprovalStatus, PublicationStatus, subject_value}
use danah_v.Exceptions.{Result, ok}
use danah_v.Models.{Approval, AuditLog, Db, User}
use danah_v.Session.{Env, Session}
use danah_v.Audit.{entry_payload, sealed_entry, tail_hash, record_audit}
use danah_v.Notifications.{notify_briefing_published, email_role}
use danah_v.Approvals.{
  is_pending, decision_outcome, subject_title, set_subject_status, ApprovalDecisionResponse,
  decided, has_approval_id, decision_detail, decide,
}

module _ (env : Env) (approval_id : ℕ) (user : User) (decision comment : String)
    (ip : Option String) (s : Session) where
  abbrev pub verdict : Result ApprovalDecisionResponse
  verdict = (decide env approval_id user decision comment ip s).0

  abbrev pub after : Session
  after = (decide env approval_id user decision comment ip s).1

  -- The conditions under which a decision is taken.
  pub record Decidable : Type 0 where
    pub status : ApprovalStatus
    pub subject_status : PublicationStatus
    pub approval : Approval
    pub title : String
    pub known : decision_outcome decision ≡ some (status, subject_status)
    pub found : find_first (has_approval_id approval_id) s.current.approvals ≡ some approval
    pub waiting : approval.status ≡ ApprovalStatus.pending
    pub exists : subject_title approval.subject_type approval.subject_id s.current ≡ some title

  abbrev pub settled : Approval → ApprovalStatus → PublicationStatus → Db
  settled a status subject_status =
      set_subject_status a.subject_type a.subject_id subject_status (record s.current {
        approvals =
            modify_first (has_approval_id approval_id)
              (decided status user.id (env.now s.draws) comment) s.current.approvals;
      })

  abbrev pub entry : Approval → ApprovalStatus → PublicationStatus → AuditLog
  entry a status subject_status =
      sealed_entry env (suc (suc s.draws)) (tail_hash (settled a status subject_status).audit_log) (
        entry_payload (env.now (suc s.draws)) (some user.id) ActorType.user "approval.decision"
          (some (subject_value a.subject_type)) (some a.subject_id) ip
          (decision_detail a decision subject_status user.role comment))

  abbrev pub logged : Approval → ApprovalStatus → PublicationStatus → Db
  logged a status subject_status =
      let db = settled a status subject_status in
      record db { audit_log = db.audit_log ++ entry a status subject_status ∷ [] }

  -- A known decision on a pending approval of an existing subject gives the approval and the subject
  -- the status that it maps to and appends one audit entry, whether it returns or its email raises.
  pub decide-current :
      (d : Decidable)
      → (after.current.approvals ≡ (logged d.approval d.status d.subject_status).approvals)
        × (after.current.insights ≡ (logged d.approval d.status d.subject_status).insights)
        × (after.current.briefings ≡ (logged d.approval d.status d.subject_status).briefings)
        × (after.current.audit_log ≡ (logged d.approval d.status d.subject_status).audit_log)
  unfolding decide record_audit notify_briefing_published email_role
  decide-current d = ground (arith, d.known, d.found, d.waiting, d.exists)

  is_pending-eq :
      (status : ApprovalStatus) → is_pending status ≡ true → status ≡ ApprovalStatus.pending
  is_pending-eq status h = ground arith

  -- Any other call has written nothing.
  pub decide-cases : (after ≡ s) ⊎ Decidable
  unfolding decide
  decide-cases = elim (Option-cases (decision_outcome decision)) [
    | inl unknown ↦ inl (ground arith)
    | inr ((status, subject_status), known) ↦
        elim (Option-cases (find_first (has_approval_id approval_id) s.current.approvals)) [
          | inl missing ↦ inl (ground arith)
          | inr (a, found) ↦ elim (Bool-cases (is_pending a.status)) [
            | inr decided_before ↦ inl (ground arith)
            | inl waiting ↦
                elim (Option-cases (subject_title a.subject_type a.subject_id s.current)) [
                  | inl gone ↦ inl (ground arith)
                  | inr (title, exists) ↦ inr (record {
                    status = status;
                    subject_status = subject_status;
                    approval = a;
                    title = title;
                    known = known;
                    found = found;
                    waiting = is_pending-eq a.status waiting;
                    exists = exists;
                  })
                ]
          ]
        ]
  ]

  -- A decision that returns was a known decision on an existing approval that was pending, of a
  -- subject that exists.
  pub decide-ok-Decidable : (r : ApprovalDecisionResponse) → verdict ≡ ok r → Decidable
  unfolding decide
  decide-ok-Decidable r h = elim (Option-cases (decision_outcome decision)) [
    | inl unknown ↦ absurd (ground arith)
    | inr ((status, subject_status), known) ↦
        elim (Option-cases (find_first (has_approval_id approval_id) s.current.approvals)) [
          | inl missing ↦ absurd (ground arith)
          | inr (a, found) ↦
              elim (Option-cases (subject_title a.subject_type a.subject_id s.current)) [
                | inl gone ↦ absurd (ground arith)
                | inr (title, exists) ↦ record {
                  status = status;
                  subject_status = subject_status;
                  approval = a;
                  title = title;
                  known = known;
                  found = found;
                  waiting = ground arith;
                  exists = exists;
                }
              ]
        ]
  ]

  pub decide-committed : after.committed ≡ s.committed
  unfolding decide record_audit notify_briefing_published email_role
  decide-committed = ground arith
