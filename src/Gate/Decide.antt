-- ===== src/Gate/Decide.antt =====
-- The decision route keeps the publication gate: what it publishes, a senior person approved.
use danah_v.Prelude.{
  ℕ, String, ◌≡◌, refl, sym, ◌⊎◌, inl, inr, true, Option, some, List, [], ◌∷◌, ◌++◌, arith,
  modify_first, Any-append_right, Any-modify_first_found, Bool-cases, subst,
}
use danah_v.Enums.{ApprovalStatus, PublicationStatus, Role}
use danah_v.Models.{Approval, AuditLog, Db, User}
use danah_v.Session.{Env, Session}
use danah_v.Session.Keeps.{Keeps}
use danah_v.Security.{has_role, executive_and_above}
use danah_v.Approvals.{decide, decision_outcome, set_subject_status, has_approval_id, decided}
use danah_v.Approvals.Decision
use danah_v.Approvals.Decision.{Decidable}
use danah_v.Api.{decide_approval}
use danah_v.Gate.{
  Approved, Approves, GatedRows, Gated, IsDecision, Approved-log, Approved-modify, GatedRows-mono,
  set_subject_status-Gated, set_subject_status_frame,
}

senior_role :
    (user : User)
    → has_role user executive_and_above ≡ true
    → (user.role ≡ Role.admin) ⊎ (user.role ≡ Role.executive)
unfolding has_role
senior_role user h = ground arith

-- The only decision that publishes is the one that approves.
published_approves :
    (decision : String) (status : ApprovalStatus) (subject_status : PublicationStatus)
    → decision_outcome decision ≡ some (status, subject_status)
    → subject_status ≡ PublicationStatus.published
    → status ≡ ApprovalStatus.approved
unfolding decision_outcome
published_approves decision status subject_status h p = ground arith

module _ (env : Env) (user : User) (id : ℕ) (decision comment : String) (ip : Option String)
    (s : Session) (senior : has_role user executive_and_above ≡ true) (g : Gated s.current) where
  module _ (d : Decidable env id user decision comment ip s) where
    open d use {status, subject_status, approval, known, found, waiting}

    abbrev settle : Approval → Approval
    settle = decided status user.id (env.now s.draws) comment

    abbrev rows : List Approval
    rows = modify_first (has_approval_id id) settle s.current.approvals

    abbrev filed : Db
    filed = record s.current { approvals = rows }

    abbrev entry : AuditLog
    entry = Decision.entry env id user decision comment ip s approval status subject_status

    -- The log as the audit entry finds it.
    abbrev log_before : List AuditLog
    log_before =
        (set_subject_status approval.subject_type approval.subject_id subject_status
          filed).audit_log

    abbrev log : List AuditLog
    log = log_before ++ entry ∷ []

    log_same : log_before ≡ s.current.audit_log
    log_same =
        (set_subject_status_frame approval.subject_type approval.subject_id subject_status filed).1

    entry-IsDecision : IsDecision approval.subject_type approval.subject_id user.id entry
    entry-IsDecision = record {
      action = refl;
      actor_type = refl;
      actor = refl;
      subject_type = refl;
      subject = refl;
      role = user.role;
      senior = senior_role user senior;
      named = inr (inr (inr (inr (inr (inl refl)))));
    }

    settle-Approved :
        subject_status ≡ PublicationStatus.published
        → Approved log rows approval.subject_type approval.subject_id
    settle-Approved p =
        Any-modify_first_found (Approves approval.subject_type approval.subject_id log)
          (has_approval_id id) settle s.current.approvals approval found
          (record {
            subject_type = refl;
            subject = refl;
            approved = published_approves decision status subject_status known p;
            decider = user.id;
            decided = refl;
            audited = Any-append_right _ log_before (entry ∷ []) (inl entry-IsDecision);
          })

    rows-Gated : GatedRows log rows s.current.insights s.current.briefings
    rows-Gated =
        GatedRows-mono s.current.audit_log log s.current.approvals rows s.current.insights
          s.current.briefings
          (λ t' id' h.
            Approved-modify log (has_approval_id id) settle s.current.approvals approval t' id'
              found (λ e. cc)
              (Approved-log log_before (entry ∷ []) s.current.approvals t' id'
                (subst (λ l. Approved l s.current.approvals t' id') (sym log_same) h)))
          g

    decided-Gated : Gated (decide env id user decision comment ip s).1.current
    decided-Gated =
        let (as', is', bs', log') = Decision.decide-current env id user decision comment ip s d in
        let frame =
          set_subject_status_frame approval.subject_type approval.subject_id subject_status filed in
        rw (as', is', bs', log')
          (rw (frame.0) (
            set_subject_status-Gated log rows approval.subject_type approval.subject_id
              subject_status filed settle-Approved rows-Gated))

  by_cases :
      (Decision.after env id user decision comment ip s ≡ s)
        ⊎ Decidable env id user decision comment ip s
      → Gated (decide env id user decision comment ip s).1.current
  by_cases (inl same) = rw same g
  by_cases (inr d) = decided-Gated d

pub decide_approval-Gated :
    (env : Env) (user : User) (id : ℕ) (decision comment : String) (ip : Option String)
    → Keeps Gated (decide_approval env user id decision comment ip)
unfolding decide_approval
decide_approval-Gated env user id decision comment ip = record {
  at = λ s (g, gc). elim (Bool-cases (has_role user executive_and_above)) [
    | inl senior ↦ rw senior (
      by_cases env user id decision comment ip s senior g
          (Decision.decide-cases env id user decision comment ip s),
      rw (Decision.decide-committed env id user decision comment ip s) gc,
    )
    | inr junior ↦ rw junior (g, gc)
  ];
}
