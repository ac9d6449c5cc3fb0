-- ===== src/Gate/Unique/Keeps.antt =====
-- Submissions, decisions and pipeline runs keep one approval for each subject.
use danah_v.Prelude.{
  ◌⊎◌, ℕ, ◌≡◌, refl, sym, ◌∙◌, subst, String, Option, none, some, [], ◌∷◌, ◌++◌, modify_first, inl,
  inr, Bool-cases, Option-cases,
}
use danah_v.Enums.{AgentName, ApprovalSubject, PublicationStatus, Role}
use danah_v.Models.{Approval, Db, User}
use danah_v.Session.{Env, Session}
use danah_v.Session.Keeps.{Keeps}
use danah_v.Security.{has_role, executive_and_above}
use danah_v.Approvals.{
  approval_for_subject, decide, decided, has_approval_id, is_approved, is_for, is_pending,
  set_pending, submit_for_approval, subject_title,
}
use danah_v.Approvals.Queue.{
  row, queued, submitted, submit_for_approval-missing, submit_for_approval-current,
  submit_for_approval-committed,
}
use danah_v.Approvals.Decision
use danah_v.Approvals.Decision.{Decidable}
use danah_v.Api.{decide_approval}
use danah_v.Gate.{set_subject_status_frame}
use danah_v.Gate.Unique.{Distinct, Distinct-append, Distinct-modify_first}
use danah_v.Orchestrator.Drafts.{Writes}

abbrev pub Unique : Db → Type 0
Unique db = Distinct db.approvals

module _ (env : Env) (t : ApprovalSubject) (id : ℕ) (agent : AgentName) (role : Role) where
  queued-Unique : (db : Db) → Unique db → Unique (queued env t id agent role db)
  queued-Unique db d =
      subst Distinct (sym (set_subject_status_frame t id PublicationStatus.pending_approval _).0)
        (Distinct-modify_first (is_for t id) set_pending (λ a. refl) (λ a. refl) db.approvals d)

  submitted-Unique :
      (title : String) (s : Session) (o : Option Approval)
      → approval_for_subject t id s.current ≡ o
      → Unique s.current
      → Unique (submitted env t id agent role title s o)
  unfolding approval_for_subject
  submitted-Unique title s none absent d =
      queued-Unique
        (record s.current { approvals = s.current.approvals ++ row env t id agent role s ∷ [] })
        (Distinct-append s.current.approvals (row env t id agent role s) absent d)
  submitted-Unique title s (some a) found d = elim (Bool-cases (is_approved a.status)) [
    | inl e ↦ rw e d
    | inr e ↦ elim (Bool-cases (is_pending a.status)) [
      | inl p ↦ rw (e, p) (queued-Unique s.current d)
      | inr p ↦ rw (e, p) (queued-Unique s.current d)
    ]
  ]

  submit_for_approval-Unique : Keeps Unique (submit_for_approval env t id agent role)
  submit_for_approval-Unique = record {
    at = λ s (d, dc). elim (Option-cases (subject_title t id s.current)) [
      | inl missing ↦ rw (submit_for_approval-missing env t id agent role s missing) (d, dc)
      | inr (title, h) ↦ (
        rw (submit_for_approval-current env t id agent role s title h)
            (submitted-Unique title s (approval_for_subject t id s.current) refl d),
        rw (submit_for_approval-committed env t id agent role s) dc,
      )
    ];
  }

module _ (env : Env) (user : User) (id : ℕ) (decision comment : String) (ip : Option String) where
  decide-Unique :
      (s : Session)
      → (Decision.after env id user decision comment ip s ≡ s)
        ⊎ Decision.Decidable env id user decision comment ip s
      → Unique s.current
      → Unique (decide env id user decision comment ip s).1.current
  decide-Unique s (inl same) d = rw same d
  decide-Unique s (inr x) d =
      let (rows, _, _, _) = Decision.decide-current env id user decision comment ip s x in
      let frame =
        set_subject_status_frame x.approval.subject_type x.approval.subject_id x.subject_status
          (record s.current {
            approvals =
                modify_first (has_approval_id id)
                  (decided x.status user.id (env.now s.draws) comment) s.current.approvals;
          }) in
      subst Distinct (sym (rows ∙ frame.0)) (
        Distinct-modify_first (has_approval_id id)
          (decided x.status user.id (env.now s.draws) comment) (λ a. refl) (λ a. refl)
          s.current.approvals d)

  pub decide_approval-Unique : Keeps Unique (decide_approval env user id decision comment ip)
  unfolding decide_approval
  decide_approval-Unique = record {
    at = λ s (d, dc). elim (Bool-cases (has_role user executive_and_above)) [
      | inl senior ↦ rw senior (
        decide-Unique s (Decision.decide-cases env id user decision comment ip s) d,
        rw (Decision.decide-committed env id user decision comment ip s) dc,
      )
      | inr junior ↦ rw junior (d, dc)
    ];
  }

pub Writes-Unique : (env : Env) → Writes env Unique
Writes-Unique env = record {
  submit = submit_for_approval-Unique env;
  insight = λ db id kind d run_id agent u. u;
  briefing = λ db id today english arabic run_id u. u;
  memory = λ db row u. u;
  items = λ db rows u. u;
  steps = λ db rows u. u;
  runs = λ db id f same u. u;
}
