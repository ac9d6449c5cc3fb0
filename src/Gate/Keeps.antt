-- ===== src/Gate/Keeps.antt =====
-- submit_for_approval and the decision route keep the publication gate.
use danah_v.Prelude.{
  ℕ, String, ◌≡◌, refl, ◌≢◌, inl, inr, true, Option, some, none, [], ◌∷◌, ◌++◌, find_first,
  modify_first, Any-append_left, Option-cases, Bool-cases,
}
use danah_v.Enums.{AgentName, ApprovalStatus, ApprovalSubject, PublicationStatus, Role}
use danah_v.Models.{Approval, Db}
use danah_v.Session.{Env, Session}
use danah_v.Session.Keeps.{Keeps}
use danah_v.Approvals.{
  subject_title, is_for, approval_for_subject, is_approved, is_pending, set_pending,
  submit_for_approval,
}
use danah_v.Approvals.Queue.{
  row, queued, submitted, submit_for_approval-missing, submit_for_approval-current,
  submit_for_approval-committed, row_found,
}
use danah_v.Gate.{
  Approves, Gated, Approved-modify, GatedRows-mono, set_subject_status-Gated,
  set_subject_status_frame,
}

module _ (env : Env) (t : ApprovalSubject) (id : ℕ) (agent : AgentName) (role : Role) where
  queued-Gated :
      (db : Db) (a : Approval)
      → find_first (is_for t id) db.approvals ≡ some a
      → a.status ≢ ApprovalStatus.approved
      → Gated db
      → Gated (queued env t id agent role db)
  queued-Gated db a found waiting g =
      let approvals = modify_first (is_for t id) set_pending db.approvals in
      let db' : Db = record db { approvals = approvals } in
      let g' =
        GatedRows-mono db.audit_log db.audit_log db.approvals approvals db.insights db.briefings
          (λ t' id'.
            Approved-modify db.audit_log (is_for t id) set_pending db.approvals a t' id' found
              waiting)
          g in
      let (rows, log) = set_subject_status_frame t id PublicationStatus.pending_approval db' in
      rw (rows, log)
        (set_subject_status-Gated db.audit_log approvals t id PublicationStatus.pending_approval db'
          (λ e. cc) g')

  submitted-Gated :
      (title : String) (s : Session) (o : Option Approval)
      → approval_for_subject t id s.current ≡ o
      → Gated s.current
      → Gated (submitted env t id agent role title s o)
  unfolding approval_for_subject
  submitted-Gated title s none absent g =
      let new = row env t id agent role s in
      let db : Db = record s.current { approvals = s.current.approvals ++ new ∷ [] } in
      queued-Gated db new (row_found env t id agent role s absent) (λ e. cc)
        (GatedRows-mono s.current.audit_log s.current.audit_log s.current.approvals db.approvals
          db.insights db.briefings
          (λ t' id'.
            Any-append_left (Approves t' id' s.current.audit_log) s.current.approvals (new ∷ []))
          g)
  submitted-Gated title s (some a) found g = elim (Bool-cases (is_approved a.status)) [
    | inl e ↦ rw e g
    | inr e ↦ elim (Bool-cases (is_pending a.status)) [
      | inl p ↦ rw (e, p) (queued-Gated s.current a found (λ h. cc (approved_status a h)) g)
      | inr p ↦ rw (e, p) (queued-Gated s.current a found (λ h. cc (approved_status a h)) g)
    ]
  ]
    where
      approved_status :
          (a : Approval) → a.status ≡ ApprovalStatus.approved → is_approved a.status ≡ true
      approved_status a h = rw h

  pub submit_for_approval-Gated : Keeps Gated (submit_for_approval env t id agent role)
  submit_for_approval-Gated = record {
    at = λ s (g, gc). elim (Option-cases (subject_title t id s.current)) [
      | inl missing ↦ rw (submit_for_approval-missing env t id agent role s missing) (g, gc)
      | inr (title, h) ↦ (
        rw (submit_for_approval-current env t id agent role s title h)
            (submitted-Gated title s (approval_for_subject t id s.current) refl g),
        rw (submit_for_approval-committed env t id agent role s) gc,
      )
    ];
  }
