-- ===== src/Gate/Unique.antt =====
-- A subject has one approval (the unique key of app/models/approval.py, as
-- app/services/approval_service.py keeps it).
pub mod Keeps
use danah_v.Prelude.{
  ℕ, ◌≡◌, refl, sym, ap, ◌∙◌, ◌≢◌, String, Bool, true, false, ◌&&◌, Option, none, some, List, [],
  ◌∷◌, ◌++◌, arith, find_first, modify_first, inl, inr, Bool-cases, Option-cases, ◌==◌, ==_iff,
  if◌then◌else◌,
}
use danah_v.Enums.{AgentName, ApprovalSubject, Role, same_subject}
use danah_v.Models.{Approval, Db, User}
use danah_v.Approvals.{is_for, set_pending}

-- No later approval is for the subject of an earlier one.
abbrev pub Distinct : List Approval → Type 0
Distinct [] = Unit
Distinct (a ∷ approvals) =
    (find_first (is_for a.subject_type a.subject_id) approvals ≡ none) × Distinct approvals

same_subject_sym : (t u : ApprovalSubject) → same_subject t u ≡ same_subject u t
same_subject_sym ApprovalSubject.insight ApprovalSubject.insight = refl
same_subject_sym ApprovalSubject.insight ApprovalSubject.briefing = refl
same_subject_sym ApprovalSubject.briefing ApprovalSubject.insight = refl
same_subject_sym ApprovalSubject.briefing ApprovalSubject.briefing = refl

Distinct-append :
    (approvals : List Approval) (a : Approval)
    → find_first (is_for a.subject_type a.subject_id) approvals ≡ none
    → Distinct approvals
    → Distinct (approvals ++ a ∷ [])
unfolding find_first
Distinct-append [] a absent d = (refl, tt)
Distinct-append (b ∷ approvals) a absent (alone, d) =
    (apart approvals a b absent alone, Distinct-append approvals a (ground arith) d)
  where
    apart :
        (approvals : List Approval) (a b : Approval)
        → find_first (is_for a.subject_type a.subject_id) (b ∷ approvals) ≡ none
        → find_first (is_for b.subject_type b.subject_id) approvals ≡ none
        → find_first (is_for b.subject_type b.subject_id) (approvals ++ a ∷ []) ≡ none
    apart [] a b absent alone = ground (arith, same_subject_sym a.subject_type b.subject_type)
    apart (c ∷ approvals) a b absent alone = ground (arith, apart approvals a b)

module _ (p : Approval → Bool) (f : Approval → Approval)
    (same_type : (a : Approval) → (f a).subject_type ≡ a.subject_type)
    (same_id : (a : Approval) → (f a).subject_id ≡ a.subject_id) where
  find_first-none_modify :
      (t : ApprovalSubject) (id : ℕ) (approvals : List Approval)
      → find_first (is_for t id) approvals ≡ none
      → find_first (is_for t id) (modify_first p f approvals) ≡ none
  unfolding find_first modify_first
  find_first-none_modify t id [] h = refl
  find_first-none_modify t id (a ∷ approvals) h =
      ground (arith, same_type a, same_id a, find_first-none_modify t id approvals)

  Distinct-modify_first :
      (approvals : List Approval) → Distinct approvals → Distinct (modify_first p f approvals)
  unfolding find_first modify_first
  Distinct-modify_first [] d = tt
  Distinct-modify_first (a ∷ approvals) (alone, d) = elim (Bool-cases (p a)) [
    | inl here ↦ rw (here, same_type a, same_id a) (alone, d)
    | inr there ↦ rw there (
      find_first-none_modify a.subject_type a.subject_id approvals alone,
      Distinct-modify_first approvals d,
    )
  ]
