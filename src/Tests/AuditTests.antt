-- ===== src/Tests/AuditTests.antt =====
-- Witnesses on the audit log and on the inbox.
use danah_v.Prelude.{
  ℕ, ◌+◌, ◌≡◌, refl, ◌⊎◌, ◌↔◌, ◌≢◌, true, false, Option, none, some, List, [], ◌∷◌, filterb,
}
use danah_v.Enums.{ActorType, NotificationKind, Role}
use danah_v.Models.{AuditLog, Notification, Text}
use danah_v.Session.{Session}
use danah_v.Audit.{
  genesis_hash, compute_entry_hash, tail_hash, entry_payload, sealed_entry, record_audit,
  verify_entries,
}
use danah_v.Audit.Chain.{Chain, FirstBreak, verify_entries-Chain_iff, verify_entries-FirstBreak}
use danah_v.Audit.Append.{record_audit-verified}
use danah_v.Audit.Tamper.{Collision, contents, verify_entries_commits}
use danah_v.Notifications.{mark_read}
use danah_v.Notifications.Inbox.{of_others, mark_read-others}
use danah_v.Tests.{sample_env, sample_digest, executive, first_db, first_session}

abbrev entry : ℕ → Text → AuditLog
entry id prev =
    sealed_entry sample_env id prev
      (entry_payload id (some 7) ActorType.user "login" none none none [])

abbrev log : List AuditLog
log = entry 1 genesis_hash ∷ entry 2 (entry 1 genesis_hash).entry_hash ∷ []

log_valid : (verify_entries sample_env log).valid ≡ true
unfolding verify_entries compute_entry_hash genesis_hash
log_valid = refl

verify_entries-Chain_iff_example :
    (verify_entries sample_env log).valid ≡ true ↔ Chain sample_env genesis_hash log
verify_entries-Chain_iff_example = verify_entries-Chain_iff sample_env log

-- The second entry no longer follows the first.
abbrev cut : List AuditLog
cut = entry 1 genesis_hash ∷ entry 2 genesis_hash ∷ []

cut_refused : (verify_entries sample_env cut).valid ≡ false
unfolding verify_entries compute_entry_hash genesis_hash
cut_refused = refl

verify_entries-FirstBreak_example :
    FirstBreak sample_env genesis_hash cut 0 (verify_entries sample_env cut)
verify_entries-FirstBreak_example = verify_entries-FirstBreak sample_env cut cut_refused

abbrev audited : Session
audited = record first_session { current = record first_db { audit_log = log } }

some_digest : (t : Text) → sample_env.sha256 t ≢ []
some_digest t = λ e. cc

record_audit-verified_example :
    let s' =
      (record_audit sample_env "login" ActorType.user (some 7) none none none [] audited).1 in
    ((verify_entries sample_env s'.current.audit_log).valid ≡ true)
    × ((verify_entries sample_env s'.current.audit_log).entries_checked
        ≡ (verify_entries sample_env log).entries_checked + 1)
record_audit-verified_example =
    record_audit-verified sample_env some_digest "login" ActorType.user (some 7) none none none []
      audited log_valid

-- Another log of the same length: the sample digest depends on the length alone.
abbrev other_log : List AuditLog
other_log = entry 3 genesis_hash ∷ entry 4 (entry 3 genesis_hash).entry_hash ∷ []

other_log_valid : (verify_entries sample_env other_log).valid ≡ true
unfolding verify_entries compute_entry_hash genesis_hash
other_log_valid = refl

same_tail : tail_hash log ≡ tail_hash other_log
unfolding tail_hash compute_entry_hash genesis_hash
same_tail = refl

verify_entries_commits_example :
    contents sample_env log ≡ contents sample_env other_log ⊎ Collision sample_env
verify_entries_commits_example =
    verify_entries_commits sample_env sample_digest log other_log log_valid other_log_valid refl
      same_tail

abbrev note : ℕ → Option Role → Notification
note id role = record {
  id = id;
  user_id = if_person role;
  role = role;
  kind = NotificationKind.approval_pending;
  title = "Approval required";
  subject_ref = ("insight", 5);
  read_at = none;
}
  where
    if_person : Option Role → Option ℕ
    if_person none = some 8
    if_person (some r) = none

abbrev inbox : Session
inbox = record first_session {
  current = record first_db { notifications = note 1 (some Role.executive) ∷ note 2 none ∷ [] };
}

mark_read-others_example :
    filterb
      (of_others executive)
      (mark_read sample_env executive (1 ∷ []) inbox).1.current.notifications
    ≡ filterb (of_others executive) inbox.current.notifications
mark_read-others_example = mark_read-others sample_env executive (1 ∷ []) inbox
