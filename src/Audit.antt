-- ===== src/Audit.antt =====
-- app/services/audit_service.py: the hash-chained, append-only audit log.
pub mod Chain
pub mod Append
pub mod Tamper
pub mod Keeps
use danah_v.Prelude.{
  ℕ, zero, suc, ◌+◌, String, ◌≡◌, Bool, true, false, Option, none, some, List, [], ◌∷◌, ◌++◌, ◌==◌,
  ◌&&◌, if◌then◌else◌, length, take,
}
use danah_v.Enums.{ActorType}
use danah_v.Models.{Db, AuditLog, Payload, Scalar, Text}
use danah_v.Session.{Env, Session, Action, pure, query, write, draw, ◌>>=◌, ◌>>◌}

abbrev pub same_text : Text → Text → Bool
same_text [] [] = true
same_text (a ∷ s) (b ∷ t) = a == b && same_text s t
same_text _ _ = false

replicate : ℕ → ℕ → Text
replicate zero c = []
replicate (suc n) c = c ∷ replicate n c

-- "0" * 64
unfoldable pub genesis_hash : Text
unfolding replicate
genesis_hash = replicate 64 48

unfoldable pub compute_entry_hash : Env → Text → Payload → Text
compute_entry_hash env prev_hash payload = env.sha256 (prev_hash ++ env.dumps payload)

-- The `entry_hash` of the last entry, where it is a non-empty string, or the anchor.
or_genesis : Text → Text
or_genesis [] = genesis_hash
or_genesis (c ∷ s) = c ∷ s

unfoldable pub tail_hash : List AuditLog → Text
unfolding or_genesis
tail_hash [] = genesis_hash
tail_hash (e ∷ []) = or_genesis e.entry_hash
tail_hash (e ∷ f ∷ log) = tail_hash (f ∷ log)

abbrev pub entry_payload :
    ℕ
    → Option ℕ
    → ActorType
    → String
    → Option String
    → Option ℕ
    → Option String
    → List (String × Scalar)
    → Payload
entry_payload ts actor_id actor_type action subject_type subject_id ip detail = record {
  ts = ts;
  actor_id = actor_id;
  actor_type = actor_type;
  action = action;
  subject_type = subject_type;
  subject_id = subject_id;
  ip = ip;
  detail = detail;
}

abbrev pub sealed_entry : Env → ℕ → Text → Payload → AuditLog
sealed_entry env id prev_hash payload = record {
  id = id;
  payload = payload;
  prev_hash = prev_hash;
  entry_hash = compute_entry_hash env prev_hash payload;
}

-- The table lock is held by the action as a whole: no other writer comes between. The id comes
-- from a sequence: a later entry has a larger one.
unfoldable pub record_audit :
    Env
    → String
    → ActorType
    → Option ℕ
    → Option String
    → Option ℕ
    → Option String
    → List (String × Scalar)
    → Action AuditLog
record_audit env action actor_type actor_id subject_type subject_id ip detail = do
  prev_hash ← query (λ db. tail_hash db.audit_log)
  ts ← draw env.now
  id ← draw (λ n. n)
  let payload = entry_payload ts actor_id actor_type action subject_type subject_id ip detail
  let entry = sealed_entry env id prev_hash payload
  write (λ db. record db { audit_log = db.audit_log ++ entry ∷ [] })
  pure entry

pub data Reason : Type 0 where
  link_mismatch content_mismatch : Reason

pub record VerificationResult : Type 0 where
  pub valid : Bool
  pub entries_checked : ℕ
  pub broken_at_id : Option ℕ
  pub broken_at_index : Option ℕ
  pub reason : Option Reason
  pub first_id : Option ℕ
  pub last_id : Option ℕ

last_id_of : ℕ → List AuditLog → ℕ
last_id_of id [] = id
last_id_of id (e ∷ log) = last_id_of e.id log

broken : ℕ → ℕ → ℕ → ℕ → Reason → VerificationResult
broken first last index id why = record {
  valid = false;
  entries_checked = index;
  broken_at_id = some id;
  broken_at_index = some index;
  reason = some why;
  first_id = some first;
  last_id = some last;
}

-- The `for` loop: `index` and `expected_prev` are its variables.
walk : Env → ℕ → ℕ → ℕ → Text → List AuditLog → VerificationResult
unfolding broken compute_entry_hash
walk env first last index expected_prev [] = record {
  valid = true;
  entries_checked = index;
  broken_at_id = none;
  broken_at_index = none;
  reason = none;
  first_id = some first;
  last_id = some last;
}
walk env first last index expected_prev (e ∷ log) =
    let rest = walk env first last (index + 1) e.entry_hash log in
    if same_text e.prev_hash expected_prev
    then (if same_text (compute_entry_hash env e.prev_hash e.payload) e.entry_hash
        then rest
        else broken first last index e.id Reason.content_mismatch)
    else broken first last index e.id Reason.link_mismatch

-- verify_chain on the entries that the query returns, in the order of their ids.
unfoldable pub verify_entries : Env → List AuditLog → VerificationResult
unfolding walk last_id_of
verify_entries env [] = record {
  valid = true;
  entries_checked = 0;
  broken_at_id = none;
  broken_at_index = none;
  reason = none;
  first_id = none;
  last_id = none;
}
verify_entries env (e ∷ log) = walk env e.id (last_id_of e.id log) 0 genesis_hash (e ∷ log)

unfoldable pub verify_chain : Env → Option ℕ → Action VerificationResult
unfolding verify_entries take
verify_chain env none = query (λ db. verify_entries env db.audit_log)
verify_chain env (some limit) = query (λ db. verify_entries env (take limit db.audit_log))
