-- ===== src/Audit/Keeps.antt =====
-- record_audit keeps what an appended entry keeps.
use danah_v.Prelude.{ℕ, String, Option, List, [], ◌∷◌, ◌++◌}
use danah_v.Enums.{ActorType}
use danah_v.Models.{AuditLog, Db, Scalar}
use danah_v.Session.{Env}
use danah_v.Session.Keeps.{Keeps, Keeps-pure, Keeps-query, Keeps-draw, Keeps-write, Keeps-bind}
use danah_v.Audit.{record_audit, sealed_entry, entry_payload}

-- Closed under a longer log.
abbrev pub AuditWrites : (Db → Type 0) → Type 0
AuditWrites P =
    (db : Db) (e : AuditLog) → P db → P (record db { audit_log = db.audit_log ++ e ∷ [] })

pub record_audit-Keeps :
    (env : Env) (P : Db → Type 0)
    → AuditWrites P
    → (action : String) (actor_type : ActorType) (actor_id : Option ℕ)
      (subject_type : Option String) (subject_id : Option ℕ) (ip : Option String)
      (detail : List (String × Scalar))
    → Keeps P (record_audit env action actor_type actor_id subject_type subject_id ip detail)
unfolding record_audit
record_audit-Keeps env P closed action actor_type actor_id subject_type subject_id ip detail =
    Keeps-bind P _ _ (Keeps-query P _) (λ prev_hash. Keeps-bind P _ _ (Keeps-draw P env.now) (λ ts.
      Keeps-bind P _ _ (Keeps-draw P (λ n. n)) (λ id.
        let entry =
          sealed_entry env id prev_hash
            (entry_payload ts actor_id actor_type action subject_type subject_id ip detail) in
        Keeps-bind P _ _
          (Keeps-write P (λ db. record db { audit_log = db.audit_log ++ entry ∷ [] })
            (λ db. closed db entry))
          (λ _. Keeps-pure P entry))))
