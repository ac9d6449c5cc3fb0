-- ===== src/Audit/Append.antt =====
-- record_audit of app/services/audit_service.py extends a verified chain.
use danah_v.Prelude.{
  ℕ, suc, ◌+◌, String, ◌≡◌, refl, ◌≢◌, ◌∙◌, true, Option, List, [], ◌∷◌, ◌++◌, arith, length-append,
  sym,
}
use danah_v.Enums.{ActorType}
use danah_v.Models.{AuditLog, Scalar, Text}
use danah_v.Session.{Env, Session}
use danah_v.Audit.{
  genesis_hash, compute_entry_hash, tail_hash, or_genesis, entry_payload, sealed_entry,
  record_audit, verify_entries,
}
use danah_v.Audit.Chain.{Chain, end_hash, verify_entries-Chain_iff, verify_entries-count}

or_genesis-of_ne : (t : Text) → t ≢ [] → or_genesis t ≡ t
unfolding or_genesis
or_genesis-of_ne [] h = absurd (h refl)
or_genesis-of_ne (c ∷ t) h = refl

Chain-append :
    (env : Env) (prev : Text) (log more : List AuditLog)
    → Chain env prev log
    → Chain env (end_hash prev log) more
    → Chain env prev (log ++ more)
Chain-append env prev [] more c d = d
Chain-append env prev (e ∷ log) more (linked, hashed, c) d =
    (linked, hashed, Chain-append env e.entry_hash log more c d)

module _ (env : Env) (hashes : (t : Text) → env.sha256 t ≢ []) where
  tail_hash-Chain :
      (prev : Text) (e : AuditLog) (log : List AuditLog)
      → Chain env prev (e ∷ log)
      → tail_hash (e ∷ log) ≡ end_hash prev (e ∷ log)
  unfolding tail_hash compute_entry_hash
  tail_hash-Chain prev e [] (linked, hashed, c) =
      or_genesis-of_ne e.entry_hash
        (λ h. hashes (e.prev_hash ++ env.dumps e.payload) (sym hashed ∙ h))
  tail_hash-Chain prev e (f ∷ log) (linked, hashed, c) = tail_hash-Chain e.entry_hash f log c

  pub tail_hash-eq-end_hash :
      (log : List AuditLog) → Chain env genesis_hash log → tail_hash log ≡ end_hash genesis_hash log
  unfolding tail_hash
  tail_hash-eq-end_hash [] c = refl
  tail_hash-eq-end_hash (e ∷ log) c = tail_hash-Chain genesis_hash e log c

  -- If sha256 gives no empty digest, an appended entry keeps a verified log verified, and the
  -- re-walk counts one entry more.
  pub record_audit-verified :
      (action : String) (actor_type : ActorType) (actor_id : Option ℕ)
      (subject_type : Option String) (subject_id : Option ℕ) (ip : Option String)
      (detail : List (String × Scalar)) (s : Session)
      → (verify_entries env s.current.audit_log).valid ≡ true
      → let s' =
          (record_audit env action actor_type actor_id subject_type subject_id ip detail s).1 in
        ((verify_entries env s'.current.audit_log).valid ≡ true)
        × ((verify_entries env s'.current.audit_log).entries_checked
            ≡ (verify_entries env s.current.audit_log).entries_checked + 1)
  unfolding record_audit
  record_audit-verified action actor_type actor_id subject_type subject_id ip detail s h =
      let log = s.current.audit_log in
      let c = (verify_entries-Chain_iff env log).0 h in
      let payload =
        entry_payload (env.now s.draws) actor_id actor_type action subject_type subject_id ip
          detail in
      let entry = sealed_entry env (suc s.draws) (tail_hash log) payload in
      let more : List AuditLog = entry ∷ [] in
      let d = Chain-append env genesis_hash log more c (tail_hash-eq-end_hash log c, refl, tt) in
      (
        (verify_entries-Chain_iff env (log ++ more)).1 d,
        omega (
          arith,
          verify_entries-count env log c,
          verify_entries-count env (log ++ more) d,
          length-append log more,
        ),
      )
