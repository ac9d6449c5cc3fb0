-- ===== src/Audit/Chain.antt =====
-- verify_chain of app/services/audit_service.py against a description of an intact chain.
use danah_v.Prelude.{
  ℕ, ◌+◌, ◌≡◌, refl, sym, ◌↔◌, inl, inr, ◌≢◌, ◌∙◌, true, false, some, List, [], ◌∷◌, ◌++◌, arith,
  Bool-cases, length, ap,
}
use danah_v.Models.{AuditLog, Text}
use danah_v.Session.{Env}
use danah_v.Audit.{
  same_text, genesis_hash, compute_entry_hash, walk, last_id_of, verify_entries, Reason,
  VerificationResult,
}

pub same_text_iff : (s t : Text) → (same_text s t ≡ true) ↔ (s ≡ t)
same_text_iff [] [] = ground arith
same_text_iff [] (b ∷ t) = ground arith
same_text_iff (a ∷ s) [] = ground arith
same_text_iff (a ∷ s) (b ∷ t) = ground (arith, same_text_iff s t)

-- Each entry names the hash of its predecessor, and its own hash is that of its contents.
abbrev pub Chain : Env → Text → List AuditLog → Type 0
Chain env prev [] = Unit
Chain env prev (e ∷ log) =
    (e.prev_hash ≡ prev)
    × (e.entry_hash ≡ compute_entry_hash env e.prev_hash e.payload)
    × Chain env e.entry_hash log

-- Why an entry breaks a chain that is intact up to `prev`.
abbrev pub Breaks : Env → Text → AuditLog → Reason → Type 0
Breaks env prev e Reason.link_mismatch = e.prev_hash ≢ prev
Breaks env prev e Reason.content_mismatch =
    (e.prev_hash ≡ prev) × (compute_entry_hash env e.prev_hash e.payload ≢ e.entry_hash)

-- The last hash of a log that follows `prev`.
abbrev pub end_hash : Text → List AuditLog → Text
end_hash prev [] = prev
end_hash prev (e ∷ log) = end_hash e.entry_hash log

-- The log has an intact part, then an entry that breaks it, and the result names that entry.
pub record FirstBreak (env : Env) (prev : Text) (log : List AuditLog) (index : ℕ)
    (r : VerificationResult) : Type 0 where
  pub before : List AuditLog
  pub entry : AuditLog
  pub after : List AuditLog
  pub why : Reason
  pub split : log ≡ before ++ entry ∷ after
  pub intact : Chain env prev before
  pub breaks : Breaks env (end_hash prev before) entry why
  pub at_index : r.broken_at_index ≡ some (index + length before)
  pub at_id : r.broken_at_id ≡ some entry.id
  pub checked : r.entries_checked ≡ index + length before
  pub said : r.reason ≡ some why

module _ (env : Env) (first last : ℕ) where
  walk_intact :
      (index : ℕ) (prev : Text) (log : List AuditLog)
      → Chain env prev log
      → ((walk env first last index prev log).valid ≡ true)
        × ((walk env first last index prev log).entries_checked ≡ index + length log)
  unfolding walk
  walk_intact index prev [] c = (refl, omega arith)
  walk_intact index prev (e ∷ log) (linked, hashed, rest) =
      let here = (same_text_iff e.prev_hash prev).1 linked in
      let same =
        (same_text_iff (compute_entry_hash env e.prev_hash e.payload) e.entry_hash).1
          (sym hashed) in
      let (valid, count) = walk_intact (index + 1) e.entry_hash log rest in
      rw (here, same) (valid, omega (arith, count))

  walk-valid-Chain :
      (index : ℕ) (prev : Text) (log : List AuditLog)
      → (walk env first last index prev log).valid ≡ true
      → Chain env prev log
  unfolding walk
  walk-valid-Chain index prev [] h = tt
  walk-valid-Chain index prev (e ∷ log) h = ground (
    arith,
    same_text_iff e.prev_hash prev,
    same_text_iff (compute_entry_hash env e.prev_hash e.payload) e.entry_hash,
    walk-valid-Chain (index + 1) e.entry_hash log,
  )

  later_break :
      (index : ℕ) (prev : Text) (e : AuditLog) (log : List AuditLog) (r : VerificationResult)
      → e.prev_hash ≡ prev
      → e.entry_hash ≡ compute_entry_hash env e.prev_hash e.payload
      → FirstBreak env e.entry_hash log (index + 1) r
      → FirstBreak env prev (e ∷ log) index r
  later_break index prev e log r linked hashed b = record {
    before = e ∷ b.before;
    entry = b.entry;
    after = b.after;
    why = b.why;
    split = ap (λ l. e ∷ l) b.split;
    intact = (linked, hashed, b.intact);
    breaks = b.breaks;
    at_index = ground (arith, b.at_index);
    at_id = b.at_id;
    checked = omega (arith, b.checked);
    said = b.said;
  }

  walk-FirstBreak :
      (index : ℕ) (prev : Text) (log : List AuditLog)
      → (walk env first last index prev log).valid ≡ false
      → FirstBreak env prev log index (walk env first last index prev log)
  unfolding walk
  walk-FirstBreak index prev [] h = cc
  walk-FirstBreak index prev (e ∷ log) h = elim (Bool-cases (same_text e.prev_hash prev)) [
    | inr other ↦ rw other (record {
      before = [];
      entry = e;
      after = log;
      why = Reason.link_mismatch;
      split = refl;
      intact = tt;
      breaks = λ linked. cc ((same_text_iff e.prev_hash prev).1 linked);
      at_index = ground arith;
      at_id = refl;
      checked = omega arith;
      said = refl;
    })
    | inl here ↦
        elim (Bool-cases (same_text (compute_entry_hash env e.prev_hash e.payload) e.entry_hash)) [
          | inr edited ↦
              rw (here, edited)
                (record {
                  before = [];
                  entry = e;
                  after = log;
                  why = Reason.content_mismatch;
                  split = refl;
                  intact = tt;
                  breaks = (
                    (same_text_iff e.prev_hash prev).0 here,
                    λ same. cc (
                        (same_text_iff (compute_entry_hash env e.prev_hash e.payload)
                            e.entry_hash).1
                          same),
                  );
                  at_index = ground arith;
                  at_id = refl;
                  checked = omega arith;
                  said = refl;
                })
          | inl same ↦
              rw (here, same)
                (later_break index prev e log _ ((same_text_iff e.prev_hash prev).0 here)
                  (sym (
                    (same_text_iff (compute_entry_hash env e.prev_hash e.payload) e.entry_hash).0
                      same))
                  (walk-FirstBreak (index + 1) e.entry_hash log (rw (here, same) at h)))
        ]
  ]

-- The re-walk accepts a log exactly when the log is an intact chain from the anchor: every entry
-- names the hash of its predecessor, the first one the anchor, and carries the hash of its own
-- contents.
pub verify_entries-Chain_iff :
    (env : Env) (log : List AuditLog)
    → (verify_entries env log).valid ≡ true ↔ Chain env genesis_hash log
unfolding verify_entries
verify_entries-Chain_iff env [] = (λ h. tt, λ h. refl)
verify_entries-Chain_iff env (e ∷ log) = (
  walk-valid-Chain env e.id (last_id_of e.id log) 0 genesis_hash (e ∷ log),
  λ c. (walk_intact env e.id (last_id_of e.id log) 0 genesis_hash (e ∷ log) c).0,
)

pub verify_entries-count :
    (env : Env) (log : List AuditLog)
    → Chain env genesis_hash log
    → (verify_entries env log).entries_checked ≡ length log
unfolding verify_entries
verify_entries-count env [] c = refl
verify_entries-count env (e ∷ log) c =
    (walk_intact env e.id (last_id_of e.id log) 0 genesis_hash (e ∷ log) c).1 ∙ omega arith

-- Where the re-walk refuses a log, the log is an intact chain up to the entry whose index and id
-- are reported, and that entry breaks it for the reason that is reported.
pub verify_entries-FirstBreak :
    (env : Env) (log : List AuditLog)
    → (verify_entries env log).valid ≡ false
    → FirstBreak env genesis_hash log 0 (verify_entries env log)
unfolding verify_entries
verify_entries-FirstBreak env [] h = cc
verify_entries-FirstBreak env (e ∷ log) h =
    walk-FirstBreak env e.id (last_id_of e.id log) 0 genesis_hash (e ∷ log) h
