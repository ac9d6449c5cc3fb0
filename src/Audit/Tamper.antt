-- ===== src/Audit/Tamper.antt =====
-- What an intact chain says about its contents: the last hash commits to every entry.
use danah_v.Prelude.{
  ◌≡◌, refl, sym, ◌∙◌, ◌⊎◌, inl, inr, ◌≢◌, true, List, [], ◌∷◌, ◌++◌, map, arith, ap, Bool-cases,
  length,
}
use danah_v.Models.{AuditLog, Text}
use danah_v.Session.{Env}
use danah_v.Audit.{same_text, genesis_hash, compute_entry_hash, tail_hash, verify_entries}
use danah_v.Audit.Chain.{same_text_iff, Chain, end_hash, verify_entries-Chain_iff}
use danah_v.Audit.Append.{tail_hash-eq-end_hash}

-- Two texts with one digest.
pub record Collision (env : Env) : Type 0 where
  pub left : Text
  pub right : Text
  pub differ : left ≢ right
  pub same_digest : env.sha256 left ≡ env.sha256 right

-- What is hashed of each entry beside the hash of its predecessor.
abbrev pub contents : Env → List AuditLog → List Text
contents env log = map (λ e. env.dumps e.payload) log

append_injective : (p q s t : Text) → length p ≡ length q → p ++ s ≡ q ++ t → (p ≡ q) × (s ≡ t)
append_injective [] [] s t n e = (refl, e)
append_injective [] (b ∷ q) s t n e = absurd (omega arith)
append_injective (a ∷ p) [] s t n e = absurd (omega arith)
append_injective (a ∷ p) (b ∷ q) s t n e =
    let (heads, tails) = append_injective p q s t (omega arith) (cc) in (cc, tails)

module _ (env : Env) (digest_length : (t : Text) → length (env.sha256 t) ≡ 64) where
  compute_entry_hash-injective :
      (e f : AuditLog)
      → length e.prev_hash ≡ length f.prev_hash
      → compute_entry_hash env e.prev_hash e.payload ≡ compute_entry_hash env f.prev_hash f.payload
      → (e.prev_hash ≡ f.prev_hash) × (env.dumps e.payload ≡ env.dumps f.payload) ⊎ Collision env
  unfolding compute_entry_hash
  compute_entry_hash-injective e f n h =
      let left = e.prev_hash ++ env.dumps e.payload in
      let right = f.prev_hash ++ env.dumps f.payload in
      elim (Bool-cases (same_text left right)) [
        | inl same ↦
            inl (append_injective e.prev_hash f.prev_hash _ _ n ((same_text_iff left right).0 same))
        | inr other ↦ inr (record {
          left = left;
          right = right;
          differ = λ same. cc ((same_text_iff left right).1 same);
          same_digest = h;
        })
      ]

  Chain-commits :
      (p q : Text) (log log' : List AuditLog)
      → length p ≡ 64
      → length q ≡ 64
      → length log ≡ length log'
      → Chain env p log
      → Chain env q log'
      → end_hash p log ≡ end_hash q log'
      → (p ≡ q) × (contents env log ≡ contents env log') ⊎ Collision env
  unfolding compute_entry_hash
  Chain-commits p q [] [] np nq n c d h = inl (h, refl)
  Chain-commits p q [] (f ∷ log') np nq n c d h = absurd (omega arith)
  Chain-commits p q (e ∷ log) [] np nq n c d h = absurd (omega arith)
  Chain-commits p q (e ∷ log) (f ∷ log') np nq n (el, eh, c) (fl, fh, d) h =
      elim (Chain-commits e.entry_hash f.entry_hash log log'
        (rw eh (digest_length (e.prev_hash ++ env.dumps e.payload)))
        (rw fh (digest_length (f.prev_hash ++ env.dumps f.payload))) (omega arith) c d h) [
          | inr found ↦ inr found
          | inl (same, rest) ↦
              elim (compute_entry_hash-injective e f (rw (el, fl) (np ∙ sym nq))
                (sym eh ∙ same ∙ fh)) [
                  | inr found ↦ inr found
                  | inl (links, payloads) ↦ inl (sym el ∙ links ∙ fl, cc)
                ]
        ]

  -- Two verified logs of one length that end in the same hash hold the same contents, entry by
  -- entry, unless two different texts with one digest are at hand. The digest has 64 characters.
  pub verify_entries_commits :
      (log log' : List AuditLog)
      → (verify_entries env log).valid ≡ true
      → (verify_entries env log').valid ≡ true
      → length log ≡ length log'
      → tail_hash log ≡ tail_hash log'
      → contents env log ≡ contents env log' ⊎ Collision env
  unfolding genesis_hash
  verify_entries_commits log log' v v' n h =
      let hashes : (t : Text) → env.sha256 t ≢ [] =
        λ t e. absurd (omega (arith, digest_length t, ap length e)) in
      let c = (verify_entries-Chain_iff env log).0 v in
      let c' = (verify_entries-Chain_iff env log').0 v' in
      let ends =
        sym (tail_hash-eq-end_hash env hashes log c)
        ∙ h
        ∙ tail_hash-eq-end_hash env hashes log' c' in
      elim (Chain-commits genesis_hash genesis_hash log log' refl refl n c c' ends) [
        | inl (_, same) ↦ inl same
        | inr found ↦ inr found
      ]
