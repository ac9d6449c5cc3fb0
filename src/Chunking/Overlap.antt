-- ===== src/Chunking/Overlap.antt =====
-- What chunk_text promises of its chunks (app/services/rag/chunking.py): no unit is lost, and the
-- size is bounded.
use danah_v.Prelude.{
  drop, ℕ, ◌+◌, ◌≤◌, ◌≡◌, refl, sym, ap, ◌∙◌, false, not, ◌&&◌, List, [], ◌∷◌, ◌++◌, arith, ltb,
  length, inl, inr, Bool-cases, ◌==◌, All, ++-assoc, ++-[],
}
use danah_v.Models.{Text}
use danah_v.Chunking.{
  Piece, tokens_of, is_empty, last_chunk, carry, carry_overlap, reverse_onto, assemble,
}

-- The chunks without what each carries over from the one before.
abbrev pub unglue : ℕ → List Piece → List (List Piece) → List Piece
unglue overlap kept [] = []
unglue overlap kept (c ∷ chunks) =
    drop (length kept) c ++ unglue overlap (carry_overlap c overlap).0 chunks

drop-append : {A : Type 0} (xs ys : List A) → drop (length xs) (xs ++ ys) ≡ ys
drop-append [] ys = refl
drop-append (x ∷ xs) ys = drop-append xs ys

last_chunk-unglue :
    (overlap : ℕ) (kept added : List Piece)
    → unglue overlap kept (last_chunk (kept ++ added)) ≡ added
last_chunk-unglue overlap [] [] = refl
last_chunk-unglue overlap [] (p ∷ added) = ++-[] (p ∷ added)
last_chunk-unglue overlap (k ∷ kept) added = ++-[] _ ∙ drop-append (k ∷ kept) added

assemble-unglue_from :
    (size overlap : ℕ) (units kept added : List Piece) (n : ℕ)
    → unglue overlap kept (assemble size overlap units (kept ++ added) n) ≡ added ++ units
unfolding assemble
assemble-unglue_from size overlap [] kept added n =
    last_chunk-unglue overlap kept added ∙ sym (++-[] added)
assemble-unglue_from size overlap ((t, k) ∷ units) kept added n =
    elim (Bool-cases (not (is_empty (kept ++ added)) && ltb size (n + k))) [
      | inl full ↦
          let next = (carry_overlap (kept ++ added) overlap).0 in
          rw (full, assemble)
            (ap
                (λ l.
                  l
                  ++ unglue overlap next (
                      assemble size overlap units (next ++ (t, k) ∷ [])
                        ((carry_overlap (kept ++ added) overlap).1 + k)))
                (drop-append kept added)
              ∙ ap (λ l. added ++ l) (assemble-unglue_from size overlap units next ((t, k) ∷ []) _))
      | inr room ↦
          rw (room, assemble)
            (ap (λ c. unglue overlap kept (assemble size overlap units c (n + k)))
                (++-assoc kept added ((t, k) ∷ []))
              ∙ (assemble-unglue_from size overlap units kept (added ++ (t, k) ∷ []) (n + k)
                  ∙ ++-assoc added ((t, k) ∷ []) units))
    ]

-- Nothing is lost, doubled or reordered: without what each chunk carries over from the one before,
-- the parts of the chunks are the units, in order.
pub assemble-unglue :
    (size overlap : ℕ) (units : List Piece)
    → unglue overlap [] (assemble size overlap units [] 0) ≡ units
assemble-unglue size overlap units = assemble-unglue_from size overlap units [] [] 0

tokens_of-append : (xs ys : List Piece) → tokens_of (xs ++ ys) ≡ tokens_of xs + tokens_of ys
tokens_of-append [] ys = omega arith
tokens_of-append ((t, n) ∷ xs) ys = omega (arith, tokens_of-append xs ys)

carry-total :
    (overlap : ℕ) (parts carried : List Piece) (total : ℕ)
    → total ≡ tokens_of carried
    → total ≤ overlap
    → let (kept, sum) = carry overlap parts carried total in
      (sum ≡ tokens_of kept) × (sum ≤ overlap)
unfolding carry
carry-total overlap [] carried total same le = (same, le)
carry-total overlap ((t, n) ∷ parts) carried total same le =
    elim (Bool-cases (ltb overlap (total + n))) [
      | inl full ↦ rw (full, carry) (same, le)
      | inr room ↦
          rw (room, carry)
            (carry-total overlap parts ((t, n) ∷ carried) (total + n) (omega (arith, same))
              (ground arith))
    ]

-- What is carried over is counted right, and is within the overlap.
carry_overlap-total :
    (overlap : ℕ) (parts : List Piece)
    → let (kept, sum) = carry_overlap parts overlap in (sum ≡ tokens_of kept) × (sum ≤ overlap)
unfolding carry_overlap
carry_overlap-total overlap parts = elim (Bool-cases (overlap == 0)) [
  | inl zero_overlap ↦ rw (zero_overlap, carry_overlap) (refl, omega arith)
  | inr some_overlap ↦
      rw (some_overlap, carry_overlap)
        (carry-total overlap (reverse_onto parts []) [] 0 refl (omega arith))
]

module _ (size overlap : ℕ) where
  abbrev pub Fits : List Piece → Type 0
  Fits c = tokens_of c ≤ size + overlap

  assemble-Fits_from :
      (units current : List Piece) (n : ℕ)
      → All (λ u. u.1 ≤ size) units
      → n ≡ tokens_of current
      → Fits current
      → All Fits (assemble size overlap units current n)
  unfolding assemble
  assemble-Fits_from [] [] n small same fits = tt
  assemble-Fits_from [] (p ∷ current) n small same fits = (fits, tt)
  assemble-Fits_from ((t, k) ∷ units) current n (le, small) same fits =
      elim (Bool-cases (not (is_empty current) && ltb size (n + k))) [
        | inl full ↦
            let (kept, sum) = carry_overlap current overlap in
            let (sum_same, sum_le) = carry_overlap-total overlap current in
            let whole = tokens_of-append kept ((t, k) ∷ []) in
            rw (full, assemble)
              (
                fits,
                assemble-Fits_from units (kept ++ (t, k) ∷ []) (sum + k) small (omega arith)
                    (omega arith),
              )
        | inr room ↦
            let whole = tokens_of-append current ((t, k) ∷ []) in
            rw (room, assemble)
              (assemble-Fits_from units (current ++ (t, k) ∷ []) (n + k) small (omega arith)
                (roomy current n k t room same le whole))
      ]
    where
      roomy :
          (current : List Piece) (n k : ℕ) (t : Text)
          → (not (is_empty current) && ltb size (n + k)) ≡ false
          → n ≡ tokens_of current
          → k ≤ size
          → tokens_of (current ++ (t, k) ∷ []) ≡ tokens_of current + tokens_of ((t, k) ∷ [])
          → Fits (current ++ (t, k) ∷ [])
      roomy [] n k t room same le whole = omega arith
      roomy (p ∷ current) n k t room same le whole = ground arith

  -- If every unit fits in a chunk, no chunk has units of more than chunk_size + overlap tokens.
  pub assemble-Fits :
      (units : List Piece)
      → All (λ u. u.1 ≤ size) units
      → All Fits (assemble size overlap units [] 0)
  assemble-Fits units small = assemble-Fits_from units [] 0 small refl (omega arith)
