-- ===== src/Chunking/Slices.antt =====
-- _split_by_tokens of app/services/rag/chunking.py cuts a run of tokens without loss.
use danah_v.Prelude.{
  drop, ℕ, zero, suc, ◌≤◌, ◌≡◌, refl, ap, ◌∙◌, List, [], ◌∷◌, ◌++◌, arith, length, length-take,
  take, All,
}
use danah_v.Chunking.{slices}

abbrev pub concat : {A : Type 0} → List (List A) → List A
concat [] = []
concat (xs ∷ xss) = xs ++ concat xss

module _ {A : Type 0} where
  take-drop : (n : ℕ) (xs : List A) → take n xs ++ drop n xs ≡ xs
  unfolding take
  take-drop zero xs = refl
  take-drop (suc n) [] = refl
  take-drop (suc n) (x ∷ xs) = ap (λ l. x ∷ l) (take-drop n xs)

  length-drop : (n : ℕ) (xs : List A) → length (drop n xs) ≤ length xs
  length-drop zero xs = omega arith
  length-drop (suc n) [] = omega arith
  length-drop (suc n) (x ∷ xs) = omega (arith, length-drop n xs)

  slices-All : (size fuel : ℕ) (ids : List A) → All (λ s. length s ≤ size) (slices size fuel ids)
  unfolding slices
  slices-All size zero ids = tt
  slices-All size (suc fuel) [] = tt
  slices-All size (suc fuel) (x ∷ ids) =
      (length-take size (x ∷ ids), slices-All size fuel (drop size (x ∷ ids)))

  slices-whole :
      (size fuel : ℕ) (ids : List A) → length ids ≤ fuel → concat (slices (suc size) fuel ids) ≡ ids
  unfolding slices take
  slices-whole size zero [] enough = refl
  slices-whole size zero (x ∷ ids) enough = absurd (omega arith)
  slices-whole size (suc fuel) [] enough = refl
  slices-whole size (suc fuel) (x ∷ ids) enough =
      let left = drop size ids in
      ap (λ l. take (suc size) (x ∷ ids) ++ l)
        (slices-whole size fuel left (omega (arith, length-drop size ids)))
      ∙ take-drop (suc size) (x ∷ ids)

  -- With fuel for every token, the slices of a positive size are the tokens in order, and none of
  -- them is longer than the size.
  pub slices-concat :
      (size fuel : ℕ) (ids : List A)
      → length ids ≤ fuel
      → (concat (slices (suc size) fuel ids) ≡ ids)
        × All (λ s. length s ≤ suc size) (slices (suc size) fuel ids)
  slices-concat size fuel ids enough =
      (slices-whole size fuel ids enough, slices-All (suc size) fuel ids)
