-- ===== src/Prelude/Rows.antt =====
-- Queries keep what every row satisfies: WHERE, ORDER BY, LIMIT and OFFSET.
use Prim.Native.Nat.{ℕ, zero, suc, ◌+◌, ◌≤◌}
use mathlib.Core.Path.{◌≡◌, refl, ap, ◌∙◌}
use native.Mathlib.Omega.{arith}
use mathlib.Core.Logic.{inl, inr}
use mathlib.Core.Bool.{Bool, true, false, not}
use mathlib.Core.Option.{none, some}
use mathlib.Core.List.{List, [], ◌∷◌, ◌++◌}
use danah_v.Prelude.Tests.{Bool-cases}
use danah_v.Prelude.Lists.{
  length, All, filterb, find_first, find_first-holds, insert_by, sort_by, take,
}

module _ {ℓ} {A : Type ℓ} where
  -- OFFSET
  abbrev pub drop : ℕ → List A → List A
  drop zero xs = xs
  drop (suc n) [] = []
  drop (suc n) (x ∷ xs) = drop n xs

module _ {ℓ} {A : Type ℓ} where
  pub length-take : (n : ℕ) (xs : List A) → length (take n xs) ≤ n
  unfolding take
  length-take zero xs = omega arith
  length-take (suc n) [] = omega arith
  length-take (suc n) (x ∷ xs) = omega (arith, length-take n xs)

  pub find_first-none :
      (p : A → Bool) (xs : List A) → All (λ x. p x ≡ false) xs → find_first p xs ≡ none
  unfolding find_first
  find_first-none p [] h = refl
  find_first-none p (x ∷ xs) (h, hs) = rw h (find_first-none p xs hs)

-- range(k, k + n)
abbrev pub range : ℕ → ℕ → List ℕ
range k zero = []
range k (suc n) = k ∷ range (suc k) n

pub range-next : (k n : ℕ) → range k n ++ (k + n) ∷ [] ≡ range k (suc n)
range-next k zero = ap (λ m. m ∷ []) (omega arith)
range-next k (suc n) =
    ap (λ l. k ∷ l) (ap (λ m. range (suc k) n ++ m ∷ []) (omega arith) ∙ range-next (suc k) n)

module _ {ℓ} {A : Type ℓ} (P : A → Type 0) where
  pub All-filterb :
      (p : A → Bool) (xs : List A) → ((x : A) → p x ≡ true → P x) → All P (filterb p xs)
  unfolding filterb
  All-filterb p [] imp = tt
  All-filterb p (x ∷ xs) imp = elim (Bool-cases (p x)) [
    | inl here ↦ rw here (imp x here, All-filterb p xs imp)
    | inr there ↦ rw there (All-filterb p xs imp)
  ]

  pub All-filter_kept : (p : A → Bool) (xs : List A) → All P xs → All P (filterb p xs)
  unfolding filterb
  All-filter_kept p [] h = tt
  All-filter_kept p (x ∷ xs) (h, hs) = elim (Bool-cases (p x)) [
    | inl here ↦ rw here (h, All-filter_kept p xs hs)
    | inr there ↦ rw there (All-filter_kept p xs hs)
  ]

  All-insert_by :
      (before : A → A → Bool) (x : A) (xs : List A) → P x → All P xs → All P (insert_by before x xs)
  unfolding insert_by
  All-insert_by before x [] h k = (h, tt)
  All-insert_by before x (y ∷ ys) h (k, ks) = elim (Bool-cases (before x y)) [
    | inl here ↦ rw here (h, (k, ks))
    | inr there ↦ rw there (k, All-insert_by before x ys h ks)
  ]

  pub All-sort_by : (before : A → A → Bool) (xs : List A) → All P xs → All P (sort_by before xs)
  unfolding sort_by
  All-sort_by before [] h = tt
  All-sort_by before (x ∷ xs) (h, hs) =
      All-insert_by before x (sort_by before xs) h (All-sort_by before xs hs)

  -- A row that a search finds, if every row that passes the test is as it should be.
  pub find_first-All :
      (p : A → Bool) (xs : List A)
      → ((x : A) → p x ≡ true → P x)
      → (x : A) → find_first p xs ≡ some x
      → P x
  find_first-All p xs imp x h = imp x (find_first-holds p xs x h)

  pub All-take : (n : ℕ) (xs : List A) → All P xs → All P (take n xs)
  unfolding take
  All-take zero xs h = tt
  All-take (suc n) [] h = tt
  All-take (suc n) (x ∷ xs) (h, hs) = (h, All-take n xs hs)

  pub All-drop : (n : ℕ) (xs : List A) → All P xs → All P (drop n xs)
  All-drop zero xs h = h
  All-drop (suc n) [] h = tt
  All-drop (suc n) (x ∷ xs) (h, hs) = All-drop n xs hs

module _ {ℓ} {A : Type ℓ} (p : A → Bool) where
  pub filterb-append : (xs ys : List A) → filterb p (xs ++ ys) ≡ filterb p xs ++ filterb p ys
  unfolding filterb
  filterb-append [] ys = refl
  filterb-append (x ∷ xs) ys = elim (Bool-cases (p x)) [
    | inl here ↦ rw here (ap (λ l. x ∷ l) (filterb-append xs ys))
    | inr there ↦ rw there (filterb-append xs ys)
  ]

  -- What a DELETE leaves no longer passes the test.
  pub filterb-deleted : (xs : List A) → filterb p (filterb (λ x. not (p x)) xs) ≡ []
  unfolding filterb
  filterb-deleted [] = refl
  filterb-deleted (x ∷ xs) = elim (Bool-cases (p x)) [
    | inl here ↦ rw here (filterb-deleted xs)
    | inr there ↦ rw (there, there) (filterb-deleted xs)
  ]

  pub filterb-All : (xs : List A) → All (λ x. p x ≡ true) xs → filterb p xs ≡ xs
  unfolding filterb
  filterb-All [] h = refl
  filterb-All (x ∷ xs) (h, hs) = rw h (ap (λ l. x ∷ l) (filterb-All xs hs))
