-- ===== src/Prelude/Lists.antt =====
-- Tables as lists of rows: the first row that a WHERE clause selects, its update in place,
-- filters, and the predicates "every row" and "some row".
use Prim.Native.Nat.{ℕ, zero, suc, ◌+◌}
use mathlib.Core.Path.{◌≡◌, refl, sym, ap, subst}
use mathlib.Core.Logic.{◌⊎◌, inl, inr}
use mathlib.Core.Bool.{Bool, true, false}
use mathlib.Core.Option.{Option, none, some}
use mathlib.Core.List.{List, [], ◌∷◌, ◌++◌}
use native.Mathlib.Omega.{arith}
use danah_v.Prelude.Tests.{if◌then◌else◌, Bool-cases}

module _ {ℓ} {A : Type ℓ} where
  abbrev pub length : List A → ℕ
  length [] = 0
  length (x ∷ xs) = suc (length xs)

  pub length-append : (xs ys : List A) → length (xs ++ ys) ≡ length xs + length ys
  length-append [] ys = omega arith
  length-append (x ∷ xs) ys = omega (arith, length-append xs ys)

  pub ++-assoc : (xs ys zs : List A) → (xs ++ ys) ++ zs ≡ xs ++ (ys ++ zs)
  ++-assoc [] ys zs = refl
  ++-assoc (x ∷ xs) ys zs = ap (λ l. x ∷ l) (++-assoc xs ys zs)

  pub ++-[] : (xs : List A) → xs ++ [] ≡ xs
  ++-[] [] = refl
  ++-[] (x ∷ xs) = ap (λ l. x ∷ l) (++-[] xs)

  -- The first row that passes the test.
  unfoldable pub find_first : (A → Bool) → List A → Option A
  find_first p [] = none
  find_first p (x ∷ xs) = if p x then some x else find_first p xs

  -- The first row that passes the test, changed in place.
  unfoldable pub modify_first : (A → Bool) → (A → A) → List A → List A
  modify_first p f [] = []
  modify_first p f (x ∷ xs) = if p x then f x ∷ xs else x ∷ modify_first p f xs

  -- Every row that passes the test, changed in place.
  unfoldable pub modify_where : (A → Bool) → (A → A) → List A → List A
  modify_where p f [] = []
  modify_where p f (x ∷ xs) = (if p x then f x else x) ∷ modify_where p f xs

  unfoldable pub filterb : (A → Bool) → List A → List A
  filterb p [] = []
  filterb p (x ∷ xs) = let rest = filterb p xs in if p x then x ∷ rest else rest

  -- ORDER BY: a stable insertion sort by a test "may stand before".
  unfoldable pub insert_by : (A → A → Bool) → A → List A → List A
  insert_by before x [] = x ∷ []
  insert_by before x (y ∷ ys) = if before x y then x ∷ y ∷ ys else y ∷ insert_by before x ys

  unfoldable pub sort_by : (A → A → Bool) → List A → List A
  unfolding insert_by
  sort_by before [] = []
  sort_by before (x ∷ xs) = insert_by before x (sort_by before xs)

  -- LIMIT
  unfoldable pub take : ℕ → List A → List A
  take zero xs = []
  take (suc n) [] = []
  take (suc n) (x ∷ xs) = x ∷ take n xs

  pub length-modify_first :
      (p : A → Bool) (f : A → A) (xs : List A) → length (modify_first p f xs) ≡ length xs
  unfolding modify_first
  length-modify_first p f [] = refl
  length-modify_first p f (x ∷ xs) = ground (arith, length-modify_first p f xs)

  pub find_first-here :
      (p : A → Bool) (y : A) (xs : List A) (x : A)
      → p y ≡ true
      → find_first p (y ∷ xs) ≡ some x
      → y ≡ x
  unfolding find_first
  find_first-here p y xs x t e = ground arith

  pub find_first-there :
      (p : A → Bool) (y : A) (xs : List A) (x : A)
      → p y ≡ false
      → find_first p (y ∷ xs) ≡ some x
      → find_first p xs ≡ some x
  unfolding find_first
  find_first-there p y xs x t e = ground arith

  pub find_first-holds :
      (p : A → Bool) (xs : List A) (x : A) → find_first p xs ≡ some x → p x ≡ true
  unfolding find_first
  find_first-holds p [] x h = ground arith
  find_first-holds p (y ∷ xs) x h = ground (arith, find_first-holds p xs x)

  pub find_first-append :
      (p : A → Bool) (xs ys : List A) (x : A)
      → find_first p xs ≡ some x
      → find_first p (xs ++ ys) ≡ some x
  unfolding find_first
  find_first-append p [] ys x h = ground arith
  find_first-append p (y ∷ xs) ys x h = ground (arith, find_first-append p xs ys x)

  -- Where no row passes the test, the search goes on in what is appended.
  pub find_first-append_none :
      (p : A → Bool) (xs ys : List A)
      → find_first p xs ≡ none
      → find_first p (xs ++ ys) ≡ find_first p ys
  unfolding find_first
  find_first-append_none p [] ys h = refl
  find_first-append_none p (y ∷ xs) ys h = ground (arith, find_first-append_none p xs ys)

  -- A change that keeps the test is seen by the next search.
  pub find_first-modify_first :
      (p : A → Bool) (f : A → A) (xs : List A) (x : A)
      → find_first p xs ≡ some x
      → p (f x) ≡ true
      → find_first p (modify_first p f xs) ≡ some (f x)
  unfolding find_first modify_first
  find_first-modify_first p f [] x h k = ground arith
  find_first-modify_first p f (y ∷ xs) x h k = elim (Bool-cases (p y)) [
    | inl e ↦ ground (arith, ap f (find_first-here p y xs x e h))
    | inr e ↦ ground (arith, find_first-modify_first p f xs x)
  ]

  abbrev pub All : (A → Type 0) → List A → Type 0
  All P [] = Unit
  All P (x ∷ xs) = P x × All P xs

  abbrev pub Any : (A → Type 0) → List A → Type 0
  Any P [] = ⊥
  Any P (x ∷ xs) = P x ⊎ Any P xs

module _ {ℓ} {A : Type ℓ} (P : A → Type 0) where
  pub All-append : (xs ys : List A) → All P xs → All P ys → All P (xs ++ ys)
  All-append [] ys h k = k
  All-append (x ∷ xs) ys h k = (h.0, All-append xs ys h.1 k)

  pub Any-append_left : (xs ys : List A) → Any P xs → Any P (xs ++ ys)
  Any-append_left [] ys h = elim h [ ]
  Any-append_left (x ∷ xs) ys (inl h) = inl h
  Any-append_left (x ∷ xs) ys (inr h) = inr (Any-append_left xs ys h)

  pub Any-append_right : (xs ys : List A) → Any P ys → Any P (xs ++ ys)
  Any-append_right [] ys h = h
  Any-append_right (x ∷ xs) ys h = inr (Any-append_right xs ys h)

  -- A change of a row keeps what every row satisfies, if it does at the rows that pass the test.
  pub All-modify_first :
      (p : A → Bool) (f : A → A) (xs : List A)
      → ((x : A) → p x ≡ true → P x → P (f x))
      → All P xs
      → All P (modify_first p f xs)
  unfolding modify_first
  All-modify_first p f [] keep h = h
  All-modify_first p f (x ∷ xs) keep h = elim (Bool-cases (p x)) [
    | inl e ↦ rw e (keep x e h.0, h.1)
    | inr e ↦ rw e (h.0, All-modify_first p f xs keep h.1)
  ]

  -- A row that the change spares is still there afterwards.
  pub Any-modify_first :
      (p : A → Bool) (f : A → A) (xs : List A) (x : A)
      → find_first p xs ≡ some x
      → ¬ (P x)
      → Any P xs
      → Any P (modify_first p f xs)
  unfolding modify_first find_first
  Any-modify_first p f [] x e spared h = elim h [ ]
  Any-modify_first p f (y ∷ xs) x e spared (inl h) = elim (Bool-cases (p y)) [
    | inl t ↦ absurd (spared (subst P (find_first-here p y xs x t e) h))
    | inr t ↦ rw t (inl h)
  ]
  Any-modify_first p f (y ∷ xs) x e spared (inr h) = elim (Bool-cases (p y)) [
    | inl t ↦ rw t (inr h)
    | inr t ↦ rw t (inr (Any-modify_first p f xs x (find_first-there p y xs x t e) spared h))
  ]

  -- A row that the change makes true of `P` is there afterwards.
  pub Any-modify_first_found :
      (p : A → Bool) (f : A → A) (xs : List A) (x : A)
      → find_first p xs ≡ some x
      → P (f x)
      → Any P (modify_first p f xs)
  unfolding modify_first find_first
  Any-modify_first_found p f [] x e h = cc
  Any-modify_first_found p f (y ∷ xs) x e h = elim (Bool-cases (p y)) [
    | inl t ↦ rw t (inl (subst (λ z. P (f z)) (sym (find_first-here p y xs x t e)) h))
    | inr t ↦ rw t (inr (Any-modify_first_found p f xs x (find_first-there p y xs x t e) h))
  ]

module _ {ℓ} {A : Type ℓ} (P Q : A → Type 0) (imp : (x : A) → P x → Q x) where
  pub All-mono : (xs : List A) → All P xs → All Q xs
  All-mono [] h = tt
  All-mono (x ∷ xs) h = (imp x h.0, All-mono xs h.1)

  pub Any-mono : (xs : List A) → Any P xs → Any Q xs
  Any-mono [] h = elim h [ ]
  Any-mono (x ∷ xs) (inl h) = inl (imp x h)
  Any-mono (x ∷ xs) (inr h) = inr (Any-mono xs h)
