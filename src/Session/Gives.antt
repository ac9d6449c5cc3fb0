-- ===== src/Session/Gives.antt =====
-- What an action gives if it returns, one rule for each way to build an action.
use danah_v.Prelude.{◌≡◌, subst, List, [], ◌∷◌}
use danah_v.Exceptions.{Error, Result, ok, raise}
use danah_v.Session.{Session, Action, and_then, pure, throw, ◌>>=◌}

abbrev pub Then : {A : Type 0} → (A → Type 0) → Result A → Type 0
Then Q (ok a) = Q a
Then Q (raise e) = Unit

-- What `m` returns satisfies `Q`.
pub record Gives {A : Type 0} (Q : A → Type 0) (m : Action A) : Type 0 where
  pub at : (s : Session) → Then Q (m s).0

module _ {A B : Type 0} (Q : A → Type 0) (R : B → Type 0) where
  Then-and_then :
      (r : Result A) (f : A → Action B) (s : Session)
      → Then Q r
      → ((a : A) → Q a → Gives R (f a))
      → Then R (and_then r f s).0
  Then-and_then (ok a) f s q k = (k a q).at s
  Then-and_then (raise e) f s q k = tt

  pub Gives-bind :
      (m : Action A) (f : A → Action B)
      → Gives Q m
      → ((a : A) → Q a → Gives R (f a))
      → Gives R (m >>= f)
  Gives-bind m f gm gf = record { at = λ s. let (r, s') = m s in Then-and_then r f s' (gm.at s) gf }

Then-any : {A : Type 0} (r : Result A) → Then (λ a. Unit) r
Then-any (ok a) = tt
Then-any (raise e) = tt

pub Gives-any : {A : Type 0} (m : Action A) → Gives (λ a. Unit) m
Gives-any m = record { at = λ s. Then-any (m s).0 }

pub Then-mono :
    {A : Type 0} (Q R : A → Type 0) → ((a : A) → Q a → R a) → (r : Result A) → Then Q r → Then R r
Then-mono Q R imp (ok a) q = imp a q
Then-mono Q R imp (raise e) q = tt

pub Gives-List :
    {A B : Type 0} (R : B → Type 0) (xs : List A) (m : Action B) (f : A → List A → Action B)
    → Gives R m
    → ((x : A) (rest : List A) → Gives R (f x rest))
    → Gives R (elim xs [ [] ↦ m | x ∷ rest ↦ f x rest ])
Gives-List R [] m f gm gf = gm
Gives-List R (x ∷ rest) m f gm gf = gf x rest

pub Gives-ok :
    {A : Type 0} (Q : A → Type 0) (m : Action A) (s : Session) (a : A)
    → Gives Q m
    → (m s).0 ≡ ok a
    → Q a
Gives-ok Q m s a g h = subst (Then Q) h (g.at s)

module _ {A : Type 0} (Q : A → Type 0) where
  pub Gives-pure : (a : A) → Q a → Gives Q (pure a)
  Gives-pure a q = record { at = λ s. q }

  pub Gives-throw : (e : Error) → Gives Q (throw e)
  Gives-throw e = record { at = λ s. tt }

-- A step whose value says nothing.
pub Gives-after :
    {A B : Type 0} (R : B → Type 0) (m : Action A) (f : A → Action B)
    → ((a : A) → Gives R (f a))
    → Gives R (m >>= f)
Gives-after R m f k = Gives-bind (λ a. Unit) R m f (Gives-any m) (λ a _. k a)
