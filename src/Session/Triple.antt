-- ===== src/Session/Triple.antt =====
-- What an action does to what its transaction sees: a precondition, what holds where it returns, and
-- what holds where it raises; one rule for each way to build an action.
use danah_v.Prelude.{ℕ, suc, Option, none, some, ◌≡◌, refl}
use danah_v.Exceptions.{Error, Result, ok, raise}
use danah_v.Models.{Db}
use danah_v.Session.{
  Session, Action, and_then, ask, of_result, pure, throw, query, write, draw, one_or, ◌>>=◌,
}

abbrev pub After : {A : Type 0} → (A → Db → Type 0) → (Db → Type 0) → Result A → Db → Type 0
After Q E (ok a) db = Q a db
After Q E (raise e) db = E db

pub record Triple {A : Type 0} (P : Db → Type 0) (m : Action A) (Q : A → Db → Type 0)
    (E : Db → Type 0) : Type 0 where
  pub at : (s : Session) → P s.current → After Q E (m s).0 (m s).1.current

module _ {A : Type 0} (Q : A → Db → Type 0) (E : Db → Type 0) where
  pub Triple-pure : (a : A) → Triple (Q a) (pure a) Q E
  Triple-pure a = record { at = λ s h. h }

  pub Triple-throw : (e : Error) → Triple E (throw {A = A} e) Q E
  Triple-throw e = record { at = λ s h. h }

  pub Triple-query :
      (f : Db → A) (P : Db → Type 0) → ((db : Db) → P db → Q (f db) db) → Triple P (query f) Q E
  Triple-query f P k = record { at = λ s h. k s.current h }

pub Triple-draw :
    (f : ℕ → ℕ) (P : Db → Type 0) (Q : ℕ → Db → Type 0) (E : Db → Type 0)
    → ((n : ℕ) (db : Db) → P db → Q n db)
    → Triple P (draw f) Q E
Triple-draw f P Q E k = record { at = λ s h. k (f s.draws) s.current h }

pub Triple-write :
    (f : Db → Db) (P : Db → Type 0) (Q : Unit → Db → Type 0) (E : Db → Type 0)
    → ((db : Db) → P db → Q tt (f db))
    → Triple P (write f) Q E
Triple-write f P Q E k = record { at = λ s h. k s.current h }

module _ {A B : Type 0} (R : A → Db → Type 0) (Q : B → Db → Type 0) (E : Db → Type 0) where
  After-and_then :
      (r : Result A) (f : A → Action B) (s : Session)
      → After R E r s.current
      → ((a : A) → Triple (R a) (f a) Q E)
      → After Q E (and_then r f s).0 (and_then r f s).1.current
  After-and_then (ok a) f s h k = (k a).at s h
  After-and_then (raise e) f s h k = h

  pub Triple-bind :
      (P : Db → Type 0) (m : Action A) (f : A → Action B)
      → Triple P m R E
      → ((a : A) → Triple (R a) (f a) Q E)
      → Triple P (m >>= f) Q E
  Triple-bind P m f tm tf = record {
    at = λ s h. let (r, s') = m s in After-and_then r f s' (tm.at s h) tf;
  }

-- A step that reads no table, or raises.
module _ {A B : Type 0} (P : Db → Type 0) (f : A → Action B) (Q : B → Db → Type 0) (E : Db → Type 0)
    (raised : (db : Db) → P db → E db) where
  pub Triple-one_or :
      (e : Error) (o : Option A)
      → ((a : A) → o ≡ some a → Triple P (f a) Q E)
      → Triple P (one_or e o >>= f) Q E
  Triple-one_or e none k = record { at = λ s h. raised s.current h }
  Triple-one_or e (some a) k = record { at = λ s h. (k a refl).at s h }

  pub Triple-of_result :
      (r : Result A) → ((a : A) → Triple P (f a) Q E) → Triple P (of_result r >>= f) Q E
  Triple-of_result (ok a) k = record { at = λ s h. (k a).at s h }
  Triple-of_result (raise e) k = record { at = λ s h. raised s.current h }

  After-ask :
      (r : Result A) (s : Session)
      → P s.current
      → ((a : A) → Triple P (f a) Q E)
      → After Q E (and_then r f s).0 (and_then r f s).1.current
  After-ask (ok a) s h k = (k a).at s h
  After-ask (raise e) s h k = raised s.current h

  pub Triple-ask : (g : ℕ → Result A) → ((a : A) → Triple P (f a) Q E) → Triple P (ask g >>= f) Q E
  Triple-ask g k = record {
    at = λ s h. After-ask (g s.draws) (record s { draws = suc s.draws }) h k;
  }

module _ {A : Type 0} (P : Db → Type 0) (Q Q' : A → Db → Type 0) (E E' : Db → Type 0)
    (returned : (a : A) (db : Db) → Q a db → Q' a db) (raised : (db : Db) → E db → E' db) where
  pub After-mono : (r : Result A) (db : Db) → After Q E r db → After Q' E' r db
  After-mono (ok a) db h = returned a db h
  After-mono (raise e) db h = raised db h

  pub Triple-mono : (m : Action A) → Triple P m Q E → Triple P m Q' E'
  Triple-mono m t = record { at = λ s h. After-mono (m s).0 (m s).1.current (t.at s h) }

-- A condition on nothing but the values is a premise.
pub Triple-given :
    {A : Type 0} (P : Db → Type 0) (C : Type 0) (m : Action A) (Q : A → Db → Type 0)
    (E : Db → Type 0)
    → (C → Triple P m Q E)
    → Triple (λ db. P db × C) m Q E
Triple-given P C m Q E k = record { at = λ s (h, c). (k c).at s h }
