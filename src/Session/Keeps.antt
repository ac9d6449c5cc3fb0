-- ===== src/Session/Keeps.antt =====
-- Invariants of the database under an action, one rule for each way to build an action.
use danah_v.Prelude.{arith, ℕ, ◌≡◌, refl, Bool, true, false, Option, none, some, if◌then◌else◌}
use danah_v.Exceptions.{Error, Result, ok, raise}
use danah_v.Models.{Db}
use danah_v.Session.{
  gate, Session, Action, ask, attempt, of_result, pure, throw, and_then, ◌>>=◌, query, write, draw,
  commit, one_or, get_db,
}

-- What the transaction sees and what is committed both satisfy `P`.
abbrev pub Both : (Db → Type 0) → Session → Type 0
Both P s = P s.current × P s.committed

-- `m` keeps `P`, whether it returns or raises.
pub record Keeps {A : Type 0} (P : Db → Type 0) (m : Action A) : Type 0 where
  pub at : (s : Session) → Both P s → Both P (m s).1

module _ (P : Db → Type 0) where
  pub Keeps-pure : {A : Type 0} (a : A) → Keeps P (pure a)
  Keeps-pure a = record { at = λ s h. h }

  pub Keeps-throw : {A : Type 0} (e : Error) → Keeps P (throw {A = A} e)
  Keeps-throw e = record { at = λ s h. h }

  pub Keeps-query : {A : Type 0} (f : Db → A) → Keeps P (query f)
  Keeps-query f = record { at = λ s h. h }

  pub Keeps-draw : (f : ℕ → ℕ) → Keeps P (draw f)
  Keeps-draw f = record { at = λ s h. h }

  pub Keeps-commit : Keeps P commit
  Keeps-commit = record { at = λ s h. (h.0, h.0) }

  pub Keeps-write : (f : Db → Db) → ((db : Db) → P db → P (f db)) → Keeps P (write f)
  Keeps-write f k = record { at = λ s h. (k s.current h.0, h.1) }

  pub Keeps-one_or : {A : Type 0} (e : Error) (o : Option A) → Keeps P (one_or e o)
  Keeps-one_or e none = record { at = λ s h. h }
  Keeps-one_or e (some a) = record { at = λ s h. h }

  pub Keeps-ask : {A : Type 0} (f : ℕ → Result A) → Keeps P (ask f)
  Keeps-ask f = record { at = λ s h. h }

  pub Keeps-gate : (allows : ℕ → Bool) (e : Error) → Keeps P (gate allows e)
  Keeps-gate allows e = record { at = λ s h. h }

  pub Keeps-of_result : {A : Type 0} (r : Result A) → Keeps P (of_result r)
  Keeps-of_result (ok a) = Keeps-pure a
  Keeps-of_result (raise e) = Keeps-throw e

  pub Keeps-attempt : {A : Type 0} (m : Action A) → Keeps P m → Keeps P (attempt m)
  Keeps-attempt m k = record { at = λ s h. k.at s h }

  pub Keeps-if :
      {A : Type 0} (b : Bool) (m n : Action A)
      → Keeps P m
      → Keeps P n
      → Keeps P (if b then m else n)
  Keeps-if true m n km kn = km
  Keeps-if false m n km kn = kn

  Keeps-and_then :
      {A B : Type 0} (r : Result A) (f : A → Action B)
      → ((a : A) → Keeps P (f a))
      → Keeps P (and_then r f)
  Keeps-and_then (ok a) f k = k a
  Keeps-and_then (raise e) f k = Keeps-throw e

  pub Keeps-bind :
      {A B : Type 0} (m : Action A) (f : A → Action B)
      → Keeps P m
      → ((a : A) → Keeps P (f a))
      → Keeps P (m >>= f)
  Keeps-bind m f km kf = record {
    at = λ s h. let (r, s') = m s in (Keeps-and_then r f kf).at s' (km.at s h);
  }

  -- A request leaves a database that satisfies `P`, whether it is committed or rolled back.
  pub get_db-Keeps :
      {A : Type 0} (m : Action A) (db : Db) (n : ℕ) → Keeps P m → P db → P (get_db m db n).1
  unfolding get_db
  get_db-Keeps m db n k h =
      let s : Session = record { current = db; committed = db; draws = n } in
      by_result (m s).0 (m s).1 (k.at s (h, h))
    where
      by_result :
          {A : Type 0} (r : Result A) (s : Session)
          → Both P s
          → P
              (let out : Result A × Db = elim r [
                | ok a ↦ (ok a, s.current)
                | raise e ↦ (raise e, s.committed)
              ] in
                out).1
      by_result (ok a) s b = b.0
      by_result (raise e) s b = b.1

module _ {A : Type 0} (m : Action A) (db : Db) (n : ℕ) where
  abbrev pub request : Session
  request = record { current = db; committed = db; draws = n }

  -- A request that raises leaves what it has committed itself.
  pub get_db-raise :
      (e : Error) (s : Session) → m request ≡ (raise e, s) → get_db m db n ≡ (raise e, s.committed)
  unfolding get_db
  get_db-raise e s h = ground arith

  pub get_db-ok :
      (a : A)
      → (get_db m db n).0 ≡ ok a
      → ((m request).0 ≡ ok a) × ((get_db m db n).1 ≡ (m request).1.current)
  unfolding get_db
  get_db-ok a h = by_result (m request) h
    where
      by_result :
          (out : Result A × Session)
          → (let end : Result A × Db = elim out.0 [
            | ok a ↦ (ok a, out.1.current)
            | raise e ↦ (raise e, out.1.committed)
          ] in
              end).0
            ≡ ok a
          → (out.0 ≡ ok a)
            × ((let end : Result A × Db = elim out.0 [
              | ok a ↦ (ok a, out.1.current)
              | raise e ↦ (raise e, out.1.committed)
            ] in
                  end).1
                ≡ out.1.current)
      by_result (ok b, s) k = (k, refl)
      by_result (raise e, s) k = absurd (cc)
