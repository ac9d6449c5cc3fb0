-- ===== src/Session.antt =====
-- A database session (app/db.py, app/deps.py): what the transaction sees, what is committed, and
-- how many values the outside world has given. A service is an action on the session.
pub mod Keeps
pub mod Gives
pub mod Triple
use danah_v.Prelude.{ℕ, suc, String, Bool, Option, none, some, if◌then◌else◌}
use danah_v.Exceptions.{Error, Result, ok, raise}
use danah_v.Models.{Db, Text, Payload}

-- What the services take from outside. The n-th value that is drawn is a function of n: an
-- identifier from uuid4, the clock, an opaque random token. `sha256` is hexdigest of an encoded
-- text, `is_header` whether EmailMessage takes a subject, which it does not with a line break, `dumps` is
-- json.dumps with the options of canonical_json. `accepts` says whether the database
-- takes what is written: it refuses a NUL character in a text, for example.
pub record Env : Type 0 where
  pub uuid4 : ℕ → ℕ
  pub now : ℕ → ℕ
  pub sha256 : Text → Text
  pub dumps : Payload → Text
  pub smtp_configured : Bool
  pub smtp_accepts : ℕ → String → Bool
  pub is_header : String → Bool
  pub accepts : ℕ → Bool

pub record Session : Type 0 where
  pub current : Db
  pub committed : Db
  pub draws : ℕ

abbrev pub Action : Type 0 → Type 0
Action A = Session → Result A × Session

module _ {A : Type 0} where
  abbrev pub pure : A → Action A
  pure a s = (ok a, s)

  abbrev pub throw : Error → Action A
  throw e s = (raise e, s)

module _ {A B : Type 0} where
  abbrev pub and_then : Result A → (A → Action B) → Action B
  and_then (ok a) f = f a
  and_then (raise e) f = throw e

  infixl 5 ◌>>=◌ ◌>>◌
  abbrev pub ◌>>=◌ : Action A → (A → Action B) → Action B
  m >>= f = λ s. let (r, s') = m s in and_then r f s'

  abbrev pub ◌>>◌ : Action A → Action B → Action B
  m >> n = m >>= λ _. n

-- A query reads what the transaction sees.
abbrev pub query : {A : Type 0} → (Db → A) → Action A
query f s = (ok (f s.current), s)

-- A write is seen by the transaction from now on.
abbrev pub write : (Db → Db) → Action Unit
write f s = (ok tt, record s { current = f s.current })

abbrev pub commit : Action Unit
commit s = (ok tt, record s { committed = s.current })

-- The next value from outside.
abbrev pub draw : (ℕ → ℕ) → Action ℕ
draw f s = (ok (f s.draws), record s { draws = suc s.draws })

-- The first row of a query, or the exception.
abbrev pub one_or : {A : Type 0} → Error → Option A → Action A
one_or e o = elim o [ none ↦ throw e | some a ↦ pure a ]

-- The next answer from outside.
abbrev pub ask : {A : Type 0} → (ℕ → Result A) → Action A
ask f s = (f s.draws, record s { draws = suc s.draws })

abbrev pub of_result : {A : Type 0} → Result A → Action A
of_result (ok a) = pure a
of_result (raise e) = throw e

-- try: what is raised is a value.
abbrev pub attempt : {A : Type 0} → Action A → Action (Result A)
attempt m s = let (r, s') = m s in (ok r, s')

-- `m` for its effect, then a value.
abbrev pub then_return : {A B : Type 0} → Action A → B → Action B
then_return m b s = let (r, s') = m s in (elim r [ ok _ ↦ ok b | raise e ↦ raise e ], s')

-- A step that the outside world refuses or not; it draws nothing.
abbrev pub gate : (ℕ → Bool) → Error → Action Unit
gate allows e s = (if allows s.draws then ok tt else raise e, s)

-- A flush, or a statement, that the database may refuse. The session stays refused while nothing is
-- drawn, so that a flush or a commit in an except branch raises again.
abbrev pub flush : Env → Action Unit
flush env = gate env.accepts Error.database_error

-- get_db: the request's work is committed if it returns, and rolled back if it raises.
unfoldable pub get_db : {A : Type 0} → Action A → Db → ℕ → Result A × Db
get_db m db n =
    let (r, s) = m (record { current = db; committed = db; draws = n }) in
    elim r [ ok a ↦ (ok a, s.current) | raise e ↦ (raise e, s.committed) ]
