-- ===== src/Auth/Login.antt =====
-- Who gets past authenticate (app/services/auth_service.py).
use danah_v.Prelude.{String, ◌≡◌, true, some, arith, find_first, inl, inr, Option-cases}
use danah_v.Exceptions.{Error, ok, raise}
use danah_v.Models.{User}
use danah_v.Session.{Env, Session}
use danah_v.Auth.{Secrets, AuthSettings, has_email, authenticate, renewed_hash}

module _ (env : Env) (cfg : AuthSettings) (secrets : Secrets) (email password : String)
    (s : Session) where
  -- A login succeeds only for an active account with this address and this password: the user it
  -- returns is the row on file, but for the password hash and the time of the login.
  pub authenticate-ok :
      (u : User)
      → (authenticate env cfg secrets email password s).0 ≡ ok u
      → (row : User) × (find_first (has_email env cfg secrets email) s.current.users ≡ some row)
        × (secrets.verify row.password_hash password ≡ true)
        × (row.is_active ≡ true)
        × (u.id ≡ row.id)
        × (u.role ≡ row.role)
  unfolding authenticate renewed_hash
  authenticate-ok u h =
      elim (Option-cases (find_first (has_email env cfg secrets email) s.current.users)) [
        | inl missing ↦ absurd (ground arith)
        | inr (row, found) ↦ (row, found, ground arith, ground arith, ground arith, ground arith)
      ]

  -- Every refusal is the same error, and writes nothing.
  pub authenticate-raise :
      (e : Error)
      → (authenticate env cfg secrets email password s).0 ≡ raise e
      → (e ≡ Error.auth_error) × ((authenticate env cfg secrets email password s).1 ≡ s)
  unfolding authenticate renewed_hash
  authenticate-raise e h = (ground arith, ground arith)
