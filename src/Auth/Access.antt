-- ===== src/Auth/Access.antt =====
-- The access token (app/security/jwt.py and get_current_user of app/deps.py).
use danah_v.Prelude.{
  ℕ, suc, ◌+◌, ◌≤◌, ◌<◌, ◌≡◌, refl, true, ◌⊎◌, Option, none, some, arith, find_first, inl, inr,
  Option-cases, Bool-cases, str_eq,
}
use danah_v.Exceptions.{Error, ok, raise}
use danah_v.Models.{Text, User}
use danah_v.Session.{Env, Session}
use danah_v.Auth.{
  Claims, Secrets, AuthSettings, access_claims, has_user_id, create_access_token,
  decode_access_token, get_current_user,
}

-- What PyJWT promises of claims that it has signed itself: decoding gives them back from the time
-- of issue until the expiry.
pub record Signs (secrets : Secrets) (c : Claims) : Type 0 where
  pub accepts :
      (now : ℕ) → c.iat ≤ now → now < c.exp → secrets.decode now (secrets.encode c) ≡ some c

module _ (env : Env) (cfg : AuthSettings) (secrets : Secrets) where
  -- If PyJWT accepts what it has signed, an access token round-trips: until its lifetime has
  -- passed, the bearer is the row of the user it was issued to, as that row is at the time,
  -- provided that the account exists and is active.
  pub get_current_user-create_access_token :
      (user row : User) (s s' : Session) (token : Text) (expires_in : ℕ)
      → Signs secrets
          (access_claims env cfg secrets (env.now s.draws) (env.uuid4 (suc s.draws)) user)
      → (create_access_token env cfg secrets user s).0 ≡ ok (token, expires_in)
      → env.now s.draws ≤ env.now s'.draws
      → env.now s'.draws < env.now s.draws + expires_in
      → find_first (has_user_id user.id) s'.current.users ≡ some row
      → row.is_active ≡ true
      → (get_current_user env cfg secrets (some token) s').0 ≡ ok row
  unfolding create_access_token get_current_user decode_access_token
  get_current_user-create_access_token user row s s' token expires_in signs issued later live found
        active =
      ground (arith, signs.accepts (env.now s'.draws))

  -- Whoever the token names, a bearer is an active account that exists now: a token of an account
  -- that was deleted or deactivated is refused, and every refusal is the same error.
  pub get_current_user-active :
      (credentials : Option Text) (s : Session)
      → ((get_current_user env cfg secrets credentials s).0 ≡ raise Error.auth_error)
        ⊎ ((user : User) × (id : ℕ) × ((get_current_user env cfg secrets credentials s).0 ≡ ok user)
            × (find_first (has_user_id id) s.current.users ≡ some user)
            × (user.is_active ≡ true))
  unfolding get_current_user decode_access_token
  get_current_user-active none s = inl refl
  get_current_user-active (some token) s =
      elim (Option-cases (secrets.decode (env.now s.draws) token)) [
        | inl refused ↦ inl (ground arith)
        | inr (claims, decoded) ↦ elim (Option-cases claims.sub) [
          | inl anonymous ↦ inl (ground arith)
          | inr (id, named) ↦ elim (Option-cases (find_first (has_user_id id) s.current.users)) [
            | inl gone ↦ inl (ground arith)
            | inr (user, found) ↦ elim (Bool-cases (str_eq claims.token_type "access")) [
              | inr other ↦ inl (ground arith)
              | inl access ↦ elim (Bool-cases user.is_active) [
                | inr inactive ↦ inl (ground arith)
                | inl active ↦ inr (user, id, ground arith, found, active)
              ]
            ]
          ]
        ]
      ]
