-- ===== src/Auth.antt =====
-- app/services/auth_service.py, app/security/jwt.py, app/security/passwords.py and get_current_user
-- of app/deps.py: login, the access token, and the refresh token that is spent by using it.
pub mod Login
pub mod Rotation
pub mod Access
use danah_v.Prelude.{
  ℕ, String, str_eq, Bool, true, false, not, ◌&&◌, Option, none, some, List, [], ◌∷◌, ◌++◌, ◌+◌,
  ◌*◌, ◌==◌, leb, length, is_none, if◌then◌else◌, find_first, modify_first, modify_where, filterb,
}
use danah_v.Enums.{Role, role_value}
use danah_v.Exceptions.{Error}
use danah_v.Models.{Db, RefreshToken, Text, User}
use danah_v.Audit.{same_text}
use danah_v.Session.{Env, Action, pure, throw, query, write, draw, commit, one_or, ◌>>=◌, ◌>>◌}

-- The payload of an access token; times are in seconds.
pub record Claims : Type 0 where
  pub sub : Option ℕ
  pub role : String
  pub email : String
  pub token_type : String
  pub iss : String
  pub aud : String
  pub iat : ℕ
  pub exp : ℕ
  pub jti : ℕ

-- argon2, secrets and PyJWT, with the foldings of an address. `decode` is jwt.decode at a time,
-- with its checks of the signature, the issuer, the audience and the expiry.
pub record Secrets : Type 0 where
  pub hash : ℕ → String → Text
  pub verify : Text → String → Bool
  pub check_needs_rehash : Text → Bool
  pub token_urlsafe : ℕ → Text
  pub strip_lower : String → String
  pub lower : String → String
  pub encode : Claims → Text
  pub decode : ℕ → Text → Option Claims

pub record AuthSettings : Type 0 where
  pub access_token_expire_minutes : ℕ
  pub refresh_token_expire_days : ℕ

abbrev pub has_user_id : ℕ → User → Bool
has_user_id id u = u.id == id

abbrev pub has_token_hash : Text → RefreshToken → Bool
has_token_hash hash t = same_text t.token_hash hash

-- RefreshToken.revoked_at.is_(None) of a user.
abbrev pub is_outstanding : ℕ → RefreshToken → Bool
is_outstanding user_id t = t.user_id == user_id && is_none t.revoked_at

abbrev pub revoke : ℕ → RefreshToken → RefreshToken
revoke now t = record t { revoked_at = some now }

unfoldable pub revoke_all_for_user : Env → ℕ → Action ℕ
revoke_all_for_user env user_id = do
  rows ← query (λ db. filterb (is_outstanding user_id) db.refresh_tokens)
  now ← draw env.now
  write (λ db. record db {
    refresh_tokens = modify_where (is_outstanding user_id) (revoke now) db.refresh_tokens;
  })
  pure (length rows)

module _ (env : Env) (cfg : AuthSettings) (secrets : Secrets) where
  abbrev pub has_email : String → User → Bool
  has_email email u = str_eq (secrets.lower u.email) (secrets.strip_lower email)

  abbrev pub logged_in : Text → ℕ → User → User
  logged_in hash now u = record u { password_hash = hash; last_login_at = some now }

  -- The hash that a login leaves: a new one if the old has weaker parameters.
  unfoldable pub renewed_hash : User → String → Action Text
  renewed_hash user password =
      if secrets.check_needs_rehash user.password_hash
      then (do n ← draw (λ n. n); pure (secrets.hash n password))
      else pure user.password_hash

  unfoldable pub authenticate : String → String → Action User
  unfolding renewed_hash
  authenticate email password = do
    found ← query (λ db. find_first (has_email email) db.users)
    user ← one_or Error.auth_error found
    if not (secrets.verify user.password_hash password)
        then throw Error.auth_error
        else if not user.is_active
        then throw Error.auth_error
        else do
          hash ← renewed_hash user password
          now ← draw env.now
          write (λ db. record db {
            users = modify_first (has_user_id user.id) (logged_in hash now) db.users;
          })
          pure (logged_in hash now user)

  abbrev pub lifetime : ℕ
  lifetime = cfg.access_token_expire_minutes * 60

  abbrev pub access_claims : ℕ → ℕ → User → Claims
  access_claims now jti user = record {
    sub = some user.id;
    role = role_value user.role;
    email = user.email;
    token_type = "access";
    iss = "danah";
    aud = "danah-api";
    iat = now;
    exp = now + lifetime;
    jti = jti;
  }

  -- The token and its lifetime in seconds.
  unfoldable pub create_access_token : User → Action (Text × ℕ)
  create_access_token user = do
    now ← draw env.now
    jti ← draw env.uuid4
    pure (secrets.encode (access_claims now jti user), lifetime)

  abbrev pub refresh_row : ℕ → Text → ℕ → RefreshToken
  refresh_row user_id token now = record {
    user_id = user_id;
    token_hash = env.sha256 token;
    expires_at = now + cfg.refresh_token_expire_days * 86_400;
    revoked_at = none;
  }

  -- An access token, a refresh token and the lifetime of the first.
  unfoldable pub issue_token_pair : User → Action (Text × Text × ℕ)
  unfolding create_access_token
  issue_token_pair user = do
    (access_token, expires_in) ← create_access_token user
    n ← draw (λ n. n)
    let refresh_token = secrets.token_urlsafe n
    now ← draw env.now
    write (λ db. record db {
      refresh_tokens = db.refresh_tokens ++ refresh_row user.id refresh_token now ∷ [];
    })
    pure (access_token, refresh_token, expires_in)

  -- The token has not been spent: it is spent now, if it is live and its owner is active.
  unfoldable pub spend_token : Text → RefreshToken → Action (User × Text × Text × ℕ)
  unfolding issue_token_pair
  spend_token hash row = do
    now ← draw env.now
    if leb row.expires_at now then throw Error.auth_error else do
      found ← query (λ db. find_first (has_user_id row.user_id) db.users)
      user ← one_or Error.auth_error found
      if not user.is_active then throw Error.auth_error else do
        write (λ db. record db {
          refresh_tokens = modify_first (has_token_hash hash) (revoke now) db.refresh_tokens;
        })
        (access_token, refresh_token, expires_in) ← issue_token_pair user
        pure (user, access_token, refresh_token, expires_in)

  -- The token has been spent before: its whole family is revoked, and that is committed.
  unfoldable pub refuse_reuse : RefreshToken → Action (User × Text × Text × ℕ)
  unfolding revoke_all_for_user
  refuse_reuse row = do revoke_all_for_user env row.user_id; commit; throw Error.auth_error

  unfoldable pub rotate_refresh_token : Text → Action (User × Text × Text × ℕ)
  unfolding spend_token refuse_reuse
  rotate_refresh_token token = do
    found ← query (λ db. find_first (has_token_hash (env.sha256 token)) db.refresh_tokens)
    row ← one_or Error.auth_error found
    if not (is_none row.revoked_at) then refuse_reuse row else spend_token (env.sha256 token) row

  -- decode_access_token: what PyJWT accepts, if its type is "access".
  unfoldable pub decode_access_token : Text → Action Claims
  decode_access_token token = do
    now ← draw env.now
    payload ← one_or Error.auth_error (secrets.decode now token)
    if not (str_eq payload.token_type "access") then throw Error.auth_error else pure payload

  -- The bearer of a token: the row of the user as it is now, if it is active. A header without a
  -- token, or with an empty one, is `none`.
  unfoldable pub get_current_user : Option Text → Action User
  unfolding decode_access_token
  get_current_user credentials = do
    token ← one_or Error.auth_error credentials
    payload ← decode_access_token token
    user_id ← one_or Error.auth_error payload.sub
    found ← query (λ db. find_first (has_user_id user_id) db.users)
    user ← one_or Error.auth_error found
    if not user.is_active then throw Error.auth_error else pure user
