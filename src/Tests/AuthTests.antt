-- ===== src/Tests/AuthTests.antt =====
-- Witnesses on authentication.
use danah_v.Prelude.{◌≡◌, refl, true, false, none, some, [], ◌∷◌, arith, find_first}
use danah_v.Exceptions.{Error, ok, raise}
use danah_v.Models.{Db, RefreshToken, User}
use danah_v.Session.{Session, get_db}
use danah_v.Audit.{same_text}
use danah_v.Auth.{
  AuthSettings, Claims, Secrets, access_claims, authenticate, create_access_token, get_current_user,
  has_email, has_token_hash, has_user_id, issue_token_pair, renewed_hash, rotate_refresh_token,
  spend_token,
}
use danah_v.Auth.Login.{authenticate-ok}
use danah_v.Auth.Rotation.{Revoked, rotate_refresh_token-reuse, rotate_refresh_token-twice}
use danah_v.Auth.Access.{Signs, get_current_user-create_access_token}
use danah_v.Tests.{sample_env, executive, first_db, first_session}

abbrev settings : AuthSettings
settings = record { access_token_expire_minutes = 15; refresh_token_expire_days = 14 }

-- A toy in place of the libraries: every token decodes to the claims that were issued first.
abbrev claims : Claims
claims = record {
  sub = some 7;
  role = "executive";
  email = "head@example.org";
  token_type = "access";
  iss = "danah";
  aud = "danah-api";
  iat = 1000;
  exp = 1900;
  jti = 101;
}

abbrev toy : Secrets
toy = record {
  hash = λ n password. n ∷ [];
  verify = λ hash password. same_text hash (1 ∷ []);
  check_needs_rehash = λ hash. false;
  token_urlsafe = λ n. n ∷ n ∷ [];
  strip_lower = λ address. address;
  lower = λ address. address;
  encode = λ c. c.iat ∷ [];
  decode = λ now token. some claims;
}

abbrev token_row : RefreshToken
token_row = record {
  user_id = 7;
  token_hash = sample_env.sha256 (5 ∷ []);
  expires_at = 90_000;
  revoked_at = none;
}

abbrev live : Db
live = record first_db { refresh_tokens = token_row ∷ [] }

abbrev spent : Db
spent = record first_db { refresh_tokens = (record token_row { revoked_at = some 900 }) ∷ [] }

live_rotates :
    (get_db (rotate_refresh_token sample_env settings toy (5 ∷ [])) live 0).0
    ≡ ok (executive, 1001 ∷ [], 3 ∷ 3 ∷ [], 900)
unfolding get_db rotate_refresh_token spend_token issue_token_pair create_access_token find_first
live_rotates = refl

abbrev once : Db
once = (get_db (rotate_refresh_token sample_env settings toy (5 ∷ [])) live 0).1

rotate_refresh_token-twice_example :
    let twice = get_db (rotate_refresh_token sample_env settings toy (5 ∷ [])) once 10 in
    (twice.0 ≡ raise Error.auth_error) × Revoked 7 twice.1.refresh_tokens
rotate_refresh_token-twice_example =
    rotate_refresh_token-twice sample_env settings toy (5 ∷ []) live 0 10 executive (1001 ∷ [])
      (3 ∷ 3 ∷ []) 900 live_rotates

spent_found :
    find_first (has_token_hash (sample_env.sha256 (5 ∷ []))) spent.refresh_tokens
    ≡ some (record token_row { revoked_at = some 900 })
unfolding find_first
spent_found = refl

rotate_refresh_token-reuse_example :
    ((get_db (rotate_refresh_token sample_env settings toy (5 ∷ [])) spent 0).0
      ≡ raise Error.auth_error)
    × Revoked 7
        (get_db (rotate_refresh_token sample_env settings toy (5 ∷ [])) spent 0).1.refresh_tokens
rotate_refresh_token-reuse_example =
    rotate_refresh_token-reuse sample_env settings toy (5 ∷ []) spent 0
      (record token_row { revoked_at = some 900 }) spent_found (λ e. cc)

logs_in :
    (authenticate sample_env settings toy "head@example.org" "pw" first_session).0
    ≡ ok (record executive { last_login_at = some 1000 })
unfolding authenticate renewed_hash find_first
logs_in = refl

authenticate-ok_example :
    (row : User) × (find_first
        (has_email sample_env settings toy "head@example.org")
        first_session.current.users
      ≡ some row)
    × (toy.verify row.password_hash "pw" ≡ true)
    × (row.is_active ≡ true)
    × (7 ≡ row.id)
    × (executive.role ≡ row.role)
authenticate-ok_example =
    authenticate-ok sample_env settings toy "head@example.org" "pw" first_session
      (record executive { last_login_at = some 1000 }) logs_in

stranger_refused :
    (authenticate sample_env settings toy "nobody@example.org" "pw" first_session).0
    ≡ raise Error.auth_error
unfolding authenticate renewed_hash find_first
stranger_refused = refl

signed : Signs toy (access_claims sample_env settings toy 1000 101 executive)
signed = record { accepts = λ now from until. refl }

issued :
    (create_access_token sample_env settings toy executive first_session).0 ≡ ok (1000 ∷ [], 900)
unfolding create_access_token
issued = refl

executive_found : find_first (has_user_id 7) first_db.users ≡ some executive
unfolding find_first
executive_found = refl

abbrev later : Session
later = record first_session { draws = 60 }

get_current_user-create_access_token_example :
    (get_current_user sample_env settings toy (some (1000 ∷ [])) later).0 ≡ ok executive
get_current_user-create_access_token_example =
    get_current_user-create_access_token sample_env settings toy executive executive first_session
      later (1000 ∷ []) 900 signed issued (omega arith) (omega arith) executive_found refl
