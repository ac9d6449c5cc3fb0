-- ===== src/Auth/Rotation.antt =====
-- The refresh token is single-use, and its reuse is detected (rotate_refresh_token of
-- app/services/auth_service.py).
use danah_v.Prelude.{
  ℕ, suc, ◌≡◌, refl, ap, ◌∙◌, subst, ◌≢◌, none, some, List, [], ◌∷◌, ◌++◌, arith, find_first,
  modify_first, modify_where, inl, inr, Option-cases, All, ==_iff, find_first-append,
  find_first-modify_first, find_first-holds,
}
use danah_v.Exceptions.{Error, ok, raise}
use danah_v.Models.{Db, RefreshToken, Text, User}
use danah_v.Session.{Env, Session, get_db}
use danah_v.Session.Keeps.{request, get_db-raise, get_db-ok}
use danah_v.Auth
use danah_v.Auth.{
  Secrets, AuthSettings, has_token_hash, is_outstanding, revoke, revoke_all_for_user,
  issue_token_pair, create_access_token, spend_token, refuse_reuse, rotate_refresh_token,
}

-- No token of the user is outstanding.
abbrev pub Revoked : ℕ → List RefreshToken → Type 0
Revoked user_id tokens = All (λ t. t.user_id ≡ user_id → t.revoked_at ≢ none) tokens

modify_where-Revoked :
    (user_id now : ℕ) (tokens : List RefreshToken)
    → Revoked user_id (modify_where (is_outstanding user_id) (revoke now) tokens)
unfolding modify_where
modify_where-Revoked user_id now [] = tt
modify_where-Revoked user_id now (t ∷ tokens) =
    (ground arith, modify_where-Revoked user_id now tokens)

module _ (env : Env) (cfg : AuthSettings) (secrets : Secrets) (token : Text) where
  abbrev family_revoked : ℕ → ℕ → Db → Db
  family_revoked now user_id db = record db {
    refresh_tokens = modify_where (is_outstanding user_id) (revoke now) db.refresh_tokens;
  }

  reused :
      (s : Session) (row : RefreshToken) (at : ℕ)
      → find_first (has_token_hash (env.sha256 token)) s.current.refresh_tokens ≡ some row
      → row.revoked_at ≡ some at
      → let gone = family_revoked (env.now s.draws) row.user_id s.current in
        rotate_refresh_token env cfg secrets token s
        ≡ (raise Error.auth_error, record { current = gone; committed = gone; draws = suc s.draws })
  unfolding rotate_refresh_token refuse_reuse revoke_all_for_user
  reused s row at found e = ground arith

  -- A refresh token that was spent before is refused, and every token of its owner is revoked in
  -- the database that the request leaves, although a request that raises is rolled back.
  pub rotate_refresh_token-reuse :
      (db : Db) (n : ℕ) (row : RefreshToken)
      → find_first (has_token_hash (env.sha256 token)) db.refresh_tokens ≡ some row
      → row.revoked_at ≢ none
      → ((get_db (rotate_refresh_token env cfg secrets token) db n).0 ≡ raise Error.auth_error)
        × Revoked row.user_id
            (get_db (rotate_refresh_token env cfg secrets token) db n).1.refresh_tokens
  rotate_refresh_token-reuse db n row found spent = elim (Option-cases row.revoked_at) [
    | inl e ↦ absurd (spent e)
    | inr (at, e) ↦
        rw
          (get_db-raise (rotate_refresh_token env cfg secrets token) db n Error.auth_error _
            (reused (record { current = db; committed = db; draws = n }) row at found e))
          (refl, modify_where-Revoked row.user_id (env.now n) db.refresh_tokens)
  ]

  owned :
      (owner : User) (row : RefreshToken) (users : List User)
      → find_first (Auth.has_user_id row.user_id) users ≡ some owner
      → owner.id ≡ row.user_id
  owned owner row users held = (==_iff owner.id row.user_id).0 (find_first-holds _ users owner held)

  -- The tokens after a rotation: the presented one revoked, and a new one.
  pub rotated :
      (s : Session) (u : User) (access fresh : Text) (expires_in : ℕ)
      → (rotate_refresh_token env cfg secrets token s).0 ≡ ok (u, access, fresh, expires_in)
      → (row : RefreshToken) × (now now' : ℕ) × (find_first
            (has_token_hash (env.sha256 token))
            s.current.refresh_tokens
          ≡ some row)
        × (row.user_id ≡ u.id)
        × ((rotate_refresh_token env cfg secrets token s).1.current.refresh_tokens
            ≡ modify_first (has_token_hash (env.sha256 token)) (revoke now) s.current.refresh_tokens
              ++ Auth.refresh_row env cfg secrets u.id fresh now' ∷ [])
  unfolding rotate_refresh_token spend_token issue_token_pair create_access_token refuse_reuse
      revoke_all_for_user
  rotated s u access fresh expires_in h =
      elim (Option-cases
        (find_first (has_token_hash (env.sha256 token)) s.current.refresh_tokens)) [
          | inl missing ↦ absurd (ground arith)
          | inr (row, found) ↦ elim (Option-cases row.revoked_at) [
            | inr (at, e) ↦ absurd (cc (h, ap (λ x. x.0) (reused s row at found e)))
            | inl e ↦
                elim (Option-cases (find_first (Auth.has_user_id row.user_id) s.current.users)) [
                  | inl gone ↦ absurd (ground arith)
                  | inr (owner, held) ↦ (
                    row,
                    env.now s.draws,
                    env.now (suc (suc (suc (suc s.draws)))),
                    found,
                    ground (arith, owned owner row s.current.users held),
                    ground arith,
                  )
                ]
          ]
        ]

  -- A refresh token is single-use: once it has been rotated, presenting it again is refused, and
  -- then no token of its owner is outstanding, the one that it was rotated into included.
  pub rotate_refresh_token-twice :
      (db : Db) (n m : ℕ) (u : User) (access fresh : Text) (expires_in : ℕ)
      → (get_db (rotate_refresh_token env cfg secrets token) db n).0
        ≡ ok (u, access, fresh, expires_in)
      → let once = (get_db (rotate_refresh_token env cfg secrets token) db n).1 in
        let twice = get_db (rotate_refresh_token env cfg secrets token) once m in
        (twice.0 ≡ raise Error.auth_error) × Revoked u.id twice.1.refresh_tokens
  rotate_refresh_token-twice db n m u access fresh expires_in h =
      let rotate = rotate_refresh_token env cfg secrets token in
      let (returned, left) = get_db-ok rotate db n (u, access, fresh, expires_in) h in
      let (row, now, now', found, same, tokens) =
        rotated (request rotate db n) u access fresh expires_in returned in
      let hash = env.sha256 token in
      let once = (get_db rotate db n).1 in
      let spent =
        find_first-append (has_token_hash hash) _
          (Auth.refresh_row env cfg secrets u.id fresh now' ∷ []) (revoke now row)
          (find_first-modify_first (has_token_hash hash) (revoke now) db.refresh_tokens row found
            (find_first-holds (has_token_hash hash) db.refresh_tokens row found)) in
      subst
        (λ id.
          (get_db rotate once m).0 ≡ raise Error.auth_error
          × Revoked id (get_db rotate once m).1.refresh_tokens)
        same
        (rotate_refresh_token-reuse once m (revoke now row)
          (ap (λ d. find_first (has_token_hash hash) d.refresh_tokens) left
            ∙ (ap (find_first (has_token_hash hash)) tokens ∙ spent))
          (λ e. cc))
