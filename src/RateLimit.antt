-- ===== src/RateLimit.antt =====
-- app/security/rate_limit.py: the sliding window, over a Redis sorted set. Times are in
-- milliseconds.
pub mod Window
use danah_v.Prelude.{
  ℕ, suc, ◌+◌, ◌-◌, ◌*◌, ◌/◌, String, str_eq, Bool, true, false, not, ◌&&◌, Option, none, some,
  List, [], ◌∷◌, ◌++◌, ltb, leb, ◌==◌, if◌then◌else◌, filterb, length, max, insert_by,
}

-- A member of a sorted set with its score: the member is unique, the score is the time.
pub record Hit : Type 0 where
  pub at : ℕ
  pub member : ℕ

-- WINDOW_SECONDS, in milliseconds.
abbrev pub window : ℕ
window = 60_000

-- ZREMRANGEBYSCORE key 0 cutoff: the bounds are inclusive.
abbrev pub within : ℕ → Hit → Bool
within now h = not (leb (h.at + window) now)

unfoldable pub zremrangebyscore : ℕ → List Hit → List Hit
unfolding filterb
zremrangebyscore now key = filterb (within now) key

-- ZADD, which keeps the set in the order of the scores; and ZRANGE key 0 0.
unfoldable pub zadd : Hit → List Hit → List Hit
unfolding insert_by
zadd h key = insert_by (λ x y. leb x.at y.at) h key

abbrev pub oldest : List Hit → Option Hit
oldest [] = none
oldest (h ∷ key) = some h

-- max(1, int(WINDOW_SECONDS - (now - oldest)))
unfoldable pub retry_after : ℕ → Option Hit → ℕ
retry_after now none = 60
retry_after now (some h) = max 1 ((window - (now - h.at)) / 1000)

-- A request's answer, (allowed, retry_after_seconds), with the set that it leaves. `none` is a
-- RedisError: the pipeline is one transaction, so it leaves the set as it was.
unfoldable pub check : ℕ → Option Hit → List Hit → (Bool × ℕ) × List Hit
unfolding zremrangebyscore zadd retry_after
check limit none key = ((true, 0), key)
check limit (some request) key =
    if limit == 0
    then ((true, 0), key)
    else let recent = zremrangebyscore request.at key in
      let key' = zadd request recent in
      if leb limit (length recent)
      then ((false, retry_after request.at (oldest key')), key')
      else ((true, 0), key')

-- The requests of one identity, the latest first: the set after them, and which were admitted.
unfoldable pub key_after : ℕ → List Hit → List Hit
unfolding check
key_after limit [] = []
key_after limit (request ∷ past) = (check limit (some request) (key_after limit past)).1

unfoldable pub admitted : ℕ → List Hit → List Hit
unfolding check key_after
admitted limit [] = []
admitted limit (request ∷ past) =
    let rest = admitted limit past in
    if (check limit (some request) (key_after limit past)).0.0 then request ∷ rest else rest
