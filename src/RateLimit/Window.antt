-- ===== src/RateLimit/Window.antt =====
-- The window counts what it means to count (RateLimiter.check of app/security/rate_limit.py).
use danah_v.Prelude.{
  ℕ, ◌+◌, ◌≤◌, ◌<◌, ◌≡◌, refl, ◌∙◌, ap, Bool, true, ◌&&◌, some, List, [], ◌∷◌, arith, ltb, leb,
  if◌then◌else◌, filterb, length, insert_by, inl, inr, Bool-cases, All,
}
use danah_v.RateLimit.{Hit, within, zremrangebyscore, zadd, check, key_after, admitted}

abbrev pub count : (Hit → Bool) → List Hit → ℕ
count p [] = 0
count p (h ∷ hs) = (if p h then 1 else 0) + count p hs

length-filterb : (p : Hit → Bool) (hs : List Hit) → length (filterb p hs) ≡ count p hs
unfolding filterb
length-filterb p [] = refl
length-filterb p (h ∷ hs) = ground (arith, length-filterb p hs)

count-insert_by :
    (p : Hit → Bool) (before : Hit → Hit → Bool) (x : Hit) (hs : List Hit)
    → count p (insert_by before x hs) ≡ (if p x then 1 else 0) + count p hs
unfolding insert_by
count-insert_by p before x [] = refl
count-insert_by p before x (h ∷ hs) = ground (arith, count-insert_by p before x hs)

-- What is dropped at one time is outside the window at every later time.
count-zremrangebyscore :
    (t now : ℕ) (hs : List Hit)
    → t ≤ now
    → count (within now) (zremrangebyscore t hs) ≡ count (within now) hs
unfolding zremrangebyscore filterb
count-zremrangebyscore t now [] le = refl
count-zremrangebyscore t now (h ∷ hs) le = ground (arith, count-zremrangebyscore t now hs)

count_mono :
    (p q : Hit → Bool) (hs : List Hit)
    → ((h : Hit) → p h ≡ true → q h ≡ true)
    → count p hs ≤ count q hs
count_mono p q [] imp = omega arith
count_mono p q (h ∷ hs) imp = ground (arith, imp h, count_mono p q hs imp)

-- The hits of the window that ends at a time.
abbrev pub in_window : ℕ → Hit → Bool
in_window t h = within t h && leb h.at t

-- The clock does not run backwards: the latest request first.
abbrev pub Ordered : List Hit → Type 0
Ordered [] = Unit
Ordered (r ∷ past) = All (λ h. h.at ≤ r.at) past × Ordered past

module _ (limit : ℕ) (positive : 0 < limit) where
  check-key :
      (request : Hit) (key : List Hit)
      → (check limit (some request) key).1 ≡ zadd request (zremrangebyscore request.at key)
  unfolding check
  check-key request key = ground arith

  key_after-count :
      (now : ℕ) (past : List Hit)
      → All (λ h. h.at ≤ now) past
      → count (within now) (key_after limit past) ≡ count (within now) past
  unfolding key_after zadd
  key_after-count now [] before = refl
  key_after-count now (r ∷ past) (le, before) = rw (check-key r (key_after limit past)) (
      count-insert_by (within now) (λ x y. leb x.at y.at) r
        (zremrangebyscore r.at (key_after limit past))
      ∙ ap (λ k. (if within now r then 1 else 0) + k)
          (count-zremrangebyscore r.at now (key_after limit past) le
            ∙ key_after-count now past before))

  counted :
      (request : Hit) (past : List Hit)
      → All (λ h. h.at ≤ request.at) past
      → (check limit (some request) (key_after limit past)).0.0
        ≡ ltb (count (within request.at) past) limit
  unfolding check zremrangebyscore
  counted request past before = ground (
    arith,
    length-filterb (within request.at) (key_after limit past),
    key_after-count request.at past before,
  )

  count-admitted : (p : Hit → Bool) (past : List Hit) → count p (admitted limit past) ≤ count p past
  unfolding admitted
  count-admitted p [] = omega arith
  count-admitted p (r ∷ past) = ground (arith, count-admitted p past)

  -- With a positive limit and a clock that does not run backwards, the limit holds continuously: in
  -- every window of 60 seconds, wherever it ends, at most `limit` of the requests of an identity that
  -- are made while Redis answers are admitted. A request for which Redis fails is let through, and is
  -- not among those that are counted.
  pub admitted-bounded :
      (t : ℕ) (past : List Hit) → Ordered past → count (in_window t) (admitted limit past) ≤ limit
  unfolding admitted
  admitted-bounded t [] ordered = omega arith
  admitted-bounded t (r ∷ past) (before, ordered) =
      let rest = admitted-bounded t past ordered in
      let exact = counted r past before in
      elim (Bool-cases (in_window t r)) [
        | inr outside ↦ ground arith
        | inl inside ↦
            let fewer = count-admitted (in_window t) past in
            let seen = count_mono (in_window t) (within r.at) past (λ h w. ground arith) in
            ground arith
      ]
