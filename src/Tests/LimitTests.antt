-- ===== src/Tests/LimitTests.antt =====
-- Witnesses on the rate limiter.
use danah_v.Prelude.{ℕ, ◌≤◌, List, [], ◌∷◌, arith}
use danah_v.RateLimit.{Hit, admitted}
use danah_v.RateLimit.Window.{count, in_window, admitted-bounded}

abbrev hit : ℕ → ℕ → Hit
hit at member = record { at = at; member = member }

-- Three requests, the latest first, with a limit of two.
abbrev burst : List Hit
burst = hit 3000 3 ∷ hit 2000 2 ∷ hit 1000 1 ∷ []

admitted-bounded_example : count (in_window 4000) (admitted 2 burst) ≤ 2
admitted-bounded_example =
    admitted-bounded 2 (omega arith) 4000 burst
      ((omega arith, (omega arith, tt)), ((omega arith, tt), (tt, tt)))
