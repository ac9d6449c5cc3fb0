-- ===== src/Llm/Cost.antt =====
-- The cost of a call (compute_cost_usd of app/services/llm/usage_tracker.py).
use danah_v.Prelude.{ℕ, ◌+◌, ◌*◌, ◌≤◌, ◌<◌, String, arith}
use danah_v.Llm.{LlmSettings, compute_cost_usd}

module _ (cfg : LlmSettings) (model : String) where
  -- The exact price of a call, in millionths of a millionth of a dollar.
  abbrev pub exact : ℕ → ℕ → ℕ
  exact tokens_in tokens_out =
      let (price_in, price_out) = cfg.price_for model in
      tokens_in * price_in + tokens_out * price_out

  -- The cost is the exact price rounded to the nearest millionth of a dollar, a half upwards.
  pub compute_cost_usd-nearest :
      (tokens_in tokens_out : ℕ)
      → (2 * exact tokens_in tokens_out
          < 2 * (1_000_000 * compute_cost_usd cfg model tokens_in tokens_out) + 1_000_000)
        × (2 * (1_000_000 * compute_cost_usd cfg model tokens_in tokens_out)
            ≤ 2 * exact tokens_in tokens_out + 1_000_000)
  unfolding compute_cost_usd
  compute_cost_usd-nearest tokens_in tokens_out = (omega arith, omega arith)
