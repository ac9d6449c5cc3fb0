-- ===== src/Llm.antt =====
-- app/services/llm/gateway.py and usage_tracker.py: a call of a language model with its retries, its
-- fallback, the repair of a structured answer, and the ledger of what was spent.
pub mod Cost
pub mod Retries
pub mod Structured
use danah_v.Prelude.{
  ◌⊎◌, inl, inr, ℕ, zero, suc, ◌+◌, ◌-◌, ◌*◌, ◌/◌, ◌^◌, String, str_eq, Bool, true, false, not,
  ◌&&◌, ◌||◌, Option, none, some, List, [], ◌∷◌, ◌++◌, if◌then◌else◌, min, max, is_none,
}
use danah_v.Exceptions.{Error, Result, ok, raise}

pub record TokenUsage : Type 0 where
  pub input_tokens : ℕ
  pub output_tokens : ℕ

pub record LlmResult : Type 0 where
  pub text : String
  pub usage : TokenUsage
  pub provider : String
  pub model : String

-- What a provider's client raises, as the gateway asks about it. Times are in milliseconds.
pub record Failure : Type 0 where
  pub retryable : Bool
  pub rate_limit : Bool
  pub retry_after : Option ℕ

-- A vendor's client: its n-th call, of a request and a model, answers or fails. A call that is
-- cut off by the timeout is a failure that can be retried.
pub record Provider (Request : Type 0) : Type 0 where
  pub name : String
  pub complete : ℕ → Request → String → (Failure ⊎ LlmResult)

pub record ApiUsage : Type 0 where
  pub provider : String
  pub model : String
  pub tokens_in : ℕ
  pub tokens_out : ℕ
  pub cost_usd : ℕ

-- The world as the gateway changes it: how many calls were made, the delays it slept, the ledger.
pub record World : Type 0 where
  pub calls : ℕ
  pub delays : List ℕ
  pub ledger : List ApiUsage

-- What comes from outside: random.random() in thousandths, for the n-th delay, and whether the row of
-- the n-th call is written to the ledger.
pub record Outside : Type 0 where
  pub spread : ℕ → ℕ
  pub extra : ℕ → ℕ
  pub recorded : ℕ → Bool

pub record LlmSettings : Type 0 where
  pub llm_max_retries : ℕ
  pub anthropic_first : Bool
  pub llm_model_primary : String
  pub llm_model_fast : String
  pub openai_model_primary : String
  pub openai_model_fast : String
  pub price_for : String → ℕ × ℕ

-- Decimal.quantize with ROUND_HALF_UP. A price is in millionths of a dollar per million tokens,
-- the cost in millionths of a dollar.
unfoldable pub compute_cost_usd : LlmSettings → String → ℕ → ℕ → ℕ
compute_cost_usd cfg model tokens_in tokens_out =
    let (price_in, price_out) = cfg.price_for model in
    (tokens_in * price_in + tokens_out * price_out + 500_000) / 1_000_000

-- model_for of a tier that is "primary" or not.
abbrev tier_model : LlmSettings → String → String
tier_model cfg tier =
    if cfg.anthropic_first
    then (if str_eq tier "primary" then cfg.llm_model_primary else cfg.llm_model_fast)
    else if str_eq tier "primary"
    then cfg.openai_model_primary
    else cfg.openai_model_fast

unfoldable pub model_for : LlmSettings → String → Option String → String
model_for cfg tier none = tier_model cfg tier
model_for cfg tier (some model) = if str_eq model "" then tier_model cfg tier else model

-- _fallback_model
unfoldable pub fallback_model : LlmSettings → String → String
fallback_model cfg primary_model =
    let is_fast =
      str_eq primary_model cfg.llm_model_fast || str_eq primary_model cfg.openai_model_fast in
    if cfg.anthropic_first
    then (if is_fast then cfg.openai_model_fast else cfg.openai_model_primary)
    else if is_fast
    then cfg.llm_model_fast
    else cfg.llm_model_primary

abbrev pub or_zero : Option ℕ → ℕ
or_zero none = 0
or_zero (some n) = n

-- The delay before the next attempt.
unfoldable pub retry_delay : Outside → ℕ → ℕ → Failure → ℕ
retry_delay outside n attempt failure =
    let curve = min (2 ^ attempt) 8 * (500 + outside.spread n) in
    let delay =
      if failure.rate_limit
      then max (or_zero failure.retry_after) (max curve (20_000 * 2 ^ attempt))
      else curve in
    min delay 65_000 + outside.extra n

-- The row of record_usage.
abbrev pub usage_row : LlmSettings → String → String → TokenUsage → ApiUsage
usage_row cfg provider model usage = record {
  provider = provider;
  model = model;
  tokens_in = usage.input_tokens;
  tokens_out = usage.output_tokens;
  cost_usd = compute_cost_usd cfg model usage.input_tokens usage.output_tokens;
}

-- record_usage: a row of its own transaction, for the n-th call. A write that fails is logged, and
-- there is no row.
abbrev pub record_usage : Outside → ℕ → ApiUsage → List ApiUsage
record_usage outside n row = if outside.recorded n then row ∷ [] else []

abbrev pub called : World → World
called w = record w { calls = suc w.calls }

abbrev pub slept : ℕ → World → World
slept delay w = record w { delays = w.delays ++ delay ∷ [] }

module _ {Request : Type 0} (cfg : LlmSettings) (outside : Outside) where
  -- _record: only a success reaches the ledger.
  abbrev pub succeeded : Provider Request → String → LlmResult → World → World
  succeeded provider model result w = record (called w) {
    ledger =
        w.ledger ++ record_usage outside w.calls (usage_row cfg provider.name model result.usage);
  }

  abbrev pub named : Provider Request → String → LlmResult → LlmResult
  named provider model result = record result { provider = provider.name; model = model }

  abbrev retried : Provider Request → String → ℕ → Failure → World → World
  retried provider model attempt failure w = slept (retry_delay outside w.calls attempt failure) w

  -- The loop over the attempts: `left` of them after this one. Nothing if the provider is exhausted.
  unfoldable pub attempts :
      Provider Request → Request → String → ℕ → ℕ → World → Option LlmResult × World
  unfolding retry_delay
  attempts provider request model attempt zero w = elim (provider.complete w.calls request model) [
    | inl failure ↦ (none, called w)
    | inr result ↦ (some (named provider model result), succeeded provider model result w)
  ]
  attempts provider request model attempt (suc left) w =
      elim (provider.complete w.calls request model) [
        | inl failure ↦ elim failure.retryable [
          | false ↦ (none, called w)
          | true ↦
              attempts provider request model (suc attempt) left
                (retried provider model attempt failure (called w))
        ]
        | inr result ↦ (some (named provider model result), succeeded provider model result w)
      ]

  -- max(1, cfg.llm_max_retries) attempts.
  abbrev pub exhaust : Provider Request → Request → String → World → Option LlmResult × World
  exhaust provider request model w =
      attempts provider request model 0 (max 1 cfg.llm_max_retries - 1) w

  -- _complete_with_retries: the other vendor is tried once the first is exhausted, and no third.
  unfoldable pub fail_over :
      Option (Provider Request) → Request → String → World → Result LlmResult × World
  fail_over none request model w = (raise Error.llm_gateway_error, w)
  fail_over (some fallback) request model w =
      let (answer, w') = exhaust fallback request (fallback_model cfg model) w in
      elim answer [ none ↦ (raise Error.llm_gateway_error, w') | some result ↦ (ok result, w') ]

  unfoldable pub complete_with_retries :
      Provider Request
      → Option (Provider Request)
      → Request
      → String
      → World
      → Result LlmResult × World
  unfolding attempts fail_over
  complete_with_retries primary fallback request model w =
      let (answer, w') = exhaust primary request model w in
      elim answer [ none ↦ fail_over fallback request model w' | some result ↦ (ok result, w') ]

  unfoldable pub complete :
      Provider Request
      → Option (Provider Request)
      → Request
      → Option String
      → World
      → Result LlmResult × World
  unfolding complete_with_retries model_for
  complete primary fallback request model w =
      complete_with_retries primary fallback request (model_for cfg "primary" model) w
