-- ===== src/Tests/LlmTests.antt =====
-- Witnesses on the gateway.
use danah_v.Prelude.{
  refl, ℕ, ◌*◌, inl, inr, String, str_eq, true, Option, none, some, [], arith, ltb, max,
  if◌then◌else◌,
}
use danah_v.Exceptions.{Result}
use danah_v.Llm.{Outside, LlmResult, LlmSettings, Provider, World, complete_with_retries}
use danah_v.Llm.Retries.{Bounded, Spent, answer_of, complete_with_retries-Spent}
use danah_v.Llm.Structured.{
  Kept, ChatRequest, Asked, complete_structured, complete_structured-Asked,
}

abbrev settings : LlmSettings
settings = record {
  llm_max_retries = 3;
  anthropic_first = true;
  llm_model_primary = "large";
  llm_model_fast = "small";
  openai_model_primary = "other";
  openai_model_fast = "mini";
  price_for = λ model. (3_000_000, 15_000_000);
}

abbrev outside : Outside
outside = record { spread = λ n. 250; extra = λ n. 40; recorded = λ n. true }

outside-Bounded : Bounded outside
outside-Bounded n = omega arith

outside-Kept : Kept outside
outside-Kept n = refl

-- It refuses two calls for its quota, and then answers.
abbrev busy : Provider ChatRequest
busy = record {
  name = "anthropic";
  complete = λ n request model.
      if ltb n 2
      then inl (record { retryable = true; rate_limit = true; retry_after = some 7000 })
      else inr (record {
        text = reply n;
        usage = record { input_tokens = 120; output_tokens = 30 };
        provider = "";
        model = "";
      });
}
  where
    reply : ℕ → String
    reply n = if ltb n 3 then "not json" else "{}"

abbrev question : ChatRequest
question = record { system = ""; messages = []; temperature = 20; json_schema = "{}" }

abbrev quiet : World
quiet = record { calls = 0; delays = []; ledger = [] }

abbrev answered : Result LlmResult × World
answered = complete_with_retries settings outside busy none question "large" quiet

complete_with_retries-Spent_example :
    Spent settings outside (2 * max 1 3) (answer_of answered.0) quiet answered.1
complete_with_retries-Spent_example =
    complete_with_retries-Spent settings outside outside-Bounded busy none question "large" quiet

abbrev parse : String → Option ℕ
parse text = if str_eq text "{}" then some 0 else none

abbrev structured : Result (ℕ × LlmResult) × World
structured = complete_structured settings outside parse busy none question none quiet

complete_structured-Asked_example :
    Asked settings outside parse busy none (4 * max 1 3) structured.0 quiet structured.1
complete_structured-Asked_example =
    complete_structured-Asked settings outside parse busy none outside-Bounded outside-Kept question
      none quiet
