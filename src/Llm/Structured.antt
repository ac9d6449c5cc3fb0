-- ===== src/Llm/Structured.antt =====
-- complete_structured of app/services/llm/gateway.py: an answer that has to be read as a value of a
-- schema, with one repair.
use danah_v.Prelude.{
  true, ℕ, ◌+◌, ◌*◌, ◌≤◌, ◌≡◌, refl, sym, ap, ◌∙◌, ++-assoc, ++-[], length, String, str_append,
  Option, none, some, List, [], ◌∷◌, ◌++◌, arith, max, inl, inr, Option-cases,
}
use danah_v.Exceptions.{Error, Result, ok, raise}
use danah_v.Llm.{
  ApiUsage, Outside, LlmResult, LlmSettings, Provider, World, usage_row, complete, model_for,
}
use danah_v.Llm.Retries.{Bounded, Spent, answer_of, complete_with_retries-Spent, Billed, written}

pub record Message : Type 0 where
  pub role : String
  pub content : String

-- What a call sends. The temperature is in hundredths.
pub record ChatRequest : Type 0 where
  pub system : String
  pub messages : List Message
  pub temperature : ℕ
  pub json_schema : String

-- The conversation of the repair: the reply, and what is asked of the next one.
abbrev pub repair_request : ChatRequest → String → ChatRequest
repair_request request reply = record request {
  messages =
      request.messages
      ++ (record { role = "assistant"; content = reply })
        ∷ (record {
          role = "user";
          content =
              str_append
                "Your previous reply did not conform to the required JSON schema and could not be parsed. Reply again with ONLY a single JSON object that validates against this schema. No prose, no markdown fences.\n\nSchema:\n"
                request.json_schema;
        })
        ∷ [];
  temperature = 0;
}

abbrev pub bill_both : LlmResult → LlmResult → LlmResult
bill_both first repaired = record repaired {
  usage = record {
    input_tokens = repaired.usage.input_tokens + first.usage.input_tokens;
    output_tokens = repaired.usage.output_tokens + first.usage.output_tokens;
  };
}

-- No write of the ledger fails.
abbrev pub Kept : Outside → Type 0
Kept outside = (n : ℕ) → outside.recorded n ≡ true

-- `parse` is _parse with the schema: the value that a reply denotes, or nothing.
module _ {A : Type 0} (cfg : LlmSettings) (outside : Outside) (parse : String → Option A)
    (primary : Provider ChatRequest) (fallback : Option (Provider ChatRequest)) where
  unfoldable pub read_repaired : LlmResult → Result LlmResult → Result (A × LlmResult)
  read_repaired first (raise e) = raise e
  read_repaired first (ok repaired) = elim (parse repaired.text) [
    | none ↦ raise Error.llm_gateway_error
    | some parsed ↦ ok (parsed, bill_both first repaired)
  ]

  unfoldable pub read_answer :
      ChatRequest → Option String → Result LlmResult → World → Result (A × LlmResult) × World
  unfolding read_repaired
  read_answer request model (raise e) w = (raise e, w)
  read_answer request model (ok first) w = elim (parse first.text) [
    | some parsed ↦ (ok (parsed, first), w)
    | none ↦
        let (repaired, w') =
          complete cfg outside primary fallback (repair_request request first.text) model w in
        (read_repaired first repaired, w')
  ]

  unfoldable pub complete_structured :
      ChatRequest → Option String → World → Result (A × LlmResult) × World
  unfolding read_answer
  complete_structured request model w =
      let (answer, w') = complete cfg outside primary fallback request model w in
      read_answer request model answer w'

  -- The tokens that rows of the ledger were billed for.
  abbrev pub tokens_in : List ApiUsage → ℕ
  tokens_in [] = 0
  tokens_in (row ∷ rows) = row.tokens_in + tokens_in rows

  abbrev pub tokens_out : List ApiUsage → ℕ
  tokens_out [] = 0
  tokens_out (row ∷ rows) = row.tokens_out + tokens_out rows

  -- A value that is returned was read from the reply that comes with it, and the usage that comes
  -- with it is what the rows of the ledger add up to.
  abbrev pub Read : Result (A × LlmResult) → List ApiUsage → Type 0
  Read (raise e) rows = Unit
  Read (ok (a, r)) rows =
      (parse r.text ≡ some a)
      × (tokens_in rows ≡ r.usage.input_tokens)
      × (tokens_out rows ≡ r.usage.output_tokens)

  -- What a structured call does to the world.
  pub record Asked (most : ℕ) (result : Result (A × LlmResult)) (w w' : World) : Type 0 where
    pub rows : List ApiUsage
    pub ledger : w'.ledger ≡ w.ledger ++ rows
    pub few_rows : length rows ≤ 2
    pub few_calls : w'.calls ≤ w.calls + most
    pub read : Read result rows

  module _ (bounded : Bounded outside) (kept : Kept outside) where
    abbrev few : ℕ
    few = max 1 cfg.llm_max_retries

    -- An answer has its row, since the write succeeds.
    row-written :
        (n : ℕ) (r : LlmResult)
        → written cfg outside n r ≡ usage_row cfg r.provider r.model r.usage ∷ []
    row-written n r = rw (kept n) refl

    row_of :
        (r : LlmResult) (w w' : World)
        → Billed cfg outside (some r) w w'
        → w'.ledger ≡ w.ledger ++ usage_row cfg r.provider r.model r.usage ∷ []
    row_of r w w' (n, last, row) = row ∙ ap (λ rows. w.ledger ++ rows) (row-written n r)

    read_repaired-Asked :
        (first : LlmResult) (answer : Result LlmResult) (row : ApiUsage) (w w' w'' : World)
        → w'.ledger ≡ w.ledger ++ row ∷ []
        → row.tokens_in ≡ first.usage.input_tokens
        → row.tokens_out ≡ first.usage.output_tokens
        → w'.calls ≤ w.calls + 2 * few
        → Spent cfg outside (2 * few) (answer_of answer) w' w''
        → Asked (4 * few) (read_repaired first answer) w w''
    unfolding read_repaired
    read_repaired-Asked first (raise e) row w w' w'' ledger into out calls spent = record {
      rows = row ∷ [];
      ledger = spent.billed ∙ ledger;
      few_rows = omega arith;
      few_calls = omega (arith, spent.few_calls);
      read = tt;
    }
    read_repaired-Asked first (ok r) row w w' w'' ledger into out calls spent = record {
      rows = row ∷ usage_row cfg r.provider r.model r.usage ∷ [];
      ledger =
          row_of r w' w'' spent.billed
          ∙ (ap (λ l. l ++ usage_row cfg r.provider r.model r.usage ∷ []) ledger
              ∙ ++-assoc w.ledger (row ∷ []) _);
      few_rows = omega arith;
      few_calls = omega (arith, spent.few_calls);
      read = elim (Option-cases (parse r.text)) [
        | inl unread ↦ rw (unread, Read) tt
        | inr (a, parsed) ↦ rw (parsed, Read) (parsed, omega arith, omega arith)
      ];
    }

    read_answer-Asked :
        (request : ChatRequest) (model : Option String) (answer : Result LlmResult) (w w' : World)
        → Spent cfg outside (2 * few) (answer_of answer) w w'
        → let (result, w'') = read_answer request model answer w' in Asked (4 * few) result w w''
    unfolding read_answer complete
    read_answer-Asked request model (raise e) w w' spent = record {
      rows = [];
      ledger = spent.billed ∙ sym (++-[] w.ledger);
      few_rows = omega arith;
      few_calls = omega (arith, spent.few_calls);
      read = tt;
    }
    read_answer-Asked request model (ok first) w w' spent = elim (Option-cases (parse first.text)) [
      | inl unread ↦
          rw (unread, read_answer)
            (read_repaired-Asked first _ (usage_row cfg first.provider first.model first.usage) w w'
              _ (row_of first w w' spent.billed) refl refl spent.few_calls
              (complete_with_retries-Spent cfg outside bounded primary fallback
                (repair_request request first.text) (model_for cfg "primary" model) w'))
      | inr (a, parsed) ↦
          rw (parsed, read_answer)
            (record {
              rows = usage_row cfg first.provider first.model first.usage ∷ [];
              ledger = row_of first w w' spent.billed;
              few_rows = omega arith;
              few_calls = omega (arith, spent.few_calls);
              read = (parsed, omega arith, omega arith);
            })
    ]

    -- If no random delay adds more than a second and no write of the ledger fails, a structured call
    -- makes at most two completions: at most 4 * max(1, llm_max_retries) calls of the vendors and two
    -- rows in the ledger. If it returns, the value was read from the returned reply, and the returned
    -- usage is the sum of the rows, so that a repair is billed as well.
    pub complete_structured-Asked :
        (request : ChatRequest) (model : Option String) (w : World)
        → let (result, w') = complete_structured request model w in Asked (4 * few) result w w'
    unfolding complete_structured complete
    complete_structured-Asked request model w =
        let (answer, w') = complete cfg outside primary fallback request model w in
        read_answer-Asked request model answer w w' (
          complete_with_retries-Spent cfg outside bounded primary fallback request
            (model_for cfg "primary" model) w)
