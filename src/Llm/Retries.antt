-- ===== src/Llm/Retries.antt =====
-- The bounds of a model call (_complete_with_retries of app/services/llm/gateway.py): how often the
-- vendors are called, how long it waits, and what reaches the ledger.
use danah_v.Prelude.{
  ℕ, zero, suc, ◌+◌, ◌-◌, ◌*◌, ◌≤◌, ◌<◌, ◌≡◌, refl, ◌∙◌, ap, ◌⊎◌, inl, inr, String, Option, none,
  some, List, [], ◌∷◌, ◌++◌, arith, max, Bool-cases, All, All-append,
}
use danah_v.Exceptions.{Error, Result, ok, raise}
use danah_v.Llm.{
  ApiUsage, Failure, Outside, LlmResult, LlmSettings, Provider, World, called, slept, retry_delay,
  record_usage, usage_row, named, succeeded, retried, attempts, exhaust, fail_over,
  complete_with_retries, fallback_model,
}

outcome-cases : {A B : Type 0} (o : A ⊎ B) → ((a : A) × (o ≡ inl a)) ⊎ ((b : B) × (o ≡ inr b))
outcome-cases (inl a) = inl (a, refl)
outcome-cases (inr b) = inr (b, refl)

-- No random delay adds more than a second.
abbrev pub Bounded : Outside → Type 0
Bounded outside = (n : ℕ) → outside.extra n < 1000

abbrev pub Short : List ℕ → Type 0
Short delays = All (λ d. d < 66_000) delays

retry_delay-short :
    (outside : Outside) (n attempt : ℕ) (failure : Failure)
    → Bounded outside
    → retry_delay outside n attempt failure < 66_000
unfolding retry_delay
retry_delay-short outside n attempt failure bounded = ground (arith, bounded n)

abbrev pub answer_of : Result LlmResult → Option LlmResult
answer_of (ok r) = some r
answer_of (raise e) = none

module _ (cfg : LlmSettings) (outside : Outside) where
  abbrev pub written : ℕ → LlmResult → List ApiUsage
  written n r = record_usage outside n (usage_row cfg r.provider r.model r.usage)

  -- An answer is that of the last call, and has its row in the ledger if the write succeeds; without
  -- an answer the ledger is as it was.
  abbrev pub Billed : Option LlmResult → World → World → Type 0
  Billed none w w' = w'.ledger ≡ w.ledger
  Billed (some r) w w' = (n : ℕ) × (w'.calls ≡ suc n) × (w'.ledger ≡ w.ledger ++ written n r)

  -- What `most` calls of a vendor do to the world.
  pub record Spent (most : ℕ) (answer : Option LlmResult) (w w' : World) : Type 0 where
    pub some_call : w.calls < w'.calls
    pub few_calls : w'.calls ≤ w.calls + most
    pub short : Short w.delays → Short w'.delays
    pub billed : Billed answer w w'

module _ (cfg : LlmSettings) (outside : Outside) where
  unanswered : (most : ℕ) (w : World) → 0 < most → Spent cfg outside most none w (called w)
  unanswered most w positive = record {
    some_call = omega arith;
    few_calls = omega arith;
    short = λ h. h;
    billed = refl;
  }

  once_more :
      (most : ℕ) (answer : Option LlmResult) (w w' : World) (delay : ℕ)
      → delay < 66_000
      → Spent cfg outside most answer (slept delay (called w)) w'
      → Spent cfg outside (suc most) answer w w'
  once_more most none w w' delay brief later = record {
    some_call = omega (arith, later.some_call);
    few_calls = omega (arith, later.few_calls);
    short = λ h. later.short (All-append _ w.delays (delay ∷ []) h (brief, tt));
    billed = later.billed;
  }
  once_more most (some r) w w' delay brief later = record {
    some_call = omega (arith, later.some_call);
    few_calls = omega (arith, later.few_calls);
    short = λ h. later.short (All-append _ w.delays (delay ∷ []) h (brief, tt));
    billed = later.billed;
  }

  at_most :
      (few many : ℕ) (answer : Option LlmResult) (w w' : World)
      → few ≤ many
      → Spent cfg outside few answer w w'
      → Spent cfg outside many answer w w'
  at_most few many answer w w' le h = record {
    some_call = h.some_call;
    few_calls = omega (arith, h.few_calls);
    short = h.short;
    billed = h.billed;
  }

  together :
      (first more : ℕ) (answer : Option LlmResult) (w middle end : World)
      → Spent cfg outside first none w middle
      → Spent cfg outside more answer middle end
      → Spent cfg outside (first + more) answer w end
  together first more none w middle end a b = record {
    some_call = omega (arith, a.some_call, b.some_call);
    few_calls = omega (arith, a.few_calls, b.few_calls);
    short = λ h. b.short (a.short h);
    billed = b.billed ∙ a.billed;
  }
  together first more (some r) w middle end a b = record {
    some_call = omega (arith, a.some_call, b.some_call);
    few_calls = omega (arith, a.few_calls, b.few_calls);
    short = λ h. b.short (a.short h);
    billed =
        let (n, last, row) = b.billed in
        (n, last, row ∙ ap (λ l. l ++ written cfg outside n r) a.billed);
  }

module _ {Request : Type 0} (cfg : LlmSettings) (outside : Outside) where
  module _ (bounded : Bounded outside) where
    answered :
        (provider : Provider Request) (model : String) (most : ℕ) (r : LlmResult) (w : World)
        → 0 < most
        → Spent cfg outside most
            (some (named cfg outside provider model r))
            w
            (succeeded cfg outside provider model r w)
    answered provider model most r w positive = record {
      some_call = omega arith;
      few_calls = omega arith;
      short = λ h. h;
      billed = (w.calls, refl, refl);
    }

    pub attempts-Spent :
        (provider : Provider Request) (request : Request) (model : String) (attempt left : ℕ)
        (w : World)
        → let (answer, w') = attempts cfg outside provider request model attempt left w in
          Spent cfg outside (suc left) answer w w'
    unfolding attempts
    attempts-Spent provider request model attempt zero w =
        elim (outcome-cases (provider.complete w.calls request model)) [
          | inl (failure, e) ↦ rw (e, attempts) (unanswered cfg outside 1 w (omega arith))
          | inr (r, e) ↦ rw (e, attempts) (answered provider model 1 r w (omega arith))
        ]
    attempts-Spent provider request model attempt (suc left) w =
        elim (outcome-cases (provider.complete w.calls request model)) [
          | inl (failure, e) ↦ elim (Bool-cases failure.retryable) [
            | inr final ↦
                rw (e, final, attempts) (unanswered cfg outside (suc (suc left)) w (omega arith))
            | inl again ↦
                rw (e, again, attempts)
                  (once_more cfg outside (suc left) _ w _
                    (retry_delay outside (called w).calls attempt failure)
                    (retry_delay-short outside (called w).calls attempt failure bounded)
                    (attempts-Spent provider request model (suc attempt) left
                      (retried cfg outside provider model attempt failure (called w))))
          ]
          | inr (r, e) ↦
              rw (e, attempts) (answered provider model (suc (suc left)) r w (omega arith))
        ]

    pub exhaust-Spent :
        (provider : Provider Request) (request : Request) (model : String) (w : World)
        → let (answer, w') = exhaust cfg outside provider request model w in
          Spent cfg outside (max 1 cfg.llm_max_retries) answer w w'
    exhaust-Spent provider request model w =
        at_most cfg outside (suc (max 1 cfg.llm_max_retries - 1)) (max 1 cfg.llm_max_retries) _ w _
          (omega arith) (attempts-Spent provider request model 0 (max 1 cfg.llm_max_retries - 1) w)

    fail_over-Spent :
        (fallback : Option (Provider Request)) (request : Request) (model : String)
        (w middle : World)
        → Spent cfg outside (max 1 cfg.llm_max_retries) none w middle
        → let (result, w') = fail_over cfg outside fallback request model middle in
          Spent cfg outside (2 * max 1 cfg.llm_max_retries) (answer_of result) w w'
    unfolding fail_over
    fail_over-Spent none request model w middle spent =
        at_most cfg outside (max 1 cfg.llm_max_retries) (2 * max 1 cfg.llm_max_retries) none w
          middle (omega arith) spent
    fail_over-Spent (some provider) request model w middle spent =
        let (answer, end) =
          exhaust cfg outside provider request (fallback_model cfg model) middle in
        by_answer answer end (
          at_most cfg outside (max 1 cfg.llm_max_retries + max 1 cfg.llm_max_retries)
            (2 * max 1 cfg.llm_max_retries) answer w end (omega arith)
            (together cfg outside (max 1 cfg.llm_max_retries) (max 1 cfg.llm_max_retries) answer w
              middle end spent (exhaust-Spent provider request (fallback_model cfg model) middle)))
      where
        by_answer :
            (answer : Option LlmResult) (end : World)
            → Spent cfg outside (2 * max 1 cfg.llm_max_retries) answer w end
            → let out : Result LlmResult × World = elim answer [
              | none ↦ (raise Error.llm_gateway_error, end)
              | some result ↦ (ok result, end)
            ] in
              Spent cfg outside (2 * max 1 cfg.llm_max_retries) (answer_of out.0) w out.1
        by_answer none end h = h
        by_answer (some result) end h = h

    -- If no random delay adds more than a second, a call ends: at least one and at most 2 * max(1,
    -- llm_max_retries) calls of the vendors are made, and every delay between attempts is under 66
    -- seconds. For an answer the ledger gets exactly one row, with its tokens, if the write of the
    -- last call's row succeeds, and none if it fails; it gets none where the call raises.
    pub complete_with_retries-Spent :
        (primary : Provider Request) (fallback : Option (Provider Request)) (request : Request)
        (model : String) (w : World)
        → let (result, w') = complete_with_retries cfg outside primary fallback request model w in
          Spent cfg outside (2 * max 1 cfg.llm_max_retries) (answer_of result) w w'
    unfolding complete_with_retries
    complete_with_retries-Spent primary fallback request model w =
        let (answer, middle) = exhaust cfg outside primary request model w in
        by_answer answer middle (exhaust-Spent primary request model w)
      where
        by_answer :
            (answer : Option LlmResult) (middle : World)
            → Spent cfg outside (max 1 cfg.llm_max_retries) answer w middle
            → let out : Result LlmResult × World = elim answer [
              | none ↦ fail_over cfg outside fallback request model middle
              | some result ↦ (ok result, middle)
            ] in
              Spent cfg outside (2 * max 1 cfg.llm_max_retries) (answer_of out.0) w out.1
        by_answer none middle h = fail_over-Spent fallback request model w middle h
        by_answer (some result) middle h =
            at_most cfg outside (max 1 cfg.llm_max_retries) (2 * max 1 cfg.llm_max_retries)
              (some result) w middle (omega arith) h
