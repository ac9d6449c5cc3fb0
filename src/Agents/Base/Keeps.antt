-- ===== src/Agents/Base/Keeps.antt =====
-- What an agent's step keeps: the invariants that a new memory and a change of step rows keep.
use danah_v.Prelude.{
  ℕ, zero, suc, Bool, true, false, Option, none, some, List, [], ◌∷◌, ◌||◌, is_none, take,
}
use danah_v.Enums.{Classification, StepStatus}
use danah_v.Exceptions.{Error, Result, ok, raise}
use danah_v.Models.{Db, MemoryEntry, PipelineStep}
use danah_v.Session.{Env, Action}
use danah_v.Session.Keeps.{
  Keeps-ask, Keeps-attempt, Keeps-of_result, Keeps, Keeps-pure, Keeps-throw, Keeps-query,
  Keeps-draw, Keeps-write, Keeps-bind, Keeps-if,
}
use danah_v.Llm.{TokenUsage}
use danah_v.Chunking.Scan.{strip}
use danah_v.Agents.Tools.{
  Arguments, iterated, Lookup, Tool, ToolCall, Observation, execute_tool, find_tool, run_handler,
  read_tool, search_tool, save_memory_tool, saved_row, is_blank_text, found_or_failed,
}
use danah_v.Agents.Base.{
  AgentContext, BaseAgent, Progress, open_step, close_step, execute_calls, next_reply, tool_loop,
  gather, final_answer, fail_step, complete_step, settle_answer, settle_gathered, run, offered,
  is_gateway_error, answered, noted, observed, begun,
}
use danah_v.Orchestrator.{add_memory}

-- Closed under a new row of institutional memory.
abbrev pub MemoryWrites : (Db → Type 0) → Type 0
MemoryWrites P = (db : Db) (row : MemoryEntry) → P db → P (add_memory row db)

-- Closed under a change of the step rows.
abbrev pub StepWrites : (Db → Type 0) → Type 0
StepWrites P = (db : Db) (rows : List PipelineStep) → P db → P (record db { steps = rows })

module _ (P : Db → Type 0) where
  Keeps-Option :
      {A B : Type 0} (o : Option A) (m : Action B) (f : A → Action B)
      → Keeps P m
      → ((a : A) → Keeps P (f a))
      → Keeps P (elim o [ none ↦ m | some a ↦ f a ])
  Keeps-Option none m f km kf = km
  Keeps-Option (some a) m f km kf = kf a

  Keeps-List :
      {A B : Type 0} (xs : List A) (m : Action B) (f : A → List A → Action B)
      → Keeps P m
      → ((x : A) (rest : List A) → Keeps P (f x rest))
      → Keeps P (elim xs [ [] ↦ m | x ∷ rest ↦ f x rest ])
  Keeps-List [] m f km kf = km
  Keeps-List (x ∷ rest) m f km kf = kf x rest

  read_tool-Keeps :
      (lookup : Lookup) (tool : Tool) (clearance : Classification) (args : Arguments)
      → Keeps P (read_tool lookup tool clearance args)
  unfolding read_tool
  read_tool-Keeps lookup tool clearance args =
      Keeps-bind P _ _ (Keeps-query P _) (λ text. Keeps-pure P (found_or_failed text))

  search_tool-Keeps :
      (lookup : Lookup) (tool : Tool) (clearance : Classification) (args : Arguments)
      → Keeps P (search_tool lookup tool clearance args)
  unfolding search_tool
  search_tool-Keeps lookup tool clearance args =
      Keeps-if P (is_blank_text (strip args.query)) _ _ (Keeps-pure P _)
        (read_tool-Keeps lookup tool clearance args)

module _ (env : Env) (P : Db → Type 0) (memory : MemoryWrites P) where
  save_memory_tool-Keeps :
      (clearance : Classification) (args : Arguments)
      → Keeps P (save_memory_tool env clearance args)
  unfolding save_memory_tool
  save_memory_tool-Keeps clearance args =
      Keeps-if P (is_blank_text (strip args.title) || is_blank_text (strip args.content)) _ _
        (Keeps-pure P Observation.missing_argument)
        (Keeps-if P (is_none (iterated args.tags)) _ _ (Keeps-pure P Observation.tool_failed) (
          Keeps-bind P _ _ (Keeps-draw P env.uuid4) (λ id.
            Keeps-bind P _ _
              (Keeps-write P (add_memory (saved_row id clearance args))
                (λ db. memory db (saved_row id clearance args)))
              (λ _. Keeps-pure P (Observation.saved id (take 500 (strip args.title)))))))

  run_handler-Keeps :
      (lookup : Lookup) (tool : Tool) (clearance : Classification) (args : Arguments)
      → Keeps P (run_handler env lookup tool clearance args)
  unfolding run_handler
  run_handler-Keeps lookup Tool.save_memory clearance args = save_memory_tool-Keeps clearance args
  run_handler-Keeps lookup Tool.get_kpi_snapshot clearance args =
      read_tool-Keeps P lookup Tool.get_kpi_snapshot clearance args
  run_handler-Keeps lookup Tool.search_knowledge_base clearance args =
      search_tool-Keeps P lookup Tool.search_knowledge_base clearance args
  run_handler-Keeps lookup Tool.search_ingested_items clearance args =
      search_tool-Keeps P lookup Tool.search_ingested_items clearance args
  run_handler-Keeps lookup Tool.get_memory clearance args =
      search_tool-Keeps P lookup Tool.get_memory clearance args

  execute_tool-Keeps :
      (lookup : Lookup) (clearance : Classification) (call : ToolCall)
      → Keeps P (execute_tool env lookup clearance call)
  unfolding execute_tool
  execute_tool-Keeps lookup clearance call =
      Keeps-Option P (find_tool call.name) _ _ (Keeps-pure P Observation.no_such_tool)
        (λ tool. run_handler-Keeps lookup tool clearance call.arguments)

module _ {A : Type 0} (env : Env) (ctx : AgentContext A) (agent : BaseAgent A) (P : Db → Type 0)
    (memory : MemoryWrites P) where
  pub execute_calls-Keeps :
      (calls : List ToolCall) (p : Progress) → Keeps P (execute_calls env ctx agent calls p)
  unfolding execute_calls
  execute_calls-Keeps [] p = Keeps-pure P p
  execute_calls-Keeps (call ∷ calls) p =
      Keeps-bind P _ _ (execute_tool-Keeps env P memory ctx.lookup ctx.clearance call)
        (λ o. execute_calls-Keeps calls (observed call o p))

  next_reply-Keeps : (tools : List Tool) (p : Progress) → Keeps P (next_reply env ctx agent tools p)
  unfolding next_reply
  next_reply-Keeps tools p =
      Keeps-bind P _ _ (Keeps-of_result P agent.system_prompt) (λ prompt. Keeps-ask P _)

  pub tool_loop-Keeps :
      (tools : List Tool) (left : ℕ) (p : Progress) → Keeps P (tool_loop env ctx agent tools left p)
  unfolding tool_loop
  tool_loop-Keeps tools zero p = Keeps-pure P p
  tool_loop-Keeps tools (suc left) p = Keeps-bind P _ _ (next_reply-Keeps tools p) (λ reply.
      Keeps-List P reply.tool_calls _ _ (Keeps-pure P (answered reply p)) (λ call calls.
        Keeps-bind P _ _ (execute_calls-Keeps (call ∷ calls) (noted reply.text (answered reply p)))
          (λ p'. tool_loop-Keeps tools left p')))

  pub gather-Keeps : (tools : List Tool) → Keeps P (gather env ctx agent tools)
  unfolding gather
  gather-Keeps [] = Keeps-pure P (begun env ctx agent)
  gather-Keeps (tool ∷ tools) =
      tool_loop-Keeps (tool ∷ tools) ctx.agent_max_tool_iterations (begun env ctx agent)

  pub final_answer-Keeps : (p : Progress) → Keeps P (final_answer env ctx agent p)
  unfolding final_answer
  final_answer-Keeps p =
      Keeps-bind P _ _ (Keeps-of_result P agent.system_prompt) (λ prompt. Keeps-ask P _)

module _ {A : Type 0} (env : Env) (ctx : AgentContext A) (agent : BaseAgent A) (P : Db → Type 0)
    (memory : MemoryWrites P) (steps : StepWrites P) where
  open_step-Keeps : Keeps P (open_step env ctx.run_id agent.name)
  unfolding open_step
  open_step-Keeps = by_run ctx.run_id
    where
      by_run : (o : Option ℕ) → Keeps P (open_step env o agent.name)
      by_run none = record { at = λ s h. h }
      by_run (some run_id) = record { at = λ s h. let h' = steps s.current _ h.0 in (h', h') }

  close_step-Keeps :
      (step : Option ℕ) (status : StepStatus) (tokens_in tokens_out cost : ℕ) (failed : Bool)
      → Keeps P (close_step step status tokens_in tokens_out cost failed)
  unfolding close_step
  close_step-Keeps none status tokens_in tokens_out cost failed = Keeps-pure P tt
  close_step-Keeps (some id) status tokens_in tokens_out cost failed = record {
    at = λ s h. let h' = steps s.current _ h.0 in (h', h');
  }

  fail_step-Keeps :
      (step : Option ℕ) (tokens_in tokens_out : ℕ) (e : Error)
      → Keeps P (fail_step env ctx agent step tokens_in tokens_out e)
  unfolding fail_step
  fail_step-Keeps step tokens_in tokens_out e =
      Keeps-if P (is_gateway_error e) _ _
        (Keeps-bind P _ _ (close_step-Keeps step StepStatus.failed tokens_in tokens_out 0 true)
          (λ _. Keeps-pure P _))
        (Keeps-throw P e)

  complete_step-Keeps :
      (step : Option ℕ) (tokens_in tokens_out : ℕ) (output : A)
      → Keeps P (complete_step env ctx agent step tokens_in tokens_out output)
  unfolding complete_step
  complete_step-Keeps step tokens_in tokens_out output =
      Keeps-bind P _ _ (close_step-Keeps step StepStatus.completed tokens_in tokens_out _ false)
        (λ _. Keeps-pure P _)

  settle_answer-Keeps :
      (step : Option ℕ) (p : Progress) (r : Result (A × TokenUsage))
      → Keeps P (settle_answer env ctx agent step p r)
  unfolding settle_answer
  settle_answer-Keeps step p (raise e) = fail_step-Keeps step p.tokens_in p.tokens_out e
  settle_answer-Keeps step p (ok (output, usage)) = complete_step-Keeps step _ _ output

  settle_gathered-Keeps :
      (step : Option ℕ) (r : Result Progress) → Keeps P (settle_gathered env ctx agent step r)
  unfolding settle_gathered
  settle_gathered-Keeps step (raise e) = fail_step-Keeps step 0 0 e
  settle_gathered-Keeps step (ok p) =
      Keeps-bind P _ _ (Keeps-attempt P _ (final_answer-Keeps env ctx agent P memory p))
        (settle_answer-Keeps step p)

  -- An agent's step, its tool calls included, keeps what new memories and step rows keep.
  pub run-Keeps : Keeps P (run env ctx agent)
  unfolding run
  run-Keeps = Keeps-bind P _ _ open_step-Keeps (λ step.
      Keeps-bind P _ _
        (Keeps-attempt P _ (gather-Keeps env ctx agent P memory (offered agent.allowed_tools)))
        (settle_gathered-Keeps step))
