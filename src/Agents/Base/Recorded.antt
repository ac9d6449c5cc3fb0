-- ===== src/Agents/Base/Recorded.antt =====
-- The step row of an agent's run (BaseAgent.run of app/services/agents/base.py).
use danah_v.Prelude.{ℕ, ◌≡◌, ◌⊎◌, false, none, some, is_none, find_first}
use danah_v.Enums.{StepStatus}
use danah_v.Exceptions.{Result, ok, raise}
use danah_v.Models.{Db, PipelineStep}
use danah_v.Session.{Session}
use danah_v.Agents.{AgentOutput}
use danah_v.Agents.Base.{has_step_id, closed_step, is_gateway_error}

-- The output stands with `completed`, and nothing with `failed`.
abbrev pub Settled : {A : Type 0} → AgentOutput A → Type 0
Settled {A = A} out =
    ((out.status ≡ StepStatus.completed) × ((a : A) × (out.output ≡ some a)))
    ⊎ ((out.status ≡ StepStatus.failed) × (out.output ≡ none))

-- What the end of a step says of its row.
abbrev pub Recorded : {A : Type 0} → PipelineStep → Result (AgentOutput A) → PipelineStep → Type 0
Recorded opened (ok out) r =
    (r
      ≡ closed_step out.status out.tokens_in out.tokens_out out.cost_usd (is_none out.output)
          opened)
    × Settled out
Recorded opened (raise e) r = (r ≡ opened) × (is_gateway_error e ≡ false)

-- The committed row with this id.
abbrev pub HasStep : ℕ → PipelineStep → Db → Type 0
HasStep id row db = find_first (has_step_id id) db.steps ≡ some row

abbrev pub Ends : {A : Type 0} → ℕ → PipelineStep → Result (AgentOutput A) × Session → Type 0
Ends id opened (r, s) = (row : PipelineStep) × HasStep id row s.committed × Recorded opened r row
