-- ===== src/Orchestrator/Task.antt =====
-- The steps of a run share one session and one RunStats object, which outlives an exception.
pub mod Keeps
use danah_v.Exceptions.{Error, Result, ok, raise}
use danah_v.Models.{RunStats}
use danah_v.Session.{Session, Action}

pub record RunState : Type 0 where
  pub session : Session
  pub stats : RunStats

abbrev pub Task : Type 0 → Type 0
Task A = RunState → Result A × RunState

-- A service call on the session of the run.
abbrev pub lift : {A : Type 0} → Action A → Task A
lift m st = let (r, s) = m st.session in (r, record st { session = s })

abbrev pub pure : {A : Type 0} → A → Task A
pure a st = (ok a, st)

-- An assignment to the statistics.
abbrev pub tell : (RunStats → RunStats) → Task Unit
tell f st = (ok tt, record st { stats = f st.stats })

abbrev pub stats : Task RunStats
stats st = (ok st.stats, st)

module _ {A B : Type 0} where
  abbrev pub and_then : Result A → (A → Task B) → Task B
  and_then (ok a) f = f a
  and_then (raise e) f = λ st. (raise e, st)

  infixl 5 ◌>>=◌ ◌>>◌
  abbrev pub ◌>>=◌ : Task A → (A → Task B) → Task B
  m >>= f = λ st. let (r, st') = m st in and_then r f st'

  abbrev pub ◌>>◌ : Task A → Task B → Task B
  m >> n = m >>= λ _. n
