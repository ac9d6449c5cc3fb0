-- ===== src/Orchestrator/Task/Keeps.antt =====
-- Invariants of the database under the steps of a run.
use danah_v.Prelude.{Bool, true, false, Option, none, some, if◌then◌else◌}
use danah_v.Exceptions.{Result, ok, raise}
use danah_v.Models.{Db, RunStats}
use danah_v.Session.{Action}
use danah_v.Session.Keeps.{Keeps, Both}
use danah_v.Orchestrator.Task.{RunState, Task, lift, pure, tell, stats, and_then, ◌>>=◌}

pub record KeepsTask {A : Type 0} (P : Db → Type 0) (m : Task A) : Type 0 where
  pub at : (st : RunState) → Both P st.session → Both P (m st).1.session

module _ (P : Db → Type 0) where
  pub KeepsTask-lift : {A : Type 0} (m : Action A) → Keeps P m → KeepsTask P (lift m)
  KeepsTask-lift m k = record { at = λ st h. k.at st.session h }

  pub KeepsTask-pure : {A : Type 0} (a : A) → KeepsTask P (pure a)
  KeepsTask-pure a = record { at = λ st h. h }

  pub KeepsTask-tell : (f : RunStats → RunStats) → KeepsTask P (tell f)
  KeepsTask-tell f = record { at = λ st h. h }

  pub KeepsTask-stats : KeepsTask P stats
  KeepsTask-stats = record { at = λ st h. h }

  pub KeepsTask-if :
      {A : Type 0} (b : Bool) (m n : Task A)
      → KeepsTask P m
      → KeepsTask P n
      → KeepsTask P (if b then m else n)
  KeepsTask-if true m n km kn = km
  KeepsTask-if false m n km kn = kn

  pub KeepsTask-option :
      {A B : Type 0} (o : Option A) (m : Task B) (n : A → Task B)
      → KeepsTask P m
      → ((a : A) → KeepsTask P (n a))
      → KeepsTask P (elim o [ none ↦ m | some a ↦ n a ])
  KeepsTask-option none m n km kn = km
  KeepsTask-option (some a) m n km kn = kn a

  KeepsTask-and_then :
      {A B : Type 0} (r : Result A) (f : A → Task B)
      → ((a : A) → KeepsTask P (f a))
      → KeepsTask P (and_then r f)
  KeepsTask-and_then (ok a) f k = k a
  KeepsTask-and_then (raise e) f k = record { at = λ st h. h }

  pub KeepsTask-bind :
      {A B : Type 0} (m : Task A) (f : A → Task B)
      → KeepsTask P m
      → ((a : A) → KeepsTask P (f a))
      → KeepsTask P (m >>= f)
  KeepsTask-bind m f km kf = record {
    at = λ st h. let (r, st') = m st in (KeepsTask-and_then r f kf).at st' (km.at st h);
  }
