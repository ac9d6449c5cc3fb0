-- ===== src/Orchestrator/Run/Execute/Budget.antt =====
-- The token budget of a run (execute_run of app/services/orchestrator.py).
use danah_v.Session.{Session}
use danah_v.Agents.{Agents}
