-- ===== src/Lib.antt =====
-- DANAH is a decision-support platform: items are ingested, a pipeline of language-model agents
-- drafts insights and briefings, and people approve what is published. This library models the
-- services below app/ and proves what makes them correct.
--
-- How the parts interact. A request works on one database session (app/deps.py): Session has the
-- session as what the transaction sees and what is committed, a service as an action on it that
-- returns or raises, and get_db, which commits or rolls back. The tables of app/models/ are lists of
-- rows in Models, in the order of insertion. The identifiers, the clock and random tokens are
-- functions of a counter of draws (Env). Session/Keeps has the rules for an invariant of an action,
-- Session/Gives for what it returns and Session/Triple for what it does to what it sees.
--  - Enums, Exceptions: app/enums.py, app/exceptions.py.
--  - Security: app/security/rbac.py.
--  - Audit: app/services/audit_service.py. Chain describes an intact log, Append the writer, Tamper
--    what the last hash commits to.
--  - Notifications: app/services/notification_service.py.
--  - Approvals: app/services/approval_service.py, by Queue (submit_for_approval) and Decision
--    (decide). Api: the decision route of app/api/approvals.py.
--  - Agents: app/services/agents/. The record Agents is what the orchestrator asks of them; Tools is
--    the registry and execute_tool, Base is BaseAgent.run with its step row and tool loop, Team the
--    six agents and the Arabic pass, which together fill that record.
--  - Orchestrator: app/services/orchestrator.py. Task is the state of a run, Run the single steps,
--    Run/Fanout the analysis agents on sessions of their own, Run/Execute execute_run and _finish.
--    Generate is generate_briefing_only.
--  - Gate, System: the publication gate and the unique approval of a subject (Gate/Unique), and the
--    requests and jobs as steps on the database.
--  - Pipeline, Tasks, Insights, Briefings, Items, Sources: the routes of app/api/pipeline.py, tasks.py,
--    insights.py, briefings.py, items.py and sources.py.
--  - Indexer, Retriever, Composer: app/services/rag/indexer.py, retriever.py and composer.py.
--  - Ingestion, Webhook: app/services/ingestion/runner.py, webhook.py and the identity of an item in
--    base_connector.py.
--  - Auth: app/services/auth_service.py, app/security/jwt.py and get_current_user of app/deps.py.
--  - RateLimit: RateLimiter.check of app/security/rate_limit.py, over a sorted set.
--  - Llm: app/services/llm/gateway.py and usage_tracker.py. World counts calls, delays and rows.
--  - Chunking: app/services/rag/chunking.py; Scan has the scanners for its regular expressions.
--  - Tests: concrete data and the witnesses. Prelude: names and lemmas that the modules share.
--
-- Units and bounds. Times are seconds, in RateLimit and Llm milliseconds; costs are millionths of a
-- dollar; scores and confidences are thousandths. The attempts of a model call recurse on how many
-- are left, and the slices of a long sentence on a fuel that is its number of tokens, which is
-- enough because each slice takes at least one.
--
-- The tool loop of an agent recurses on the iterations that its cap leaves. Scores of retrieval are
-- exact fractions in place of floats.
--
-- What is a parameter. SHA-256 and json.dumps (Env), the mail server, argon2, secrets and PyJWT
-- (Secrets), tiktoken (Encoding), the model vendors (Provider), the reading of a reply against a
-- schema (`parse`), the answers of the gateway to an agent with the prompts and messages rendered for
-- it, and what the reading tools find (Desk), the text of a document and its embedding (Intake), the
-- connectors (Feeds), HMAC, and the distances and ranks of the database (Search). `Env.accepts` and
-- `flush` say where the database refuses a write: in a pipeline run, in indexing and in ingestion.
--
-- What is not modelled. Log lines, metrics, the messages of exceptions, the embeddings of memories,
-- and columns that no modelled operation reads. The agents of the fan-out run one after the other, in
-- the order of the list. The other services' writes, and those of an agent's own steps and tools, are
-- taken to succeed. A lock that a service holds is the atomicity of its action. Chat, the
-- dashboard, the other routes, the connectors and the workers' schedule are not modelled.
pub mod Prelude
pub mod Enums
pub mod Exceptions
pub mod Models
pub mod Session
pub mod Security
pub mod Audit
pub mod Notifications
pub mod Approvals
pub mod Gate
pub mod Api
pub mod Agents
pub mod Orchestrator
pub mod System
pub mod Pipeline
pub mod Tasks
pub mod Insights
pub mod Auth
pub mod RateLimit
pub mod Llm
pub mod Chunking
pub mod Briefings
pub mod Indexer
pub mod Retriever
pub mod Composer
pub mod Ingestion
pub mod Items
pub mod Sources
pub mod Webhook
pub mod Tests
