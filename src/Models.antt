-- ===== src/Models.antt =====
-- The tables (app/models/): a row is a record with the columns that a modelled operation reads or
-- writes. Identifiers, times and hashes of passwords are numbers; a text hash is its code points.
pub mod Corpus
pub use Corpus.{Task, Source, SyncStatus, Document, DocumentChunk}
use danah_v.Prelude.{ℕ, String, Bool, Option, List}
use danah_v.Enums.{
  Classification, Role, ItemStatus, PipelineTrigger, RunStatus, StepStatus, AgentName, InsightKind,
  PublicationStatus, ApprovalSubject, ApprovalStatus, ActorType, NotificationKind,
}

abbrev pub Text : Type 0
Text = List ℕ

pub record User : Type 0 where
  pub id : ℕ
  pub email : String
  pub password_hash : Text
  pub role : Role
  pub is_active : Bool
  pub last_login_at : Option ℕ

pub record RefreshToken : Type 0 where
  pub user_id : ℕ
  pub token_hash : Text
  pub expires_at : ℕ
  pub revoked_at : Option ℕ

pub record Insight : Type 0 where
  pub id : ℕ
  pub kind : InsightKind
  pub title : String
  pub body : String
  pub severity : ℕ
  pub confidence : ℕ
  pub cited_items : List ℕ
  pub cited_chunks : List ℕ
  pub classification : Classification
  pub status : PublicationStatus
  pub run_id : Option ℕ
  pub created_by_agent : AgentName

-- A section of a briefing: key, headings and bodies in English and Arabic.
pub record Section : Type 0 where
  pub key : String
  pub heading_en : String
  pub heading_ar : String
  pub body_en : String
  pub body_ar : String

pub record Briefing : Type 0 where
  pub id : ℕ
  pub date : ℕ
  pub title : String
  pub sections : List Section
  pub has_arabic : Bool
  pub cited_items : List ℕ
  pub cited_chunks : List ℕ
  pub confidence : ℕ
  pub classification : Classification
  pub status : PublicationStatus
  pub run_id : Option ℕ

pub record Approval : Type 0 where
  pub id : ℕ
  pub subject_type : ApprovalSubject
  pub subject_id : ℕ
  pub requested_by_agent : AgentName
  pub assigned_role : Role
  pub status : ApprovalStatus
  pub decided_by : Option ℕ
  pub decided_at : Option ℕ
  pub comment : Option String

pub record Notification : Type 0 where
  pub id : ℕ
  pub user_id : Option ℕ
  pub role : Option Role
  pub kind : NotificationKind
  pub title : String
  pub subject_ref : String × ℕ
  pub read_at : Option ℕ

-- A value in the `detail` dictionary of an audit entry.
pub data Scalar : Type 0 where
  text : String → Scalar
  number : ℕ → Scalar
  ident : ℕ → Scalar
  flag : Bool → Scalar

-- The fields of an audit entry that are hashed.
pub record Payload : Type 0 where
  pub ts : ℕ
  pub actor_id : Option ℕ
  pub actor_type : ActorType
  pub action : String
  pub subject_type : Option String
  pub subject_id : Option ℕ
  pub ip : Option String
  pub detail : List (String × Scalar)

pub record AuditLog : Type 0 where
  pub id : ℕ
  pub payload : Payload
  pub prev_hash : Text
  pub entry_hash : Text

pub record IngestedItem : Type 0 where
  pub id : ℕ
  pub source_id : ℕ
  pub title : Text
  pub classification : Classification
  pub status : ItemStatus
  pub relevance : Option ℕ
  pub published_at : Option ℕ
  pub created_at : ℕ
  pub dedup_hash : Text

-- RunStats of app/services/orchestrator.py; the cost is in millionths of a dollar.
pub record RunStats : Type 0 where
  pub items_triaged : ℕ
  pub items_archived : ℕ
  pub risks : ℕ
  pub opportunities : ℕ
  pub policies : ℕ
  pub briefings : ℕ
  pub memories : ℕ
  pub tokens : ℕ
  pub cost_usd : ℕ
  pub failed_steps : List AgentName

-- The column `stats` holds `max_items` until the statistics of the run take its place.
pub record PipelineRun : Type 0 where
  pub id : ℕ
  pub trigger : PipelineTrigger
  pub status : RunStatus
  pub started_at : ℕ
  pub finished_at : Option ℕ
  pub initiated_by : Option ℕ
  pub max_items : Option ℕ
  pub stats : Option RunStats
  pub stopped_early : Option String
  pub crashed : Bool

pub record PipelineStep : Type 0 where
  pub id : ℕ
  pub run_id : ℕ
  pub agent : AgentName
  pub status : StepStatus
  pub tokens_in : ℕ
  pub tokens_out : ℕ
  pub cost_usd : ℕ
  pub failed_with_error : Bool

pub record MemoryEntry : Type 0 where
  pub id : ℕ
  pub title : Text
  pub content : Text
  pub classification : Classification
  pub run_id : Option ℕ
  pub created_by : Option ℕ

pub record Db : Type 0 where
  pub users : List User
  pub refresh_tokens : List RefreshToken
  pub insights : List Insight
  pub briefings : List Briefing
  pub approvals : List Approval
  pub notifications : List Notification
  pub audit_log : List AuditLog
  pub items : List IngestedItem
  pub runs : List PipelineRun
  pub steps : List PipelineStep
  pub memories : List MemoryEntry
  pub tasks : List Task
  pub sources : List Source
  pub documents : List Document
  pub chunks : List DocumentChunk
