-- ===== src/Models/Corpus.antt =====
-- Tasks, sources, documents and their chunks (app/models/task.py, source.py and document.py).
use danah_v.Prelude.{ℕ, String, Bool, Option, List}
use danah_v.Exceptions.{Error}
use danah_v.Enums.{Classification, DocumentStatus, TaskStatus, Urgency}

pub record Task : Type 0 where
  pub id : ℕ
  pub title : String
  pub description : String
  pub status : TaskStatus
  pub urgency : Urgency
  pub owner : String
  pub progress : ℕ
  pub due_date : Option ℕ
  pub classification : Classification
  pub created_by : Option ℕ
  pub source_insight_id : Option ℕ
  pub created_at : ℕ

-- What `last_status` says: "ok: n new", or "error: " and what went wrong.
pub data SyncStatus : Type 0 where
  synced : ℕ → SyncStatus
  failure : Error → SyncStatus

pub record Source : Type 0 where
  pub id : ℕ
  pub name : String
  pub enabled : Bool
  pub poll_interval_minutes : ℕ
  pub last_synced_at : Option ℕ
  pub last_status : Option SyncStatus

pub record Document : Type 0 where
  pub id : ℕ
  pub title : String
  pub storage_path : String
  pub status : DocumentStatus
  pub classification : Classification
  pub chunk_count : ℕ
  pub error : Option Error

pub record DocumentChunk : Type 0 where
  pub id : ℕ
  pub document_id : ℕ
  pub chunk_index : ℕ
  pub content : List ℕ
  pub token_count : ℕ
  pub embedding : List ℕ
  pub classification : Classification
