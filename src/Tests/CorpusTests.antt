-- ===== src/Tests/CorpusTests.antt =====
-- Indexing, ingestion, retrieval and citations at concrete texts.
use danah_v.Prelude.{
  ℕ, ◌≤◌, ◌≡◌, refl, true, Option, none, some, List, [], ◌∷◌, All, find_first, length, leb, ◌&&◌,
  ◌-◌, if◌then◌else◌,
}
use danah_v.Enums.{Classification, DocumentStatus}
use danah_v.Exceptions.{ok}
use danah_v.Models.{Db, Document, DocumentChunk, Source, Text}
use danah_v.Session.{Session}
use danah_v.Session.Keeps.{Both}
use danah_v.Indexer.{Intake, has_document_id, index_document}
use danah_v.Indexer.Status.{Returns, index_document-IndexEnds, started}
use danah_v.Ingestion.{Feeds, RawItem, has_source_id, persist_items, sync_source_by_id}
use danah_v.Ingestion.Sync.{persist_items-again}
use danah_v.Ingestion.Schedule.{Recorded, sync_source_by_id-Recorded}
use danah_v.Sources.Names.{IsTidy, SourceRequest, serve, serve-IsTidy, sync}
use danah_v.Webhook.{PushedItem, to_raw_items}
use danah_v.Webhook.Floor.{Accepted, to_raw_items-Accepted}
use danah_v.Retriever.{Search, retrieve}
use danah_v.Retriever.Ceiling.{Within, retrieve-Within}
use danah_v.Composer.{RetrievedChunk}
use danah_v.Tests.{executive, first_db, first_session, sample_env}

abbrev document : Document
document = record {
  id = 50;
  title = "Port strategy";
  storage_path = "a/b";
  status = DocumentStatus.pending;
  classification = Classification.official;
  chunk_count = 0;
  error = none;
}

abbrev library : Session
library = record first_session { current = record first_db { documents = document ∷ [] } }

-- Each character is a token.
abbrev intake : Intake
intake = record {
  read = λ d. ok (65 ∷ 66 ∷ 67 ∷ []);
  encoding = record { encode = λ t. t; decode = λ t. t };
  embed = λ n texts. ok ((1 ∷ []) ∷ []);
  chunk_size_tokens = 8;
  chunk_overlap_tokens = 2;
}

found_document : find_first (has_document_id 50) library.current.documents ≡ some document
unfolding find_first
found_document = refl

index_document-IndexEnds_example :
    Returns sample_env intake document
      (started sample_env intake document)
      (index_document sample_env intake 50 library).0
      (index_document sample_env intake 50 library).1.current
index_document-IndexEnds_example =
    index_document-IndexEnds sample_env intake 50 document library found_document

abbrev raw : RawItem
raw = record {
  external_id = 97 ∷ [];
  title = 70 ∷ [];
  url = [];
  published_at = none;
  classification = Classification.internal;
}

abbrev feeds : Feeds
feeds = record {
  show_id = λ id. id ∷ [];
  iso_day = λ t. t ∷ [];
  lower = λ t. t;
  fetch = λ n source. ok (raw ∷ raw ∷ []);
  closes = λ n. true;
}

persist_items-again_example :
    let first = persist_items sample_env feeds 2 (raw ∷ raw ∷ []) first_session in
    let second = persist_items sample_env feeds 2 (raw ∷ raw ∷ []) first.1 in
    (second.0 ≡ ok (0, 2)) × (second.1.current.items ≡ first.1.current.items)
persist_items-again_example =
    persist_items-again sample_env feeds 2 (raw ∷ raw ∷ []) first_session (λ n. refl)

abbrev source : Source
source = record {
  id = 2;
  name = "Relief";
  enabled = true;
  poll_interval_minutes = 15;
  last_synced_at = none;
  last_status = none;
}

abbrev polled : Session
polled = record first_session { current = record first_db { sources = source ∷ [] } }

found_source : find_first (has_source_id 2) polled.current.sources ≡ some source
unfolding find_first
found_source = refl

sync_source_by_id-Recorded_example :
    Recorded sample_env feeds source
      (sync_source_by_id sample_env feeds 2 polled).0
      (sync_source_by_id sample_env feeds 2 polled).1
sync_source_by_id-Recorded_example =
    sync_source_by_id-Recorded sample_env feeds (λ n. refl) (λ n. refl) 2 source polled found_source

abbrev request : SourceRequest
request = sync 2 (λ r. [])

serve-IsTidy_example : Both IsTidy (serve sample_env feeds executive none request polled).1
serve-IsTidy_example =
    serve-IsTidy sample_env feeds executive none request polled
      (((tt, tt), (refl, tt)), (tt, (refl, tt)))

abbrev pushed : PushedItem
pushed = record {
  title = 70 ∷ [];
  external_id = [];
  id = 55 ∷ [];
  url = [];
  published_at = none;
  declared = some Classification.public;
}

to_raw_items-Accepted_example :
    Accepted Classification.official
      (pushed ∷ [])
      (to_raw_items Classification.official (pushed ∷ []))
to_raw_items-Accepted_example = to_raw_items-Accepted Classification.official (pushed ∷ [])

abbrev chunk : DocumentChunk
chunk = record {
  id = 60;
  document_id = 50;
  chunk_index = 0;
  content = 65 ∷ [];
  token_count = 1;
  embedding = 1 ∷ [];
  classification = Classification.official;
}

abbrev corpus : Db
corpus = record first_db {
  chunks =
      chunk ∷ (record chunk { id = 61; classification = Classification.official_sensitive }) ∷ [];
}

abbrev question : Search
question = record {
  embedded = λ c. true;
  distance = λ c. c.id;
  similarity = λ c. (1, 2);
  matches = λ c. true;
  rank = λ c. (1, 3);
  in_language = λ c. true;
  document_ids = [];
}

retrieve-Within_example :
    All
      (Within Classification.official)
      (retrieve question Classification.official none 8 true (0, 1) corpus)
    × (length (retrieve question Classification.official none 8 true (0, 1) corpus) ≤ 8)
retrieve-Within_example = retrieve-Within Classification.official question none 8 true (0, 1) corpus

abbrev decimal : ℕ → Option ℕ
decimal c = if leb 48 c && leb c 57 then some (c - 48) else none

-- "A[1][2][0]"
abbrev reply : Text
reply = 65 ∷ 91 ∷ 49 ∷ 93 ∷ 91 ∷ 50 ∷ 93 ∷ 91 ∷ 48 ∷ 93 ∷ []

abbrev sources : List RetrievedChunk
sources = (record { chunk_id = 60; document_id = 50; score = 8_000 }) ∷ []
