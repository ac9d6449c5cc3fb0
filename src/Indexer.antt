-- ===== src/Indexer.antt =====
-- app/services/rag/indexer.py: a document is extracted, chunked, embedded and stored, and its status
-- says how that ended. Storage, extraction and the embedder are parameters.
pub mod Stored
pub mod Status
use danah_v.Prelude.{
  ℕ, String, Bool, true, false, not, Option, none, some, List, [], ◌∷◌, ◌++◌, ◌==◌, map, length,
  find_first, modify_first, filterb,
}
use danah_v.Enums.{DocumentStatus}
use danah_v.Exceptions.{Error, Result, ok, raise}
use danah_v.Models.{Db, Document, DocumentChunk, Text}
use danah_v.Session.{
  Env, Action, pure, throw, query, write, draw, flush, one_or, ask, attempt, of_result, ◌>>=◌, ◌>>◌,
}
use danah_v.Chunking.{Chunk, Encoding, chunk_text}

-- What indexing takes from outside. `read` is read_document and extract_text; `embed` is the n-th
-- answer of the embedder.
pub record Intake : Type 0 where
  pub read : Document → Result Text
  pub encoding : Encoding
  pub embed : ℕ → List Text → Result (List (List ℕ))
  pub chunk_size_tokens : ℕ
  pub chunk_overlap_tokens : ℕ

pub record IndexResult : Type 0 where
  pub document_id : ℕ
  pub status : DocumentStatus
  pub chunk_count : ℕ
  pub error : Option Error

abbrev pub has_document_id : ℕ → Document → Bool
has_document_id id d = d.id == id

abbrev pub is_chunk_of : ℕ → DocumentChunk → Bool
is_chunk_of id c = c.document_id == id

abbrev pub with_status : DocumentStatus → Option Error → Document → Document
with_status status error d = record d { status = status; error = error }

abbrev pub ended : DocumentStatus → ℕ → Option Error → Document → Document
ended status chunk_count error d = record d {
  status = status;
  chunk_count = chunk_count;
  error = error;
}

abbrev pub set_document : ℕ → (Document → Document) → Db → Db
set_document id f db = record db { documents = modify_first (has_document_id id) f db.documents }

abbrev pub chunk_row : ℕ → Document → Chunk → List ℕ → DocumentChunk
chunk_row id d c vector = record {
  id = id;
  document_id = d.id;
  chunk_index = c.index;
  content = c.content;
  token_count = c.token_count;
  embedding = vector;
  classification = d.classification;
}

-- zip(chunks, vectors, strict=True): lists of two lengths are a ValueError.
unfoldable pub chunk_rows :
    Env → Document → List Chunk → List (List ℕ) → Action (List DocumentChunk)
chunk_rows env d [] [] = pure []
chunk_rows env d (c ∷ chunks) (v ∷ vectors) = do
  id ← draw env.uuid4
  rows ← chunk_rows env d chunks vectors
  pure (chunk_row id d c v ∷ rows)
chunk_rows env d _ _ = throw Error.danah_error

abbrev pub delete_chunks : ℕ → Db → Db
delete_chunks id db = record db { chunks = filterb (λ c. not (is_chunk_of id c)) db.chunks }

abbrev pub add_chunks : List DocumentChunk → Db → Db
add_chunks rows db = record db { chunks = db.chunks ++ rows }

abbrev pub contents : List Chunk → List Text
contents [] = []
contents (c ∷ chunks) = c.content ∷ contents chunks

abbrev pub failed_index : ℕ → Error → IndexResult
failed_index id e = record {
  document_id = id;
  status = DocumentStatus.failed;
  chunk_count = 0;
  error = some e;
}

abbrev pub whole_index : ℕ → ℕ → IndexResult
whole_index id n = record {
  document_id = id;
  status = DocumentStatus.indexed;
  chunk_count = n;
  error = none;
}

module _ (env : Env) (intake : Intake) where
  -- The end of _index: the new chunks replace those of an earlier run.
  unfoldable pub store_chunks : Document → List Chunk → List (List ℕ) → Action ℕ
  unfolding chunk_rows
  store_chunks d chunks vectors = do
    write (delete_chunks d.id)
    rows ← chunk_rows env d chunks vectors
    write (add_chunks rows)
    flush env
    pure (length chunks)

  unfoldable pub embed_chunks : Document → List Chunk → Action ℕ
  unfolding store_chunks
  embed_chunks d [] = throw Error.retrieval_error
  embed_chunks d (c ∷ chunks) = do
    vectors ← ask (λ n. intake.embed n (contents (c ∷ chunks)))
    store_chunks d (c ∷ chunks) vectors

  -- _index
  unfoldable pub index_text : Document → Action ℕ
  unfolding embed_chunks chunk_text
  index_text d = do
    text ← of_result (intake.read d)
    chunks ←
        one_or Error.danah_error
          (chunk_text intake.encoding text intake.chunk_size_tokens intake.chunk_overlap_tokens)
    embed_chunks d chunks

  -- Both except branches set the row to failed, and flush again.
  unfoldable pub settle_index : ℕ → Result ℕ → Action IndexResult
  settle_index id (raise e) = do
    write (set_document id (ended DocumentStatus.failed 0 (some e)))
    flush env
    pure (failed_index id e)
  settle_index id (ok n) = do
    write (set_document id (ended DocumentStatus.indexed n none))
    flush env
    pure (whole_index id n)

  unfoldable pub index_found : Document → Action IndexResult
  unfolding index_text settle_index
  index_found d = do
    write (set_document d.id (with_status DocumentStatus.processing none))
    flush env
    r ← attempt (index_text d)
    settle_index d.id r

  unfoldable pub index_document : ℕ → Action IndexResult
  unfolding index_found
  index_document id = do
    found ← query (λ db. find_first (has_document_id id) db.documents)
    d ← one_or Error.not_found found
    index_found d

  abbrev pub reindex : List ℕ → Action (List IndexResult)
  reindex [] = pure []
  reindex (id ∷ ids) = do result ← index_document id; results ← reindex ids; pure (result ∷ results)

  unfoldable pub reindex_all : Action (List IndexResult)
  reindex_all s = reindex (map (λ d. d.id) s.current.documents) s
