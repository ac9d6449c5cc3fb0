-- ===== src/Indexer/Status.antt =====
-- How indexing ends (index_document of app/services/rag/indexer.py).
use danah_v.Prelude.{
  Bool-cases, false, ℕ, ◌≡◌, refl, sym, subst, ◌⊎◌, inl, inr, none, some, ==_iff, find_first,
  find_first-modify_first, find_first-holds,
}
use danah_v.Enums.{DocumentStatus}
use danah_v.Exceptions.{Error, Result, ok, raise}
use danah_v.Models.{Db, Document}
use danah_v.Session.{Env, Session}
use danah_v.Session.Triple.{After}
use danah_v.Indexer.{
  Intake, IndexResult, has_document_id, with_status, ended, failed_index, whole_index, set_document,
  index_text, settle_index, index_found, index_document,
}
use danah_v.Indexer.Stored.{HasDocument, P, Q, Stored, index_text-Stored}

module _ (env : Env) (intake : Intake) (d row : Document) where
  -- What a result says of the row of its document.
  abbrev pub Reported : IndexResult → Document → Type 0
  Reported r d' = (d'.status ≡ r.status) × (d'.chunk_count ≡ r.chunk_count) × (d'.error ≡ r.error)

  -- The document is indexed, its chunks stored and counted, or it has failed with an error.
  abbrev pub Outcome : IndexResult → Db → Type 0
  Outcome r db =
      ((r.status ≡ DocumentStatus.indexed) × (r.error ≡ none) × Stored d.id r.chunk_count db)
      ⊎ ((r.status ≡ DocumentStatus.failed)
          × (r.chunk_count ≡ 0)
          × ((e : Error) × (r.error ≡ some e)))

  abbrev pub IndexEnds : IndexResult → Db → Type 0
  IndexEnds r db = (d' : Document) × HasDocument d.id d' db × Reported r d' × Outcome r db

  -- A call that returns ends like that; one that raises has been refused a write.
  abbrev pub Returns : Result IndexResult → Db → Type 0
  Returns r db =
      ((result : IndexResult) × (r ≡ ok result) × IndexEnds result db)
      ⊎ ((r ≡ raise Error.database_error) × ((n : ℕ) × (env.accepts n ≡ false)))

  settle_index-Returns :
      (r : Result ℕ) (s : Session)
      → After (Q env intake d row) (P env intake d row) r s.current
      → Returns (settle_index env intake d.id r s).0 (settle_index env intake d.id r s).1.current
  unfolding settle_index
  settle_index-Returns (raise e) s h = elim (Bool-cases (env.accepts s.draws)) [
    | inr refused ↦ rw refused (inr (refl, (s.draws, refused)))
    | inl taken ↦ rw taken (
        inl (
          failed_index d.id e,
          refl,
          (
            ended DocumentStatus.failed 0 (some e) row,
            find_first-modify_first (has_document_id d.id) _ s.current.documents row h
                (find_first-holds (has_document_id d.id) s.current.documents row h),
            (refl, refl, refl),
            inr (refl, refl, (e, refl)),
          ),
        ))
  ]
  settle_index-Returns (ok n) s (h, stored) = elim (Bool-cases (env.accepts s.draws)) [
    | inr refused ↦ rw refused (inr (refl, (s.draws, refused)))
    | inl taken ↦ rw taken (
        inl (
          whole_index d.id n,
          refl,
          (
            ended DocumentStatus.indexed n none row,
            find_first-modify_first (has_document_id d.id) _ s.current.documents row h
                (find_first-holds (has_document_id d.id) s.current.documents row h),
            (refl, refl, refl),
            inl (refl, refl, stored),
          ),
        ))
  ]

module _ (env : Env) (intake : Intake) where
  -- The document that is found, while it is processed.
  abbrev pub started : Document → Document
  started d = with_status DocumentStatus.processing none d

  index_found-Returns :
      (d : Document) (s : Session)
      → HasDocument d.id d s.current
      → Returns env intake d
          (started d)
          (index_found env intake d s).0
          (index_found env intake d s).1.current
  unfolding index_found
  index_found-Returns d s h = elim (Bool-cases (env.accepts s.draws)) [
    | inr refused ↦ rw refused (inr (refl, (s.draws, refused)))
    | inl taken ↦
        let begun : Session = record s { current = set_document d.id started s.current } in
        let here =
          find_first-modify_first (has_document_id d.id) started s.current.documents d h
            (find_first-holds (has_document_id d.id) s.current.documents d h) in
        let (r, s') = index_text env intake d begun in
        rw taken (
          settle_index-Returns env intake d (started d) r s'
            ((index_text-Stored env intake d (started d)).at begun here))
  ]

  -- Indexing a document that exists returns, unless the database refuses a write, whatever is read,
  -- however it is split and whatever the embedder answers; and the row says what the result says:
  -- the document is `indexed`, and its chunks, numbered from 0, are as many as it counts and at least
  -- one; or it has `failed` with an error and counts none. It is then never left `processing`. Where
  -- a write is refused, indexing may raise the error of the database in place of that.
  pub index_document-IndexEnds :
      (id : ℕ) (d : Document) (s : Session)
      → find_first (has_document_id id) s.current.documents ≡ some d
      → Returns env intake d
          (started d)
          (index_document env intake id s).0
          (index_document env intake id s).1.current
  unfolding index_document
  index_document-IndexEnds id d s h =
      let same =
        (==_iff d.id id).0 (find_first-holds (has_document_id id) s.current.documents d h) in
      rw h (
        index_found-Returns d s
          (subst (λ x. find_first (has_document_id x) s.current.documents ≡ some d) (sym same) h))
