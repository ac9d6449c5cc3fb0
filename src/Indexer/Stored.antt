-- ===== src/Indexer/Stored.antt =====
-- Which chunks stand after a document has been indexed (_index of app/services/rag/indexer.py).
use danah_v.Prelude.{
  Bool-cases, inl, inr, ℕ, suc, ◌≡◌, ◌≢◌, refl, ap, ◌∙◌, subst, Bool, true, false, none, some, List,
  [], ◌∷◌, ◌++◌, ==_iff, map, length, find_first, filterb, All, range, filterb-append,
  filterb-deleted, filterb-All, arith, if◌then◌else◌,
}
use danah_v.Exceptions.{Error}
use danah_v.Models.{Db, Document, DocumentChunk, Text}
use danah_v.Session.{flush, Env, pure, draw, write, ◌>>=◌, ◌>>◌}
use danah_v.Session.Triple.{
  Triple, Triple-draw, Triple-write, Triple-bind, Triple-one_or, Triple-of_result, Triple-ask,
  Triple-mono,
}
use danah_v.Chunking.{Chunk, Encoding, Piece, chunk_text, emit_all}
use danah_v.Indexer.{
  Intake, has_document_id, is_chunk_of, chunk_row, chunk_rows, delete_chunks, add_chunks, contents,
  store_chunks, embed_chunks, index_text,
}

-- The chunks of a document, by their index.
abbrev pub indices : ℕ → Db → List ℕ
indices id db = map (λ c. c.chunk_index) (filterb (is_chunk_of id) db.chunks)

abbrev Numbered : List Chunk → Type 0
Numbered chunks = map (λ c. c.index) chunks ≡ range 0 (length chunks)

some_injective : (xs ys : List Chunk) → some xs ≡ some ys → xs ≡ ys
some_injective xs ys h = cc

emit_all-range :
    (enc : Encoding) (k : ℕ) (parts : List (List Piece))
    → map (λ c. c.index) (emit_all enc k parts) ≡ range k (length (emit_all enc k parts))
unfolding emit_all
emit_all-range enc k [] = refl
emit_all-range enc k (p ∷ parts) = ap (λ l. k ∷ l) (emit_all-range enc (suc k) parts)

-- What chunk_text returns is empty or what it has emitted.
returned-Numbered :
    (refused blank : Bool) (xs chunks : List Chunk)
    → Numbered xs
    → (if refused then none else if blank then some [] else some xs) ≡ some chunks
    → Numbered chunks
returned-Numbered true blank xs chunks h e = absurd (cc)
returned-Numbered false true xs chunks h e = subst Numbered (some_injective [] chunks e) refl
returned-Numbered false false xs chunks h e = subst Numbered (some_injective xs chunks e) h

abbrev RowsOf : Document → List Chunk → List DocumentChunk → Type 0
RowsOf d chunks rows =
    (map (λ c. c.chunk_index) rows ≡ map (λ c. c.index) chunks)
    × All (λ r. is_chunk_of d.id r ≡ true) rows

module _ (env : Env) (d : Document) (P : Db → Type 0) where
  chunk_rows-RowsOf :
      (chunks : List Chunk) (vectors : List (List ℕ))
      → Triple P (chunk_rows env d chunks vectors) (λ rows db. P db × RowsOf d chunks rows) P
  unfolding chunk_rows
  chunk_rows-RowsOf [] [] = record { at = λ s h. (h, (refl, tt)) }
  chunk_rows-RowsOf (c ∷ chunks) (v ∷ vectors) =
      Triple-bind (λ id db. P db) (λ rows db. P db × RowsOf d (c ∷ chunks) rows) P P
        (draw env.uuid4) _ (Triple-draw env.uuid4 P (λ id db. P db) P (λ n db h. h))
        (λ id.
          Triple-bind (λ rows db. P db × RowsOf d chunks rows)
            (λ rows db. P db × RowsOf d (c ∷ chunks) rows) P P (chunk_rows env d chunks vectors)
            (λ rows. pure (chunk_row id d c v ∷ rows)) (chunk_rows-RowsOf chunks vectors)
            (λ rows. record {
              at = λ s (h, (same, all)).
                  (h, (ap (λ l. c.index ∷ l) same, ((==_iff d.id d.id).1 refl, all)));
            }))
  chunk_rows-RowsOf [] (v ∷ vectors) = record { at = λ s h. h }
  chunk_rows-RowsOf (c ∷ chunks) [] = record { at = λ s h. h }

-- The row of the document, while it is indexed.
abbrev pub HasDocument : ℕ → Document → Db → Type 0
HasDocument id d db = find_first (has_document_id id) db.documents ≡ some d

-- The chunks of the document are numbered from 0, and there is at least one.
abbrev pub Stored : ℕ → ℕ → Db → Type 0
Stored id n db = (n ≢ 0) × (indices id db ≡ range 0 n)

module _ (env : Env) (intake : Intake) (d row : Document) where
  abbrev pub P : Db → Type 0
  P = HasDocument d.id row

  abbrev pub Q : ℕ → Db → Type 0
  Q n db = P db × Stored d.id n db

  stored-indices :
      (chunks : List Chunk) (rows kept : List DocumentChunk)
      → filterb (is_chunk_of d.id) kept ≡ []
      → RowsOf d chunks rows
      → map (λ c. c.chunk_index) (filterb (is_chunk_of d.id) (kept ++ rows))
        ≡ map (λ c. c.index) chunks
  stored-indices chunks rows kept none_kept (same, all) =
      rw
        (
          filterb-append (is_chunk_of d.id) kept rows,
          none_kept,
          filterb-All (is_chunk_of d.id) rows all,
        )
        same

  abbrev Cleared : Db → Type 0
  Cleared db = P db × (filterb (is_chunk_of d.id) db.chunks ≡ [])

  add_rows-Stored :
      (chunks : List Chunk) (vectors : List (List ℕ))
      → length chunks ≢ 0
      → Numbered chunks
      → Triple Cleared
          (chunk_rows env d chunks vectors >>= λ rows.
            write (add_chunks rows) >> (flush env >> pure (length chunks)))
          Q
          P
  add_rows-Stored chunks vectors some_chunks numbered =
      Triple-bind (λ rows db. Cleared db × RowsOf d chunks rows) Q P Cleared
        (chunk_rows env d chunks vectors) _
        (Triple-mono Cleared (λ rows db. Cleared db × RowsOf d chunks rows)
          (λ rows db. Cleared db × RowsOf d chunks rows) Cleared P (λ rows db h. h) (λ db h. h.0)
          (chunk_rows env d chunks vectors) (chunk_rows-RowsOf env d Cleared chunks vectors))
        (λ rows. record {
          at = λ s ((h, none_kept), new). elim (Bool-cases (env.accepts s.draws)) [
            | inl taken ↦ rw taken (
              h,
              (some_chunks, stored-indices chunks rows s.current.chunks none_kept new ∙ numbered),
            )
            | inr refused ↦ rw refused h
          ];
        })

  store_chunks-Stored :
      (chunks : List Chunk) (vectors : List (List ℕ))
      → length chunks ≢ 0
      → Numbered chunks
      → Triple P (store_chunks env intake d chunks vectors) Q P
  unfolding store_chunks
  store_chunks-Stored chunks vectors some_chunks numbered =
      Triple-bind (λ u db. Cleared db) Q P P (write (delete_chunks d.id)) _
        (Triple-write (delete_chunks d.id) P (λ u db. Cleared db) P
          (λ db h. (h, filterb-deleted (is_chunk_of d.id) db.chunks)))
        (λ u. add_rows-Stored chunks vectors some_chunks numbered)

  -- Nothing to embed is an error, so that no document is indexed without a chunk.
  embed_chunks-Stored :
      (chunks : List Chunk) → Numbered chunks → Triple P (embed_chunks env intake d chunks) Q P
  unfolding embed_chunks
  embed_chunks-Stored [] numbered = record { at = λ s h. h }
  embed_chunks-Stored (c ∷ chunks) numbered =
      Triple-ask P (store_chunks env intake d (c ∷ chunks)) Q P (λ db h. h)
        (λ n. intake.embed n (contents (c ∷ chunks)))
        (λ vectors. store_chunks-Stored (c ∷ chunks) vectors (λ e. omega (arith, e)) numbered)

  chunk_text-Numbered :
      (text : Text) (size overlap : ℕ) (chunks : List Chunk)
      → chunk_text intake.encoding text size overlap ≡ some chunks
      → Numbered chunks
  unfolding chunk_text
  chunk_text-Numbered text size overlap chunks h =
      returned-Numbered _ _ _ chunks (emit_all-range intake.encoding 0 _) h

  pub index_text-Stored : Triple P (index_text env intake d) Q P
  unfolding index_text
  index_text-Stored =
      Triple-of_result P _ Q P (λ db h. h) (intake.read d)
        (λ text.
          Triple-one_or P (embed_chunks env intake d) Q P (λ db h. h) Error.danah_error
            (chunk_text intake.encoding text intake.chunk_size_tokens intake.chunk_overlap_tokens)
            (λ chunks found. embed_chunks-Stored chunks (
              chunk_text-Numbered text intake.chunk_size_tokens intake.chunk_overlap_tokens chunks
                found)))
