-- ===== src/Retriever/Ceiling.antt =====
-- Retrieval stays within the clearance (app/services/rag/retriever.py).
use danah_v.Prelude.{
  ◌-◌, ℕ, suc, ◌≤◌, ◌≡◌, refl, ap, Bool, true, false, Option, List, [], ◌∷◌, arith, All, All-append,
  All-filterb, All-filter_kept, length-take, ◌+◌, All-modify_first, All-sort_by, All-take,
  Bool-cases, inl, inr, map, length, if◌then◌else◌,
}
use danah_v.Enums.{Classification, classification_rank}
use danah_v.Models.{Db, DocumentChunk}
use danah_v.Retriever.{
  ℤ, pos, negsuc, fetch_size, up_to, Fraction, Hit, Search, add_arm, add_hit, combined, fuse,
  has_chunk_id, has_hit, keyword_hit, keyword_search, merged_hit, normalised, retrieve, rrf_k,
  top_k, vector_hit, vector_search,
}

module _ (ceiling : Classification) where
  abbrev pub Within : Hit → Type 0
  Within h = classification_rank h.classification ≤ classification_rank ceiling

  abbrev WithinRow : DocumentChunk → Type 0
  WithinRow c = classification_rank c.classification ≤ classification_rank ceiling

  map-Within :
      (f : DocumentChunk → Hit) (rows : List DocumentChunk)
      → ((c : DocumentChunk) → (f c).classification ≡ c.classification)
      → All WithinRow rows
      → All Within (map f rows)
  map-Within f [] same h = tt
  map-Within f (c ∷ rows) same (h, hs) =
      (omega (arith, h, ap classification_rank (same c)), map-Within f rows same hs)

  vector_search-Within :
      (q : Search) (limit : ℕ) (db : Db) → All Within (vector_search q ceiling limit db)
  unfolding vector_search
  vector_search-Within q limit db =
      map-Within (vector_hit q) _ (λ c. refl)
        (All-take WithinRow limit _
          (All-sort_by WithinRow _ _ (All-filterb WithinRow _ db.chunks (λ c h. ground arith))))

  keyword_search-Within :
      (q : Search) (limit : ℕ) (db : Db) → All Within (keyword_search q ceiling limit db)
  unfolding keyword_search
  keyword_search-Within q limit db =
      map-Within (keyword_hit q) _ (λ c. refl)
        (All-take WithinRow limit _
          (All-sort_by WithinRow _ _ (All-filterb WithinRow _ db.chunks (λ c h. ground arith))))

  add_hit-Within :
      (rank : ℕ) (hit : Hit) (merged : List Hit)
      → Within hit
      → All Within merged
      → All Within (add_hit rank hit merged)
  unfolding add_hit
  add_hit-Within rank hit merged h hs = elim (Bool-cases (has_hit hit.chunk_id merged)) [
    | inl old ↦ rw old (
        All-modify_first Within (has_chunk_id hit.chunk_id) (merged_hit (1, rrf_k + rank) hit)
          merged (λ x _ w. w) hs)
    | inr new ↦ rw new (All-append Within merged _ hs (h, tt))
  ]

  add_arm-Within :
      (rank : ℕ) (arm merged : List Hit)
      → All Within arm
      → All Within merged
      → All Within (add_arm rank arm merged)
  unfolding add_arm
  add_arm-Within rank [] merged h hs = hs
  add_arm-Within rank (hit ∷ arm) merged (h, rest) hs =
      add_arm-Within (suc rank) arm (add_hit rank hit merged) rest
        (add_hit-Within rank hit merged h hs)

  normalised-Within : (hits : List Hit) → All Within hits → All Within (map normalised hits)
  normalised-Within [] hs = tt
  normalised-Within (h ∷ hits) (w, hs) = (w, normalised-Within hits hs)

  combined-Within :
      (floor : Fraction) (vector_hits keyword_hits : List Hit)
      → All Within vector_hits
      → All Within keyword_hits
      → All Within (combined floor vector_hits keyword_hits)
  unfolding fuse
  combined-Within floor vector_hits [] h k = All-filter_kept Within _ vector_hits h
  combined-Within floor vector_hits (hit ∷ keyword_hits) h k = All-sort_by Within _ _ (
      normalised-Within _
        (add_arm-Within 1 (hit ∷ keyword_hits) _ k (add_arm-Within 1 vector_hits [] h tt)))

  -- No more than were asked for, if that is not a negative number.
  abbrev pub NoMore : ℤ → List Hit → Type 0
  NoMore (pos n) hits = length hits ≤ n
  NoMore (negsuc n) hits = Unit

  up_to-Within :
      (k : ℤ) (hits : List Hit)
      → All Within hits
      → All Within (up_to k hits) × NoMore k (up_to k hits)
  unfolding up_to
  up_to-Within (pos n) hits h = (All-take Within n hits h, length-take n hits)
  up_to-Within (negsuc n) hits h = (All-take Within (length hits - suc n) hits h, tt)

  -- Whatever is asked for, and whichever arms find it, no chunk above the clearance of the caller is
  -- retrieved; and no more chunks than were asked for, if that is no negative number.
  pub retrieve-Within :
      (q : Search) (k : Option ℤ) (default : ℕ) (hybrid : Bool) (floor : Fraction) (db : Db)
      → All Within (retrieve q ceiling k default hybrid floor db)
        × NoMore (top_k k default) (retrieve q ceiling k default hybrid floor db)
  unfolding retrieve
  retrieve-Within q k default hybrid floor db =
      let n = top_k k default in
      let fetch = fetch_size n in
      up_to-Within n _
        (combined-Within floor _ _ (vector_search-Within q fetch db) (arm hybrid fetch))
    where
      arm :
          (hybrid : Bool) (fetch : ℕ)
          → All Within (if hybrid then keyword_search q ceiling fetch db else [])
      arm true fetch = keyword_search-Within q fetch db
      arm false fetch = tt
