-- ===== src/Retriever.antt =====
-- app/services/rag/retriever.py: hybrid retrieval within a clearance. Distances and ranks are those
-- of the database; scores are exact fractions.
pub mod Ceiling
use danah_v.Prelude.{
  length, ◌-◌, ℕ, zero, suc, ◌+◌, ◌*◌, Bool, true, false, ◌&&◌, ◌||◌, Option, none, some, List, [],
  ◌∷◌, ◌++◌, ◌==◌, leb, if◌then◌else◌, map, max, filterb, sort_by, take, modify_first,
}
use danah_v.Enums.{Classification, classification_rank}
use danah_v.Models.{Db, DocumentChunk}

-- A fraction: its denominator is not zero.
abbrev pub Fraction : Type 0
Fraction = ℕ × ℕ

abbrev pub plus : Fraction → Fraction → Fraction
plus (a, b) (c, d) = (a * d + c * b, b * d)

abbrev pub at_most : Fraction → Fraction → Bool
at_most (a, b) (c, d) = leb (a * d) (c * b)

pub record Hit : Type 0 where
  pub chunk_id : ℕ
  pub document_id : ℕ
  pub classification : Classification
  pub score : Fraction
  pub vector_score : Option Fraction
  pub keyword_score : Option Fraction

-- What the database computes for a query: the cosine distance of a chunk (a row without an
-- embedding is not searched), its similarity, whether its text matches, and its text rank.
pub record Search : Type 0 where
  pub embedded : DocumentChunk → Bool
  pub distance : DocumentChunk → ℕ
  pub similarity : DocumentChunk → Fraction
  pub matches : DocumentChunk → Bool
  pub rank : DocumentChunk → Fraction
  pub in_language : DocumentChunk → Bool
  pub document_ids : List ℕ

abbrev pub mem_document : ℕ → List ℕ → Bool
mem_document id [] = false
mem_document id (x ∷ xs) = x == id || mem_document id xs

-- No ids given is no restriction.
abbrev pub in_documents : List ℕ → ℕ → Bool
in_documents [] id = true
in_documents (x ∷ xs) id = mem_document id (x ∷ xs)

-- The clauses of both arms: the clearance, and _narrow.
abbrev pub searched : Search → Classification → DocumentChunk → Bool
searched q ceiling c =
    leb (classification_rank c.classification) (classification_rank ceiling)
    && (q.in_language c && in_documents q.document_ids c.document_id)

abbrev pub vector_hit : Search → DocumentChunk → Hit
vector_hit q c = record {
  chunk_id = c.id;
  document_id = c.document_id;
  classification = c.classification;
  score = q.similarity c;
  vector_score = some (q.similarity c);
  keyword_score = none;
}

abbrev pub keyword_hit : Search → DocumentChunk → Hit
keyword_hit q c = record {
  chunk_id = c.id;
  document_id = c.document_id;
  classification = c.classification;
  score = q.rank c;
  vector_score = none;
  keyword_score = some (q.rank c);
}

unfoldable pub vector_search : Search → Classification → ℕ → Db → List Hit
vector_search q ceiling limit db = map (vector_hit q) (
    take limit (
      sort_by (λ a b. leb (q.distance a) (q.distance b))
        (filterb (λ c. q.embedded c && searched q ceiling c) db.chunks)))

unfoldable pub keyword_search : Search → Classification → ℕ → Db → List Hit
keyword_search q ceiling limit db = map (keyword_hit q) (
    take limit (
      sort_by (λ a b. at_most (q.rank b) (q.rank a))
        (filterb (λ c. q.matches c && searched q ceiling c) db.chunks)))

abbrev pub rrf_k : ℕ
rrf_k = 60

-- `a or b`: a score of zero is false.
abbrev pub or_score : Option Fraction → Option Fraction → Option Fraction
or_score none b = b
or_score (some (zero, d)) b = b
or_score (some (suc n, d)) b = some (suc n, d)

abbrev pub has_chunk_id : ℕ → Hit → Bool
has_chunk_id id h = h.chunk_id == id

abbrev pub has_hit : ℕ → List Hit → Bool
has_hit id [] = false
has_hit id (h ∷ hits) = has_chunk_id id h || has_hit id hits

-- A hit that an arm has found before, seen again: its score so far is its contribution.
abbrev pub merged_hit : Fraction → Hit → Hit → Hit
merged_hit share hit existing = record existing {
  score = plus existing.score share;
  vector_score = or_score existing.vector_score hit.vector_score;
  keyword_score = or_score existing.keyword_score hit.keyword_score;
}

unfoldable pub add_hit : ℕ → Hit → List Hit → List Hit
add_hit rank hit merged =
    let share : Fraction = (1, rrf_k + rank) in
    if has_hit hit.chunk_id merged
    then modify_first (has_chunk_id hit.chunk_id) (merged_hit share hit) merged
    else merged ++ (record hit { score = share }) ∷ []

-- enumerate(arm, start=rank)
unfoldable pub add_arm : ℕ → List Hit → List Hit → List Hit
unfolding add_hit
add_arm rank [] merged = merged
add_arm rank (hit ∷ arm) merged = add_arm (suc rank) arm (add_hit rank hit merged)

-- min(1.0, raw / best_possible), where the best is 2 / (RRF_K + 1).
abbrev pub normalised : Hit → Hit
normalised h =
    let (n, d) = h.score in
    let relative : Fraction = (n * (rrf_k + 1), d * 2) in
    record h { score = if at_most (1, 1) relative then (1, 1) else relative }

-- _fuse
unfoldable pub fuse : List Hit → List Hit → List Hit
unfolding add_arm
fuse vector_hits keyword_hits =
    sort_by (λ a b. at_most b.score a.score)
      (map normalised (add_arm 1 keyword_hits (add_arm 1 vector_hits [])))

-- An int over the numbers used here.
pub data ℤ : Type 0 where
  pos negsuc : ℕ → ℤ

-- k, where it is given and not zero. The tool of an agent takes it from the model, unchecked.
abbrev pub top_k : Option ℤ → ℕ → ℤ
top_k none default = pos default
top_k (some (pos zero)) default = pos default
top_k (some (pos (suc n))) default = pos (suc n)
top_k (some (negsuc n)) default = negsuc n

-- max(k * 3, 20)
abbrev pub fetch_size : ℤ → ℕ
fetch_size (pos n) = max (n * 3) 20
fetch_size (negsuc n) = 20

-- fused[:k]: a negative k leaves out as many at the end.
unfoldable pub up_to : ℤ → List Hit → List Hit
up_to (pos n) hits = take n hits
up_to (negsuc n) hits = take (length hits - suc n) hits

-- Without a hit by keyword there is nothing to fuse, and the floor applies.
abbrev pub combined : Fraction → List Hit → List Hit → List Hit
combined floor vector_hits [] = filterb (λ h. at_most floor h.score) vector_hits
combined floor vector_hits (h ∷ keyword_hits) = fuse vector_hits (h ∷ keyword_hits)

unfoldable pub retrieve : Search → Classification → Option ℤ → ℕ → Bool → Fraction → Db → List Hit
unfolding vector_search keyword_search fuse up_to
retrieve q ceiling k default hybrid floor db =
    let n = top_k k default in
    let fetch = fetch_size n in
    up_to n (
      combined floor (vector_search q ceiling fetch db)
        (if hybrid then keyword_search q ceiling fetch db else []))
