-- ===== src/Composer/Cited.antt =====
-- Every citation of an answer is a source that was given (app/services/rag/composer.py).
use danah_v.Prelude.{ℕ, ◌≤◌, ◌≡◌, false, Option, some, List, [], ◌∷◌, All, map}
use danah_v.Composer.{RetrievedChunk, SourceCitation, chunk_at, citation_of, mem_number}

-- Between 1 and the number of the sources.
abbrev pub InRange : ℕ → ℕ → Type 0
InRange available n = (1 ≤ n) × (n ≤ available)

abbrev pub NoRepeat : List ℕ → Type 0
NoRepeat [] = Unit
NoRepeat (n ∷ ns) = (mem_number n ns ≡ false) × NoRepeat ns

abbrev pub Listed : ℕ → List ℕ → Type 0
Listed available ns = All (InRange available) ns × NoRepeat ns

-- The citation names the source of its number.
abbrev pub Names : List RetrievedChunk → SourceCitation → Type 0
Names chunks x = (c : RetrievedChunk) × (chunk_at x.n chunks ≡ some c) × (x ≡ citation_of x.n c)

abbrev pub Cites : List RetrievedChunk → List ℕ → Option (List SourceCitation) → Type 0
Cites chunks ns o =
    (xs : List SourceCitation) × (o ≡ some xs) × (map (λ x. x.n) xs ≡ ns) × All (Names chunks) xs
