-- ===== src/Composer.antt =====
-- app/services/rag/composer.py: which sources an answer cites, and whether it abstains.
pub mod Cited
use danah_v.Prelude.{
  ℕ, zero, suc, ◌+◌, ◌*◌, Bool, true, false, not, ◌&&◌, ◌||◌, Option, none, some, List, [], ◌∷◌,
  ◌++◌, ◌==◌, ltb, leb, if◌then◌else◌, length, is_none,
}
use danah_v.Models.{Text}

-- What a chunk that was retrieved gives to a citation; the score is in ten-thousandths.
pub record RetrievedChunk : Type 0 where
  pub chunk_id : ℕ
  pub document_id : ℕ
  pub score : ℕ

pub record SourceCitation : Type 0 where
  pub n : ℕ
  pub id : ℕ
  pub document_id : ℕ
  pub score : ℕ

-- `decimal` is the value of a character that the pattern \d accepts.
module _ (decimal : ℕ → Option ℕ) where
  abbrev closing : ℕ → Text → Option ℕ
  closing n [] = none
  closing n (c ∷ t) = if c == 93 then some n else none

  abbrev second_digit : ℕ → Text → Option ℕ
  second_digit n [] = none
  second_digit n (c ∷ t) = elim (decimal c) [
    | none ↦ closing n (c ∷ t)
    | some d ↦ closing (n * 10 + d) t
  ]

  abbrev first_digit : Text → Option ℕ
  first_digit [] = none
  first_digit (c ∷ t) = elim (decimal c) [ none ↦ none | some d ↦ second_digit d t ]

  -- A marker [d] or [dd] at the start of a text: 91 and 93 are the brackets.
  unfoldable pub marker : Text → Option ℕ
  marker [] = none
  marker (c ∷ t) = if c == 91 then first_digit t else none

  -- finditer: no marker begins inside another, so each position is tried.
  unfoldable pub markers : Text → List ℕ
  unfolding marker
  markers [] = []
  markers (c ∷ t) =
      let rest = markers t in elim (marker (c ∷ t)) [ none ↦ rest | some n ↦ n ∷ rest ]

abbrev pub mem_number : ℕ → List ℕ → Bool
mem_number n [] = false
mem_number n (m ∷ ms) = m == n || mem_number n ms

-- The loop of extract_cited_numbers.
unfoldable pub keep_cited : ℕ → List ℕ → List ℕ → List ℕ
keep_cited available [] seen = seen
keep_cited available (n ∷ ns) seen =
    keep_cited available ns
      (if leb 1 n && (leb n available && not (mem_number n seen)) then seen ++ n ∷ [] else seen)

unfoldable pub extract_cited_numbers : (ℕ → Option ℕ) → Text → ℕ → List ℕ
unfolding keep_cited markers
extract_cited_numbers decimal answer available = keep_cited available (markers decimal answer) []

-- chunks[n - 1]
unfoldable pub chunk_at : ℕ → List RetrievedChunk → Option RetrievedChunk
chunk_at zero chunks = none
chunk_at (suc n) [] = none
chunk_at (suc zero) (c ∷ chunks) = some c
chunk_at (suc (suc n)) (c ∷ chunks) = chunk_at (suc n) chunks

abbrev pub citation_of : ℕ → RetrievedChunk → SourceCitation
citation_of n c = record { n = n; id = c.chunk_id; document_id = c.document_id; score = c.score }

abbrev pub and_citation :
    ℕ → Option RetrievedChunk → Option (List SourceCitation) → Option (List SourceCitation)
and_citation n none rest = none
and_citation n (some c) none = none
and_citation n (some c) (some rest) = some (citation_of n c ∷ rest)

-- Nothing where an index would be out of range.
unfoldable pub cite_all : List RetrievedChunk → List ℕ → Option (List SourceCitation)
unfolding chunk_at
cite_all chunks [] = some []
cite_all chunks (n ∷ ns) = and_citation n (chunk_at n chunks) (cite_all chunks ns)

unfoldable pub build_citations :
    (ℕ → Option ℕ) → Text → List RetrievedChunk → Option (List SourceCitation)
unfolding extract_cited_numbers cite_all
build_citations decimal answer chunks =
    cite_all chunks (extract_cited_numbers decimal answer (length chunks))

abbrev pub starts_with : Text → Text → Bool
starts_with [] t = true
starts_with (c ∷ p) [] = false
starts_with (c ∷ p) (d ∷ t) = c == d && starts_with p t

abbrev pub contains : Text → Text → Bool
contains p [] = starts_with p []
contains p (c ∷ t) = starts_with p (c ∷ t) || contains p t

-- "not_in_sources"
abbrev pub abstain_marker : Text
abstain_marker = 110 ∷ 111 ∷ 116 ∷ 95 ∷ 105 ∷ 110 ∷ 95 ∷ 115 ∷ 111 ∷ 117 ∷ 114 ∷ 99 ∷ 101 ∷ 115 ∷ []

unfoldable pub is_abstention : (ℕ → Option ℕ) → (Text → Text) → Text → Bool
unfolding markers
is_abstention decimal lower answer =
    contains abstain_marker (lower answer)
    || elim (markers decimal answer) [ [] ↦ true | n ∷ ns ↦ false ]
