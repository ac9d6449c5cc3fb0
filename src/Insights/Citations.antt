-- ===== src/Insights/Citations.antt =====
-- How citations are numbered, and which resolve (app/api/insights.py).
use danah_v.Prelude.{
  ℕ, suc, ◌+◌, ◌≡◌, refl, ap, ◌∙◌, true, false, ◌||◌, List, [], ◌∷◌, ◌++◌, map, length,
  length-append, All, All-append, range, range-next, arith, inl, inr, Bool-cases,
}
use danah_v.Enums.{Classification}
use danah_v.Models.{Db}
use danah_v.Agents.{CitationKind, InsightCitation}
use danah_v.Insights.{
  Citation, CitationRef, RawCitations, add_ids, add_listed, add_ref, citations_for, number_refs,
  parse_citation_refs, resolves, same_kind, seen,
}

map-append : {A : Type 0} (f : A → ℕ) (xs ys : List A) → map f (xs ++ ys) ≡ map f xs ++ map f ys
map-append f [] ys = refl
map-append f (x ∷ xs) ys = ap (λ l. f x ∷ l) (map-append f xs ys)

-- The n-th is numbered n.
abbrev pub InOrder : {A : Type 0} → (A → ℕ) → List A → Type 0
InOrder f xs = map f xs ≡ range 1 (length xs)

InOrder-append :
    {A : Type 0} (f : A → ℕ) (xs : List A) (x : A)
    → f x ≡ length xs + 1
    → InOrder f xs
    → InOrder f (xs ++ x ∷ [])
InOrder-append f xs x e h =
    map-append f xs (x ∷ [])
    ∙ (ap (λ l. l ++ f x ∷ []) h
        ∙ (ap (λ n. range 1 (length xs) ++ n ∷ []) (omega (arith, e))
            ∙ (range-next 1 (length xs)
                ∙ ap (range 1) {x = suc (length xs)} (omega (arith, length-append xs (x ∷ []))))))

-- No later reference repeats an earlier one.
abbrev pub DistinctRefs : List CitationRef → Type 0
DistinctRefs [] = Unit
DistinctRefs (r ∷ refs) = (seen r.kind r.id refs ≡ false) × DistinctRefs refs

same_kind_sym : (k l : CitationKind) → same_kind k l ≡ same_kind l k
same_kind_sym CitationKind.item CitationKind.item = refl
same_kind_sym CitationKind.item CitationKind.chunk = refl
same_kind_sym CitationKind.chunk CitationKind.item = refl
same_kind_sym CitationKind.chunk CitationKind.chunk = refl

seen-append :
    (kind : CitationKind) (id : ℕ) (refs more : List CitationRef)
    → seen kind id (refs ++ more) ≡ (seen kind id refs || seen kind id more)
seen-append kind id [] more = refl
seen-append kind id (r ∷ refs) more = ground (arith, seen-append kind id refs more)

DistinctRefs-append :
    (refs : List CitationRef) (r : CitationRef)
    → seen r.kind r.id refs ≡ false
    → DistinctRefs refs
    → DistinctRefs (refs ++ r ∷ [])
DistinctRefs-append [] r absent d = (refl, tt)
DistinctRefs-append (x ∷ refs) r absent (alone, d) = (
  ground (arith, seen-append x.kind x.id refs (r ∷ []), same_kind_sym x.kind r.kind),
  DistinctRefs-append refs r (ground arith) d,
)

abbrev pub Parsed : List CitationRef → Type 0
Parsed refs = InOrder (λ r. r.n) refs × DistinctRefs refs

add_ref-Parsed :
    (kind : CitationKind) (id : ℕ) (refs : List CitationRef)
    → Parsed refs
    → Parsed (add_ref kind id refs)
unfolding add_ref
add_ref-Parsed kind id refs (order, d) = elim (Bool-cases (seen kind id refs)) [
  | inl old ↦ rw old (order, d)
  | inr new ↦ rw new (InOrder-append (λ r. r.n) refs _ refl order, DistinctRefs-append refs _ new d)
]

add_ids-Parsed :
    (kind : CitationKind) (ids : List ℕ) (refs : List CitationRef)
    → Parsed refs
    → Parsed (add_ids kind ids refs)
unfolding add_ids
add_ids-Parsed kind [] refs p = p
add_ids-Parsed kind (id ∷ ids) refs p =
    add_ids-Parsed kind ids (add_ref kind id refs) (add_ref-Parsed kind id refs p)

add_listed-Parsed :
    (citations : List InsightCitation) (refs : List CitationRef)
    → Parsed refs
    → Parsed (add_listed citations refs)
unfolding add_listed
add_listed-Parsed [] refs p = p
add_listed-Parsed (c ∷ citations) refs p =
    add_listed-Parsed citations (add_ref c.kind c.id refs) (add_ref-Parsed c.kind c.id refs p)

-- In whichever of the two shapes the citations are stored, the references are numbered from 1
-- without a gap, and none is given twice.
pub parse_citation_refs-Parsed : (raw : RawCitations) → Parsed (parse_citation_refs raw)
unfolding parse_citation_refs
parse_citation_refs-Parsed (RawCitations.listed citations) =
    add_listed-Parsed citations [] (refl, tt)
parse_citation_refs-Parsed (RawCitations.grouped items chunks) =
    add_ids-Parsed CitationKind.chunk chunks _
      (add_ids-Parsed CitationKind.item items [] (refl, tt))

module _ (clearance : Classification) (db : Db) where
  -- Numbered from 1, and each names an item or a chunk that the caller may read.
  abbrev pub Shown : List Citation → Type 0
  Shown citations =
      InOrder (λ c. c.n) citations × All (λ c. resolves clearance db c.kind c.id ≡ true) citations

  number_refs-Shown :
      (refs : List CitationRef) (resolved : List Citation)
      → Shown resolved
      → Shown (number_refs clearance db refs resolved)
  unfolding number_refs
  number_refs-Shown [] resolved h = h
  number_refs-Shown (r ∷ refs) resolved (order, readable) =
      number_refs-Shown refs _ (elim (Bool-cases (resolves clearance db r.kind r.id)) [
        | inl found ↦ rw found (
          InOrder-append (λ c. c.n) resolved _ refl order,
          All-append _ resolved _ readable (found, tt),
        )
        | inr hidden ↦ rw hidden (order, readable)
      ])

  -- The citations that a caller is shown are numbered from 1 without a gap, and each names an item or
  -- a document chunk that exists and is within the clearance of the caller.
  pub citations_for-Shown : (raw : RawCitations) → Shown (citations_for clearance db raw)
  unfolding citations_for
  citations_for-Shown raw = number_refs-Shown (parse_citation_refs raw) [] (refl, tt)
