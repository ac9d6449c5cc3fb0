-- ===== src/Insights.antt =====
-- app/api/insights.py: which insights a user is shown, and how their citations are resolved and
-- numbered. Titles, snippets and the filters on text are left out.
pub mod Visibility
pub mod Citations
use danah_v.Prelude.{
  ℕ, suc, ◌+◌, Bool, true, false, ◌&&◌, ◌||◌, Option, none, some, List, [], ◌∷◌, ◌++◌, ◌==◌, ltb,
  leb, if◌then◌else◌, length, filterb, sort_by, take, drop, find_first, is_none,
}
use danah_v.Enums.{
  ApprovalSubject, Classification, InsightKind, PublicationStatus, Role, same_role,
  same_publication, classification_rank,
}
use danah_v.Exceptions.{Error}
use danah_v.Models.{Approval, Db, DocumentChunk, IngestedItem, Insight, User}
use danah_v.Session.{Action, pure, throw, query, one_or, ◌>>=◌}
use danah_v.Security.{user_clearance}
use danah_v.Agents.{CitationKind, InsightCitation}
use danah_v.Approvals.{approval_for_subject}

-- The two shapes of the `citations` column, with the entries that parse.
pub data RawCitations : Type 0 where
  listed : List InsightCitation → RawCitations
  grouped : List ℕ → List ℕ → RawCitations

pub record CitationRef : Type 0 where
  pub n : ℕ
  pub kind : CitationKind
  pub id : ℕ

pub record Citation : Type 0 where
  pub n : ℕ
  pub kind : CitationKind
  pub id : ℕ

abbrev pub same_kind : CitationKind → CitationKind → Bool
same_kind CitationKind.item CitationKind.item = true
same_kind CitationKind.chunk CitationKind.chunk = true
same_kind _ _ = false

abbrev pub is_some : {A : Type 0} → Option A → Bool
is_some none = false
is_some (some a) = true

abbrev pub seen : CitationKind → ℕ → List CitationRef → Bool
seen kind id [] = false
seen kind id (r ∷ refs) = (same_kind r.kind kind && r.id == id) || seen kind id refs

-- _add: a reference that was seen is not numbered again.
unfoldable pub add_ref : CitationKind → ℕ → List CitationRef → List CitationRef
add_ref kind id refs =
    if seen kind id refs
    then refs
    else refs ++ (record { n = length refs + 1; kind = kind; id = id }) ∷ []

unfoldable pub add_ids : CitationKind → List ℕ → List CitationRef → List CitationRef
unfolding add_ref
add_ids kind [] refs = refs
add_ids kind (id ∷ ids) refs = add_ids kind ids (add_ref kind id refs)

unfoldable pub add_listed : List InsightCitation → List CitationRef → List CitationRef
unfolding add_ref
add_listed [] refs = refs
add_listed (c ∷ citations) refs = add_listed citations (add_ref c.kind c.id refs)

unfoldable pub parse_citation_refs : RawCitations → List CitationRef
unfolding add_ids add_listed
parse_citation_refs (RawCitations.listed citations) = add_listed citations []
parse_citation_refs (RawCitations.grouped items chunks) =
    add_ids CitationKind.chunk chunks (add_ids CitationKind.item items [])

abbrev pub is_within : Classification → Classification → Bool
is_within clearance c = leb (classification_rank c) (classification_rank clearance)

abbrev pub readable_item : Classification → ℕ → IngestedItem → Bool
readable_item clearance id i = i.id == id && is_within clearance i.classification

abbrev pub readable_chunk : Classification → ℕ → DocumentChunk → Bool
readable_chunk clearance id c = c.id == id && is_within clearance c.classification

-- lookup.get: build_citation_lookup selects the items and the chunks that the caller may read.
unfoldable pub resolves : Classification → Db → CitationKind → ℕ → Bool
resolves clearance db CitationKind.item id =
    is_some (find_first (readable_item clearance id) db.items)
resolves clearance db CitationKind.chunk id =
    is_some (find_first (readable_chunk clearance id) db.chunks)

-- The loop of citations_for, with what is resolved so far.
unfoldable pub number_refs : Classification → Db → List CitationRef → List Citation → List Citation
unfolding resolves
number_refs clearance db [] resolved = resolved
number_refs clearance db (r ∷ refs) resolved = number_refs clearance db refs (
    if resolves clearance db r.kind r.id
    then resolved ++ (record { n = length resolved + 1; kind = r.kind; id = r.id }) ∷ []
    else resolved)

unfoldable pub citations_for : Classification → Db → RawCitations → List Citation
unfolding number_refs parse_citation_refs
citations_for clearance db raw = number_refs clearance db (parse_citation_refs raw) []

abbrev pub is_viewer : User → Bool
is_viewer user = same_role user.role Role.viewer

-- What the caller asks for does not widen what a viewer sees.
unfoldable pub visible_statuses : User → Option PublicationStatus → List PublicationStatus
visible_statuses user requested =
    if is_viewer user then PublicationStatus.published ∷ [] else elim requested [
      | some status ↦ status ∷ []
      | none ↦
          PublicationStatus.draft ∷ PublicationStatus.pending_approval ∷ PublicationStatus.published
          ∷ []
    ]

abbrev pub has_status : PublicationStatus → List PublicationStatus → Bool
has_status status [] = false
has_status status (s ∷ statuses) = same_publication s status || has_status status statuses

-- The clauses that hold of every read: the clearance and the status.
unfoldable pub is_visible : User → Option PublicationStatus → Insight → Bool
unfolding visible_statuses
is_visible user requested i =
    is_within (user_clearance user) i.classification
    && has_status i.status (visible_statuses user requested)

abbrev pub same_insight_kind : InsightKind → InsightKind → Bool
same_insight_kind InsightKind.risk InsightKind.risk = true
same_insight_kind InsightKind.opportunity InsightKind.opportunity = true
same_insight_kind InsightKind.policy InsightKind.policy = true
same_insight_kind _ _ = false

-- The query parameters. The text filters read columns that are not modelled: a test stands for them.
pub record InsightFilter : Type 0 where
  pub kind : Option InsightKind
  pub status : Option PublicationStatus
  pub min_severity : Option ℕ
  pub run_id : Option ℕ
  pub matches : Insight → Bool
  pub limit : ℕ
  pub offset : ℕ

abbrev pub of_kind : Option InsightKind → Insight → Bool
of_kind none i = true
of_kind (some kind) i = same_insight_kind i.kind kind

abbrev pub at_least : Option ℕ → Insight → Bool
at_least none i = true
at_least (some n) i = leb n i.severity

abbrev pub same_run : ℕ → Option ℕ → Bool
same_run run_id none = false
same_run run_id (some id) = id == run_id

abbrev pub of_run : Option ℕ → Insight → Bool
of_run none i = true
of_run (some run_id) i = same_run run_id i.run_id

unfoldable pub selected_insights : User → InsightFilter → Db → List Insight
unfolding is_visible
selected_insights user f db =
    filterb
      (λ i.
        is_visible user f.status i
        && (of_kind f.kind i && (at_least f.min_severity i && (of_run f.run_id i && f.matches i))))
      db.insights

pub record Page : Type 0 where
  pub items : List Insight
  pub total : ℕ

-- `newer` is created_at DESC, severity DESC.
unfoldable pub list_insights : User → InsightFilter → (Insight → Insight → Bool) → Db → Page
unfolding selected_insights
list_insights user f newer db = record {
  items = take f.limit (drop f.offset (sort_by newer (selected_insights user f db)));
  total = length (selected_insights user f db);
}

pub record InsightDetail : Type 0 where
  pub insight : Insight
  pub citations : List Citation
  pub approval : Option Approval

abbrev pub raw_citations : Insight → RawCitations
raw_citations i = RawCitations.grouped i.cited_items i.cited_chunks

unfoldable pub find_visible : User → ℕ → Db → Option Insight
unfolding is_visible
find_visible user id db = find_first (λ i. i.id == id && is_visible user none i) db.insights

abbrev pub detail_of : Insight → List Citation → Option Approval → InsightDetail
detail_of i citations approval = record { insight = i; citations = citations; approval = approval }

unfoldable pub get_insight : User → ℕ → Action InsightDetail
unfolding find_visible citations_for approval_for_subject
get_insight user id = do
  found ← query (find_visible user id)
  i ← one_or Error.not_found found
  citations ← query (λ db. citations_for (user_clearance user) db (raw_citations i))
  approval ← query (approval_for_subject ApprovalSubject.insight i.id)
  pure (detail_of i citations approval)
