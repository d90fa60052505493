-- ===== src/Pipelines/Exact/Laws.antt =====
-- What the exact pipeline answers.
use Prim.Native.Nat.{Ordering}
use mathlib.Core.List.{Sublistᴰ}
use marx_engels_insight_matc.Base.{
  ℕ, ◌≡◌, ◌↔◌, refl, Text, strip, length, is_some, All, In, ◌≤◌, true, false, Option, none, some,
  List, [], ◌∷◌, map,
}
use marx_engels_insight_matc.Base.Compare.{compare_nat, compare_text, lexicographic}
use marx_engels_insight_matc.Base.Sort.{Ascending}
use marx_engels_insight_matc.Base.Unique.{count}
use marx_engels_insight_matc.Contracts.{
  SearchScope, SearchRequest, SearchResponse, Candidate, Evidence, SortOrder,
}
use marx_engels_insight_matc.Errors.{ok}
use marx_engels_insight_matc.Retrieval.Records.{AuthoritativeEvidenceRecord, Records}
use marx_engels_insight_matc.Evidence.Service.{EvidenceHydrationResult, hydrate, unique_candidates}
use marx_engels_insight_matc.Evidence.Service.Laws.{evidence_ids, candidate_ids, Sound}
use marx_engels_insight_matc.Pipelines.Exact.{
  Integers, ExactPorts, is_document_order, Hits, document_order_key, in_document_order,
}
use marx_engels_insight_matc.Pipelines.Exact.Pairs.{Pair}

abbrev ids : List Evidence → List Text
ids = map (λ (e : Evidence). e.evidence_id)

abbrev ids_of_records : List AuthoritativeEvidenceRecord → List Text
ids_of_records = map (λ (r : AuthoritativeEvidenceRecord). r.evidence_id)

module _ {N : Type 0} (z : Integers N) where
  -- Volume, printed page, its label, identifier; a page with no label has the empty one, and one
  -- whose label is no integer has the number 10 ** 9.
  abbrev pub printed_key : AuthoritativeEvidenceRecord → ℕ × (N × (Text × Text))
  printed_key r =
      let label = (elim r.printed_pages as (λ ls. Text) [ [] ↦ [] | first ∷ rest ↦ first ]) in
      let page = (elim (z.int label) as (λ o. N) [ none ↦ z.thousand_million | some n ↦ n ]) in
      (r.volume_no, (page, (label, r.evidence_id)))

  -- The order of the printed volumes.
  abbrev pub printed_order : AuthoritativeEvidenceRecord → AuthoritativeEvidenceRecord → Ordering
  printed_order r s =
      lexicographic compare_nat (lexicographic z.compare (lexicographic compare_text compare_text))
        (printed_key r) (printed_key s)

  same_order : (r s : AuthoritativeEvidenceRecord) → in_document_order z r s ≡ printed_order r s
  unfolding document_order_key
  same_order r s = refl

  -- The evidence and the records of an answer, in the order that was asked for.
  pub record Arranged (sort : Option SortOrder) (h : EvidenceHydrationResult) (hits : Hits)
      : Type 0 where
    pub once : (i : Text) → count i (ids hits.0) ≡ count i (evidence_ids h)
    pub kept : All (λ e. In e h.evidence) hits.0
    pub aligned : ids_of_records hits.1 ≡ ids hits.0
    pub kept_records : All (λ r. In r h.accepted_records) hits.1
    pub ascending : is_document_order sort ≡ true → Ascending printed_order hits.1
    pub untouched : is_document_order sort ≡ false → hits.0 ≡ h.evidence

  abbrev pair_order : Pair → Pair → Ordering
  pair_order p q = in_document_order z p.1 q.1

module _ {N F : Type 0} (z : Integers N) (ports : ExactPorts F) where
  -- What an answer to an exact request is.
  pub record IsAnswer (request : SearchRequest) (scope : SearchScope) (records : Records)
      (candidates : List (Candidate F)) (response : SearchResponse F) : Type 0 where
    pub sound :
        All (Sound records scope none (some (strip request.query)) candidates) response.evidence
    pub hydration : EvidenceHydrationResult
    pub hydrated :
        hydrate ports.get_by_ids candidates scope (some (strip request.query)) none ≡ ok hydration
    pub complete : (i : Text) → count i (ids response.evidence) ≡ count i (evidence_ids hydration)
    pub once : (i : Text) → count i (ids response.evidence) ≤ 1
    pub in_document :
        is_document_order request.sort ≡ true
        → (rs : List AuthoritativeEvidenceRecord) × ((ids_of_records rs ≡ ids response.evidence)
            × (All (λ r. records r.evidence_id ≡ some r) rs × Ascending (printed_order z) rs))
    pub in_relevance :
        is_document_order request.sort ≡ false
        → Sublistᴰ (ids response.evidence) (candidate_ids (unique_candidates candidates))
    pub size : response.overview.evidence_count ≡ length response.evidence
    pub insufficient : (is_some response.insufficiency ≡ true) ↔ (response.evidence ≡ [])
    pub ungrouped : (response.groups ≡ []) × (response.warnings ≡ [])
