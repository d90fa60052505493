-- ===== src/Pipelines/Exact.antt =====
-- packages/marx_engels/pipelines/exact.py. The ports are a record of functions; the integers
-- that `int(label)` yields are abstract, with their order.
pub mod Pairs
pub mod Laws
use Prim.Native.Nat.{Ordering}
use marx_engels_insight_matc.Base.{
  ℕ, Text, codes, strip, length, is_empty, Bool, true, false, not, Option, none, some, List, [],
  ◌∷◌, map, ◌++◌, if◌then◌else◌,
}
use marx_engels_insight_matc.Base.Compare.{compare_nat, compare_text, lexicographic}
use marx_engels_insight_matc.Base.Sort.{sort_by}
use marx_engels_insight_matc.Base.Unique.{unique_texts}
use marx_engels_insight_matc.Contracts.{
  SearchMode, exact, claim, timeline, thematic, SearchScope, SearchRequest, SearchResponse,
  SearchOverview, Candidate, Evidence, ReleaseInfo, Insufficiency, SortOrder, document_order,
  relevance,
}
use marx_engels_insight_matc.Errors.{Result, ok, raise, domain, other, ◌>>=◌}
use marx_engels_insight_matc.Retrieval.Records.{AuthoritativeEvidenceRecord, EvidenceRepository}
use marx_engels_insight_matc.Evidence.Service.{EvidenceHydrationResult, hydrate}

-- What `int(label)` yields, `none` for a `ValueError`, and `10**9`.
pub record Integers (N : Type 0) : Type 0 where
  pub int : Text → Option N
  pub thousand_million : N
  pub compare : N → N → Ordering

pub record ExactPorts (F : Type 0) : Type 0 where
  pub resolve : SearchScope → Result SearchScope
  pub resolve_exact : SearchScope → Result ReleaseInfo
  pub search_exact : Text → SearchScope → ℕ → Result (List (Candidate F))
  pub get_by_ids : EvidenceRepository

abbrev pub is_exact : SearchMode → Bool
is_exact exact = true
is_exact claim = false
is_exact timeline = false
is_exact thematic = false

abbrev pub is_document_order : Option SortOrder → Bool
is_document_order none = false
is_document_order (some relevance) = false
is_document_order (some document_order) = true

unfoldable pub no_exact_match : Insufficiency
no_exact_match = record {
  code = codes "NO_EXACT_MATCH";
  message = codes "在当前范围内未发现该词语的逐字命中。";
  details = [];
}

-- `zip(xs, ys, strict=True)`
unfoldable pub zip_strict {ℓ κ} :
    {A : Type ℓ} {B : Type κ} → List A → List B → Result (List (A × B))
zip_strict [] [] = ok []
zip_strict [] (y ∷ ys) = raise (other (codes "ValueError"))
zip_strict (x ∷ xs) [] = raise (other (codes "ValueError"))
zip_strict (x ∷ xs) (y ∷ ys) = do rest ← zip_strict xs ys; ok ((x, y) ∷ rest)

abbrev pub Hits : Type 0
Hits = List Evidence × List AuthoritativeEvidenceRecord

abbrev first_label : List Text → Text
first_label [] = []
first_label (label ∷ labels) = label

module _ {N : Type 0} (z : Integers N) where
  abbrev page_number : Option N → N
  page_number none = z.thousand_million
  page_number (some n) = n

  abbrev pub DocumentKey : Type 0
  DocumentKey = ℕ × (N × (Text × Text))

  unfoldable pub document_order_key : AuthoritativeEvidenceRecord → DocumentKey
  document_order_key r =
      let label = first_label r.printed_pages in
      (r.volume_no, (page_number (z.int label), (label, r.evidence_id)))

  abbrev pub compare_document_keys : DocumentKey → DocumentKey → Ordering
  compare_document_keys =
      lexicographic compare_nat (lexicographic z.compare (lexicographic compare_text compare_text))

  abbrev pub in_document_order :
      AuthoritativeEvidenceRecord → AuthoritativeEvidenceRecord → Ordering
  in_document_order r s = compare_document_keys (document_order_key r) (document_order_key s)

  unfoldable pub sort_document_order :
      List Evidence → List AuthoritativeEvidenceRecord → Result Hits
  unfolding document_order_key
  sort_document_order evidence records = do
    pairs ← zip_strict evidence records
    let paired = sort_by (λ p q. in_document_order p.1 q.1) pairs
    ok (map (λ p. p.0) paired, map (λ p. p.1) paired)

  abbrev pub ordered_hits : Option SortOrder → EvidenceHydrationResult → Result Hits
  ordered_hits sort h =
      if is_document_order sort
      then sort_document_order h.evidence h.accepted_records
      else ok (h.evidence, h.accepted_records)

  module _ {F : Type 0} (ports : ExactPorts F) where
    unfoldable pub exact_response :
        SearchRequest → Text → SearchScope → ReleaseInfo → Hits → SearchResponse F
    unfolding no_exact_match
    exact_response request request_id scope release (evidence, records) = record {
      request_id = request_id;
      mode = exact;
      query = request.query;
      scope_snapshot = scope;
      release = release;
      overview = record {
        evidence_count = length evidence;
        work_count =
            length (unique_texts (map (λ (r : AuthoritativeEvidenceRecord). r.work_id) records));
        volume_count =
            length (unique_texts (map (λ (r : AuthoritativeEvidenceRecord). r.volume_id) records));
      };
      groups = [];
      evidence = evidence;
      next_cursor = none;
      insufficiency = if is_empty evidence then some no_exact_match else none;
      warnings = [];
      classification_notice = none;
    }

    unfoldable pub execute : SearchRequest → Text → Result (SearchResponse F)
    unfolding hydrate sort_document_order exact_response
    execute request request_id =
        if not (is_exact request.mode)
        then raise (
            domain (codes "INVALID_REQUEST") (codes "ExactPipeline only accepts exact mode.") false)
        else do
          scope ← ports.resolve request.scope
          release ← ports.resolve_exact scope
          let match_query = strip request.query
          candidates ← ports.search_exact match_query scope request.page_size
          hydration ← hydrate ports.get_by_ids candidates scope (some match_query) none
          hits ← ordered_hits request.sort hydration
          ok (exact_response request request_id scope release hits)
