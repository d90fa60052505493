-- ===== src/Pipelines/Claim/Execute.antt =====
-- packages/marx_engels/pipelines/claim.py: `ClaimPipeline.execute`. The release provider is one
-- with `snapshot_for`.
pub mod Laws
pub mod Relabelled
pub mod Total
use marx_engels_insight_matc.Base.{
  ℕ, ◌==◌, Text, codes, is_empty, Bool, true, false, not, Option, none, some, List, [], ◌∷◌, ◌++◌,
  map, if◌then◌else◌,
}
use marx_engels_insight_matc.Base.Dict.{Dict, get, index_by}
use marx_engels_insight_matc.Contracts.{
  claim, SearchScope, SearchRequest, SearchResponse, SearchOverview, Candidate, Evidence,
  ReleaseInfo, Insufficiency, Warning, direct, indirect, counter,
}
use marx_engels_insight_matc.Errors.{domain, Result, ok, raise, ◌>>=◌}
use marx_engels_insight_matc.Retrieval.Floats.{FloatOps}
use marx_engels_insight_matc.Evidence.Service.{EvidenceHydrationResult, hydrate}
use marx_engels_insight_matc.Pipelines.Claim.Rerank.{Restricted}
use marx_engels_insight_matc.Pipelines.Claim.Fusion.{fuse_candidates}
use marx_engels_insight_matc.Pipelines.Claim.Recall.{Recalled}
use marx_engels_insight_matc.Pipelines.Claim.Display.{
  Grouped, select_for_display, groups_from_evidence, apply_page_size,
}
use marx_engels_insight_matc.Pipelines.Claim.Pipeline.{
  ClaimPorts, Classified, exclusion_warning, count_label, is_claim, recall, rerank, classify,
}

abbrev pub insufficient_support : List Evidence → Insufficiency
insufficient_support evidence = record {
  code = codes "INSUFFICIENT_SUPPORT";
  message = codes "当前范围内没有足够的直接支撑材料，无法对该观点给出明确结论。";
  details =
      (codes "direct_count", 0)
      ∷ (codes "indirect_count", count_label indirect evidence)
      ∷ (codes "counter_count", count_label counter evidence)
      ∷ [];
}

unfoldable pub insufficiency_of : List Evidence → Option Insufficiency
unfolding count_label
insufficiency_of evidence =
    if count_label direct evidence == 0 then some (insufficient_support evidence) else none

abbrev pub add_found : Option Evidence → List Evidence → List Evidence
add_found none later = later
add_found (some e) later = e ∷ later

module _ {F : Type 0} where
  -- `[surviving[c.evidence_id] for c in selected if c.evidence_id in surviving]`
  unfoldable pub survivors : Dict Evidence → List (Candidate F) → List Evidence
  survivors surviving [] = []
  survivors surviving (c ∷ cs) = add_found (get c.evidence_id surviving) (survivors surviving cs)

  abbrev pub arrange : Bool → List (Candidate F) → Dict Evidence → Result (Grouped F)
  arrange true selected surviving = groups_from_evidence selected surviving
  arrange false selected surviving =
      ok (record { groups = []; evidence = survivors surviving selected })

module _ {F V : Type 0} (ops : FloatOps F) (ports : ClaimPorts F V) where
  abbrev pub selection : Classified F → Bool → List (Candidate F)
  selection c include_counter =
      if c.classified then select_for_display ops c.candidates include_counter else c.candidates

  -- the steps after classification
  unfoldable pub answer :
      SearchRequest
      → Text
      → SearchScope
      → ReleaseInfo
      → List Text
      → Classified F
      → Result (SearchResponse F)
  unfolding hydrate select_for_display apply_page_size insufficiency_of survivors
  answer request request_id scope release allowed_ids c = do
    let selected = selection c request.options.include_counter_evidence
    hydration ← hydrate ports.get_by_ids selected scope none (some allowed_ids)
    let surviving = index_by (λ (e : Evidence). e.evidence_id) hydration.evidence
    grouped ← arrange c.classified selected surviving
    let page = apply_page_size grouped.groups grouped.evidence request.page_size
    overview ← ports.overview_for (map (λ (e : Evidence). e.evidence_id) page.evidence)
    ok (record {
      request_id = request_id;
      mode = claim;
      query = request.query;
      scope_snapshot = scope;
      release = release;
      overview = overview;
      groups = page.groups;
      evidence = page.evidence;
      next_cursor = none;
      insufficiency = insufficiency_of page.evidence;
      warnings = c.warnings ++ map exclusion_warning hydration.exclusions;
      classification_notice = none;
    })

  unfoldable pub execute : SearchRequest → Text → Result (SearchResponse F)
  unfolding recall rerank classify fuse_candidates answer
  execute request request_id =
      if not (is_claim request.mode)
      then raise
          (domain (codes "INVALID_REQUEST") (codes "ClaimPipeline only accepts mode=claim.") false)
      else do
        scope ← ports.resolve request.scope
        release ← ports.snapshot_for scope
        recalled ← recall ops ports request.query scope []
        fused ← fuse_candidates ops recalled.lexical recalled.vector ports.rank_constant
        ranked ← rerank ops ports request.query fused recalled.warnings
        let allowed_ids = map (λ (c : Candidate F). c.evidence_id) ranked.ordered
        c ← classify ops ports request.query ranked.ordered ranked.warnings
        answer request request_id scope release allowed_ids c
