-- ===== src/Tests/Pipelines.antt =====
-- Runs of the exact and the claim pipeline.
use marx_engels_insight_matc.Base.{
  ℕ, ◌≡◌, ◌⊎◌, refl, codes, false, true, none, List, [], ◌∷◌, arith,
}
use marx_engels_insight_matc.Base.Compare.{compare_nat}
use marx_engels_insight_matc.Contracts.{claim, SearchResponse, Candidate}
use marx_engels_insight_matc.Errors.{Result, ok, raise, other}
use marx_engels_insight_matc.Pipelines.Exact.{Integers, ExactPorts}
use marx_engels_insight_matc.Pipelines.Exact as E
use marx_engels_insight_matc.Pipelines.Claim.Fusion.{fuse_candidates}
use marx_engels_insight_matc.Pipelines.Claim.Fusion.Laws.{IsFused, fuse_candidates-IsFused}
use marx_engels_insight_matc.Pipelines.Claim.Recall.{is_blocking}
use marx_engels_insight_matc.Pipelines.Claim.Recall.Laws.{
  Returns, Stops, must_stop, combine_channels_lem,
}
use marx_engels_insight_matc.Pipelines.Claim.Pipeline.{ClaimPorts, vector_recall}
use marx_engels_insight_matc.Pipelines.Claim.Execute.{execute}
use marx_engels_insight_matc.Pipelines.Claim.Execute.Laws.{IsClaimAnswer}
use marx_engels_insight_matc.Pipelines.Claim.Execute.Total.{IsWorking, execute-IsClaimAnswer}
use marx_engels_insight_matc.Tests.Samples.{
  thousandths, candidate, request, release, repository, records, repository-IsFaithful,
}

abbrev numerals : Integers ℕ
numerals = record { int = λ s. none; thousand_million = 1000000000; compare = compare_nat }

abbrev found : List (Candidate ℕ)
found = candidate (codes "ev-1") none none ∷ candidate (codes "ev-9") none none ∷ []

abbrev exact_ports : ExactPorts ℕ
exact_ports = record {
  resolve = λ s. ok s;
  resolve_exact = λ s. ok release;
  search_exact = λ q s n. ok found;
  get_by_ids = repository;
}

fuse_candidates-IsFused_example :
    (out : List (Candidate ℕ)) × ((fuse_candidates thousandths found found 60 ≡ ok out)
      × IsFused thousandths found found 60 out)
fuse_candidates-IsFused_example = fuse_candidates-IsFused thousandths found found 60 (omega arith)

abbrev failed : Result (List (Candidate ℕ))
failed = raise (other (codes "timeout"))

combine_channels_lem_example :
    ((must_stop (ok found) failed [] ≡ false) × Returns (ok found) failed [])
    ⊎ ((must_stop (ok found) failed [] ≡ true) × Stops [] (ok found) failed)
combine_channels_lem_example = combine_channels_lem (ok found) failed []

-- The embeddings, the reranker and the classifier fail.
abbrev claim_ports : ClaimPorts ℕ ℕ
claim_ports = record {
  resolve = λ s. ok s;
  snapshot_for = λ s. ok release;
  search_lexical = λ q s n. ok found;
  embed = λ qs. raise (other (codes "timeout"));
  search_vector = λ v s n. ok [];
  rerank = λ q cs. raise (other (codes "timeout"));
  generate_structured = λ t q items. raise (other (codes "timeout"));
  get_by_ids = repository;
  overview_for = λ ids. ok (record { evidence_count = 0; work_count = 0; volume_count = 0 });
  rank_constant = 60;
  lexical_top_k = 100;
  vector_top_k = 100;
}

claim_ports-IsWorking : IsWorking thousandths claim_ports
unfolding vector_recall is_blocking
claim_ports-IsWorking = record {
  resolves = λ s. (s, refl);
  releases = λ s. (release, refl);
  recalls = λ q s. refl;
  reranks = λ q cs. refl;
  classifies = λ t q items. refl;
  finds = λ ids. (records, refl);
  faithful = repository-IsFaithful;
  overviews = λ ids. (_, refl);
  positive = omega arith;
}

execute-IsClaimAnswer_example :
    (response : SearchResponse ℕ) × ((execute thousandths claim_ports (request claim) (codes "r")
        ≡ ok response)
      × IsClaimAnswer thousandths claim_ports (request claim) response)
execute-IsClaimAnswer_example =
    execute-IsClaimAnswer thousandths claim_ports claim_ports-IsWorking (request claim) (codes "r")
      refl
