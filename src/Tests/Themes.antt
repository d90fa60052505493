-- ===== src/Tests/Themes.antt =====
-- Runs of the thematic pipeline.
use marx_engels_insight_matc.Base.{
  text_eq, ℕ, ◌≡◌, refl, Text, codes, none, List, [], ◌∷◌, map, arith,
}
use marx_engels_insight_matc.Base.Compare.{compare_text}
use marx_engels_insight_matc.Base.Dict.{Dict, get}
use marx_engels_insight_matc.Base.Sort.{sort_by}
use marx_engels_insight_matc.Contracts.{
  thematic, SearchResponse, SearchOverview, Candidate, Evidence,
}
use marx_engels_insight_matc.Errors.{Result, ok, raise, other}
use marx_engels_insight_matc.Pipelines.Thematic.Types.{ThematicPipelineConfig, SanitizedGrouping}
use marx_engels_insight_matc.Pipelines.Thematic.Presentation.{sort_key}
use marx_engels_insight_matc.Pipelines.Thematic.Ports.{ThematicPorts, is_hard, count_overview}
use marx_engels_insight_matc.Pipelines.Thematic.Steps.{Built, group_ids, build_groups}
use marx_engels_insight_matc.Pipelines.Thematic.Execute.{execute}
use marx_engels_insight_matc.Pipelines.Thematic.Execute.Laws.{IsThematicAnswer}
use marx_engels_insight_matc.Pipelines.Thematic.Execute.Total.{IsWorking, execute-IsThematicAnswer}
use marx_engels_insight_matc.Tests.Samples.{
  thousandths, candidate, request, release, repository, records, repository-IsFaithful,
}

abbrev recalled : List (Candidate ℕ)
recalled = candidate (codes "ev-1") none none ∷ candidate (codes "ev-9") none none ∷ []

abbrev config : ThematicPipelineConfig ℕ
config = record {
  lexical_top_k = 100;
  vector_top_k = 100;
  fusion_top_k = 80;
  final_top_k = 20;
  rrf_k = 60;
  min_cluster_input = 1;
  min_rerank_score = 100;
}

-- The vector channel, the relevance stage and the clusterer fail.
abbrev thematic_ports : ThematicPorts ℕ ℕ
thematic_ports = record {
  resolve = λ s. ok s;
  snapshot_for = λ s. ok release;
  search_lexical = λ q s n. ok recalled;
  embed = λ texts. ok (map (λ t. 1) texts);
  search_vector = λ v s n. raise (other (codes "timeout"));
  get_by_ids = repository;
  score = λ q cs. raise (other (codes "timeout"));
  cluster = λ ids vectors. raise (other (codes "timeout"));
  labeler = none;
  build = count_overview repository;
  config = config;
}

thematic_ports-IsWorking : IsWorking thousandths thematic_ports
unfolding is_hard count_overview
thematic_ports-IsWorking = record {
  resolves = λ s. (s, refl);
  releases = λ s. (release, refl);
  lexical = λ q s. refl;
  vector = λ q s. refl;
  either = λ q s. refl;
  scores = λ q cs. refl;
  embeds = λ texts. refl;
  clusters = λ ids vectors. refl;
  labels = tt;
  finds = λ ids. (records, refl);
  faithful = repository-IsFaithful;
  builds = λ es. counted es;
  positive = omega arith;
}
  where
    counted : (es : List Evidence) → (o : SearchOverview) × (count_overview repository es ≡ ok o)
    counted [] = (_, refl)
    counted (e ∷ es) = (_, refl)

execute-IsThematicAnswer_example :
    (response : SearchResponse ℕ) × ((execute thousandths thematic_ports
          (request thematic)
          (codes "r")
        ≡ ok response)
      × IsThematicAnswer thousandths thematic_ports (request thematic) response)
execute-IsThematicAnswer_example =
    execute-IsThematicAnswer thousandths thematic_ports thematic_ports-IsWorking (request thematic)
      (codes "r") refl

abbrev shown : Result (Built ℕ) → List Text
shown (ok built) = group_ids built.groups
shown (raise e) = codes "raised" ∷ []

abbrev grouping : SanitizedGrouping
grouping = record {
  themes =
      record { cluster_id = codes "weak"; evidence_ids = codes "c" ∷ [] }
      ∷ record { cluster_id = codes "strong"; evidence_ids = codes "a" ∷ codes "b" ∷ [] }
      ∷ [];
  other_related_ids = codes "d" ∷ [];
}

abbrev scores : Dict ℕ
scores = (codes "b", 30) ∷ (codes "a", 20) ∷ (codes "c", 10) ∷ (codes "d", 40) ∷ []

-- The stronger theme is first, with its stronger member first, and the rest is last.
test_shown :
    shown (build_groups thousandths thematic_ports (request thematic) scores grouping [])
    ≡ codes "b" ∷ codes "a" ∷ codes "c" ∷ codes "d" ∷ []
unfolding build_groups sort_by get compare_text sort_key text_eq
test_shown = refl
