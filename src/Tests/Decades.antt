-- ===== src/Tests/Decades.antt =====
-- A run of the timeline pipeline.
use marx_engels_insight_matc.Base.{ℕ, ◌≡◌, refl, codes, is_some, true, none, some, [], ◌∷◌, arith}
use marx_engels_insight_matc.Contracts.{timeline}
use marx_engels_insight_matc.Errors.{ok, raise, other}
use marx_engels_insight_matc.Errors.Laws.{Meets}
use marx_engels_insight_matc.Pipelines.Timeline.Recall.{is_authoritative}
use marx_engels_insight_matc.Pipelines.Timeline.Years.Laws.{bucket_key-Returns}
use marx_engels_insight_matc.Pipelines.Timeline.Ports.{TimelinePorts}
use marx_engels_insight_matc.Pipelines.Timeline.Execute.{execute}
use marx_engels_insight_matc.Pipelines.Timeline.Execute.Working.{IsWorking}
use marx_engels_insight_matc.Pipelines.Timeline.Execute.Total.{
  IsTimelineAnswer, execute-IsTimelineAnswer,
}
use marx_engels_insight_matc.Tests.Samples.{
  thousandths, candidate, request, release, repository, records, repository-IsFaithful,
}
use marx_engels_insight_matc.Tests.Timeline.{ascii}

digit-decimal : (c : ℕ) → ascii.is_digit c ≡ true → is_some (ascii.decimal c) ≡ true
digit-decimal c h = ground (arith, h)

-- The vector channel fails, there is no reranker, and no summary is available.
abbrev timeline_ports : TimelinePorts ℕ ℕ
timeline_ports = record {
  resolve = λ s. ok s;
  release_for = λ s. ok release;
  search_lexical =
      λ q s n. ok (candidate (codes "ev-1") none none ∷ candidate (codes "ev-9") none none ∷ []);
  embed = λ texts. raise (other (codes "timeout"));
  search_vector = λ v s n. ok [];
  reranker = none;
  get_by_ids = repository;
  summary_provider = some (λ q g members. raise (other (codes "timeout")));
  overview = λ es. ok (record { evidence_count = 0; work_count = 0; volume_count = 0 });
  lexical_top_k = 100;
  vector_top_k = 100;
  fusion_top_k = 80;
  rerank_top_k = 50;
  final_top_k = 20;
  rrf_k = 60;
}

timeline_ports-IsWorking : IsWorking thousandths timeline_ports ascii
unfolding is_authoritative
timeline_ports-IsWorking = record {
  resolves = λ s. (s, refl);
  releases = λ s. (release, refl);
  lexical = λ q s. refl;
  semantic = λ q s. refl;
  either = λ q s. refl;
  reranks = tt;
  summarizes = λ q g members. refl;
  finds = λ ids. (records, refl);
  faithful = repository-IsFaithful;
  dated = λ scope allowed cs e quoted. bucket_key-Returns ascii digit-decimal e;
  overviews = λ es. (_, refl);
  positive = omega arith;
}

execute-IsTimelineAnswer_example :
    Meets
      (IsTimelineAnswer thousandths timeline_ports ascii (request timeline))
      (execute thousandths timeline_ports ascii (request timeline) (codes "r"))
execute-IsTimelineAnswer_example =
    execute-IsTimelineAnswer thousandths timeline_ports ascii timeline_ports-IsWorking
      (request timeline) (codes "r") refl
