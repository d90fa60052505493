-- ===== src/Tests/Routing.antt =====
-- A run of the registry.
use marx_engels_insight_matc.Base.{ℕ, ◌≡◌, ◌⊎◌, List, [], ◌∷◌}
use marx_engels_insight_matc.Contracts.{SearchMode, exact, claim, timeline, thematic}
use marx_engels_insight_matc.Errors.{ok}
use marx_engels_insight_matc.Pipelines.Routing.{pipeline_registry}
use marx_engels_insight_matc.Pipelines.Routing.Laws.{IsComplete, IsRefused, pipeline_registry_lem}

abbrev pipelines : List (SearchMode × ℕ)
pipelines = (claim, 2) ∷ (exact, 1) ∷ (timeline, 3) ∷ (thematic, 4) ∷ []

pipeline_registry_lem_example :
    (IsComplete pipelines × (pipeline_registry pipelines ≡ ok pipelines)) ⊎ IsRefused pipelines
pipeline_registry_lem_example = pipeline_registry_lem pipelines
