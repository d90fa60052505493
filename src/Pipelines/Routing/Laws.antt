-- ===== src/Pipelines/Routing/Laws.antt =====
-- A registry serves every mode.
use marx_engels_insight_matc.Base.{
  ◌≡◌, ◌⊎◌, refl, codes, ◌++◌, map, is_empty, false, is_some, true, none, some, List, arith, inl,
  inr, Option-cases,
}
use marx_engels_insight_matc.Base.Compare.{compare_text}
use marx_engels_insight_matc.Base.Sort.{sort_by}
use marx_engels_insight_matc.Contracts.{mode_value, SearchMode, exact, claim, timeline, thematic}
use marx_engels_insight_matc.Errors.{Exception, ok, raise, other}
use marx_engels_insight_matc.Pipelines.Routing.{
  search_modes, join, pipeline_of, missing_from, pipeline_registry,
}

module _ {P : Type 0} where
  -- Every mode has a pipeline.
  abbrev pub IsComplete : List (SearchMode × P) → Type 0
  IsComplete pipelines = (mode : SearchMode) → is_some (pipeline_of mode pipelines) ≡ true

  -- Some mode has no pipeline, and the registry raises.
  abbrev pub IsRefused : List (SearchMode × P) → Type 0
  IsRefused pipelines =
      (mode : SearchMode) × ((pipeline_of mode pipelines ≡ none)
        × ((e : Exception) × (pipeline_registry pipelines ≡ raise e)))

  refuses :
      (pipelines : List (SearchMode × P)) (mode : SearchMode)
      → pipeline_of mode pipelines ≡ none
      → IsRefused pipelines
  unfolding pipeline_registry missing_from
  refuses pipelines mode h = (mode, (h, (error, run mode h)))
    where
      error : Exception
      error = other (
          codes "missing pipelines: "
          ++ join (sort_by compare_text (map mode_value (missing_from search_modes pipelines))))

      raises :
          is_empty (missing_from search_modes pipelines) ≡ false
          → pipeline_registry pipelines ≡ raise error
      raises h = rw h refl

      run :
          (mode : SearchMode)
          → pipeline_of mode pipelines ≡ none
          → pipeline_registry pipelines ≡ raise error
      run exact h = raises (ground (arith, h))
      run claim h = raises (ground (arith, h))
      run timeline h = raises (ground (arith, h))
      run thematic h = raises (ground (arith, h))

  serves :
      (pipelines : List (SearchMode × P))
      → IsComplete pipelines
      → pipeline_registry pipelines ≡ ok pipelines
  unfolding pipeline_registry missing_from
  serves pipelines all = ground (arith, all exact, all claim, all timeline, all thematic)

  -- Either every mode has a pipeline, and the registry is built with the pipelines that were
  -- given, or some mode has none, and the construction raises.
  pub pipeline_registry_lem :
      (pipelines : List (SearchMode × P))
      → (IsComplete pipelines × (pipeline_registry pipelines ≡ ok pipelines)) ⊎ IsRefused pipelines
  pipeline_registry_lem pipelines = elim (Option-cases (pipeline_of exact pipelines)) [
    | inl a ↦ inr (refuses pipelines exact a)
    | inr (p, a) ↦ elim (Option-cases (pipeline_of claim pipelines)) [
      | inl b ↦ inr (refuses pipelines claim b)
      | inr (q, b) ↦ elim (Option-cases (pipeline_of timeline pipelines)) [
        | inl c ↦ inr (refuses pipelines timeline c)
        | inr (r, c) ↦ elim (Option-cases (pipeline_of thematic pipelines)) [
          | inl d ↦ inr (refuses pipelines thematic d)
          | inr (t, d) ↦ let all = complete p q r t a b c d in inl (all, serves pipelines all)
        ]
      ]
    ]
  ]
    where
      complete :
          (p q r t : P)
          → pipeline_of exact pipelines ≡ some p
          → pipeline_of claim pipelines ≡ some q
          → pipeline_of timeline pipelines ≡ some r
          → pipeline_of thematic pipelines ≡ some t
          → IsComplete pipelines
      complete p q r t a b c d exact = rw a refl
      complete p q r t a b c d claim = rw b refl
      complete p q r t a b c d timeline = rw c refl
      complete p q r t a b c d thematic = rw d refl
