-- ===== src/Pipelines/Routing.antt =====
-- packages/marx_engels/pipelines/query_router.py, registry.py and stub.py, and the response of
-- contracts/api.py. A confidence is in hundredths.
pub mod Laws
use marx_engels_insight_matc.Base.{
  ℕ, Text, codes, strip, starts_with, length, any, leb, is_empty, Bool, true, false, not, ◌&&◌,
  ◌||◌, Option, none, some, List, [], ◌∷◌, ◌++◌, map, if◌then◌else◌,
}
use marx_engels_insight_matc.Base.Compare.{compare_text}
use marx_engels_insight_matc.Base.Sort.{sort_by}
use marx_engels_insight_matc.Contracts.{
  SearchMode, exact, claim, timeline, thematic, mode_value, SearchRequest, SearchResponse,
}
use marx_engels_insight_matc.Errors.{Result, ok, raise, other, pipeline_not_implemented}

pub record ModeSuggestionResponse : Type 0 where
  pub suggested_mode : Option SearchMode
  pub confidence : ℕ
  pub requires_user_selection : Bool
  pub allowed_modes : List SearchMode
  pub reason_code : Text

unfoldable pub question_markers : List Text
question_markers =
    codes "如何"
    ∷ codes "怎样"
    ∷ codes "为什么"
    ∷ codes "是什么"
    ∷ codes "怎么看"
    ∷ codes "何以"
    ∷ codes "吗"
    ∷ codes "？"
    ∷ codes "?"
    ∷ []

unfoldable pub punctuation_marks : List Text
punctuation_marks = codes "，" ∷ codes "。" ∷ codes "," ∷ codes "." ∷ []

-- `marker in text`
unfoldable pub occurs : Text → Text → Bool
unfolding starts_with
occurs marker [] = is_empty marker
occurs marker (c ∷ s) = starts_with marker (c ∷ s) || occurs marker s

unfoldable pub suggest_mode : Text → ModeSuggestionResponse
unfolding question_markers punctuation_marks occurs
suggest_mode query =
    let stripped = strip query in
    if any (λ marker. occurs marker stripped) question_markers
    then record {
      suggested_mode = none;
      confidence = 90;
      requires_user_selection = true;
      allowed_modes = timeline ∷ thematic ∷ [];
      reason_code = codes "QUESTION_OR_DOMAIN";
    }
    else if leb (length stripped) 12 && not (any (λ mark. occurs mark stripped) punctuation_marks)
    then record {
      suggested_mode = some exact;
      confidence = 75;
      requires_user_selection = false;
      allowed_modes = exact ∷ claim ∷ [];
      reason_code = codes "SHORT_TERM";
    }
    else record {
      suggested_mode = some claim;
      confidence = 65;
      requires_user_selection = false;
      allowed_modes = claim ∷ exact ∷ [];
      reason_code = codes "PROPOSITION_OR_LONG_TEXT";
    }

abbrev pub same_mode : SearchMode → SearchMode → Bool
same_mode exact exact = true
same_mode claim claim = true
same_mode timeline timeline = true
same_mode thematic thematic = true
same_mode a b = false

abbrev pub search_modes : List SearchMode
search_modes = exact ∷ claim ∷ timeline ∷ thematic ∷ []

-- `", ".join(texts)`
pub join : List Text → Text
join [] = []
join (t ∷ []) = t
join (t ∷ u ∷ texts) = t ++ (codes ", " ++ join (u ∷ texts))

module _ {P : Type 0} where
  -- `pipelines[mode]`, where the mode has a pipeline
  unfoldable pub pipeline_of : SearchMode → List (SearchMode × P) → Option P
  pipeline_of mode [] = none
  pipeline_of mode ((m, p) ∷ pipelines) =
      if same_mode mode m then some p else pipeline_of mode pipelines

  abbrev is_missing : Option P → Bool
  is_missing none = true
  is_missing (some p) = false

  unfoldable pub missing_from : List SearchMode → List (SearchMode × P) → List SearchMode
  unfolding pipeline_of
  missing_from [] pipelines = []
  missing_from (mode ∷ modes) pipelines =
      if is_missing (pipeline_of mode pipelines)
      then mode ∷ missing_from modes pipelines
      else missing_from modes pipelines

  -- `PipelineRegistry(pipelines)`
  unfoldable pub pipeline_registry : List (SearchMode × P) → Result (List (SearchMode × P))
  unfolding missing_from join
  pipeline_registry pipelines =
      let missing = missing_from search_modes pipelines in
      if not (is_empty missing)
      then raise (
          other
            (codes "missing pipelines: " ++ join (sort_by compare_text (map mode_value missing))))
      else ok pipelines

-- `UnimplementedPipeline(mode).execute(request, request_id)`
unfoldable pub unimplemented_execute :
    {F : Type 0} → SearchMode → SearchRequest → Text → Result (SearchResponse F)
unimplemented_execute mode request request_id = raise (pipeline_not_implemented (mode_value mode))
