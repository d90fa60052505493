-- ===== src/Pipelines/Thematic/Execute/Complete.antt =====
-- No evidence of the page is lost when it is clustered and grouped.
use marx_engels_insight_matc.Base.{
  false, ◌≡◌, ◌⊎◌, refl, ap, ◌∙◌, Text, min, is_empty, take, ◌&&◌, true, Option, none, some,
  if◌then◌else◌, List, [], ◌∷◌, arith, inl, inr,
}
use marx_engels_insight_matc.Base.Dict.{Dict}
use marx_engels_insight_matc.Base.Unique.{contains, count, count-present, count-absent}
use marx_engels_insight_matc.Contracts.{
  SearchScope, SearchRequest, Candidate, Evidence, ResultGroup, Warning,
}
use marx_engels_insight_matc.Errors.{ok}
use marx_engels_insight_matc.Errors.Laws.{bind-ok, if-ok, of_ok, ok-ne-raise}
use marx_engels_insight_matc.Evidence.Service.{EvidenceHydrationResult, hydrate}
use marx_engels_insight_matc.Evidence.Service.Laws.{candidate_ids}
use marx_engels_insight_matc.Retrieval.Floats.{FloatOps}
use marx_engels_insight_matc.Pipelines.Thematic.Types.{SanitizedGrouping}
use marx_engels_insight_matc.Pipelines.Thematic.Ports.{ThematicPorts}
use marx_engels_insight_matc.Pipelines.Thematic.Recall.{RecallOutcome, recall}
use marx_engels_insight_matc.Pipelines.Thematic.Relevance.{
  Relevance, relevance, apply_relevance_gate,
}
use marx_engels_insight_matc.Pipelines.Thematic.Steps.{group_ids, cluster, build_groups}
use marx_engels_insight_matc.Pipelines.Thematic.Steps.Groups.{
  IsExclusive, cluster-IsExclusive, build_groups_lem,
}
use marx_engels_insight_matc.Pipelines.Thematic.Execute.{
  Draft, recall_unavailable, found_in, by_evidence_id, surviving, gate_warnings, arrange, organize,
  hydrated, draft,
}
use marx_engels_insight_matc.Pipelines.Thematic.Execute.Drafts.{ids_of, found_in-ids}

-- The draft has the identifiers of the evidence and no other.
abbrev Same : {F : Type 0} → List Evidence → Draft F → Type 0
Same evidence d = (i : Text) → contains i (ids_of d.evidence) ≡ contains i (ids_of evidence)

empty_ids : (es : List Evidence) → is_empty es ≡ true → (i : Text) → false ≡ contains i (ids_of es)
unfolding contains
empty_ids [] h i = refl
empty_ids (e ∷ es) h i = absurd (ground (arith, h))

grouped-Same :
    {F : Type 0} (evidence : List Evidence) (groups : List (ResultGroup F))
    → ((i : Text) → count i (group_ids groups) ≡ (if contains i (ids_of evidence) then 1 else 0))
    → (i : Text)
    → contains i (ids_of (found_in (by_evidence_id evidence) (group_ids groups)))
      ≡ contains i (ids_of evidence)
grouped-Same evidence groups counted i =
    let ids = group_ids groups in
    let known : (j : Text) → contains j ids ≡ true → contains j (ids_of evidence) ≡ true =
      λ j h. ground (arith, counted j, count-present j ids) in
    ap (contains i) (found_in-ids evidence ids known)
    ∙ ground (arith, counted i, count-present i ids, count-absent i ids)

module _ {F V : Type 0} (ops : FloatOps F) (ports : ThematicPorts F V) where
  -- `cs` is what the relevance gate leaves of the candidates that the recall found.
  pub record IsGated (request : SearchRequest) (scope : SearchScope) (cs : List (Candidate F))
      : Type 0 where
    pub recalled : RecallOutcome F
    pub recall_run : recall ops ports request.query scope [] ≡ ok recalled
    pub judged : Relevance F
    pub relevance_run :
        relevance ops ports request.query recalled.candidates recalled.warnings ≡ ok judged
    pub gated :
        (apply_relevance_gate ops judged.scored judged.warnings ports.config.min_rerank_score
          judged.judged).0
        ≡ cs

  -- The page of the evidence: of what the evidence gate accepts of the gated candidates and no
  -- label calls irrelevant, the first in the order of the candidates. It is empty where the recall
  -- finds nothing or the relevance gate leaves nothing.
  abbrev pub IsPage : SearchRequest → SearchScope → List Evidence → Type 0
  IsPage request scope page =
      ((recalled : RecallOutcome F) × ((recall ops ports request.query scope [] ≡ ok recalled)
          × ((is_empty recalled.candidates ≡ true) × (page ≡ []))))
      ⊎ ((cs : List (Candidate F)) × (IsGated request scope cs
            × (((is_empty cs ≡ true) × (page ≡ []))
                ⊎ ((h : EvidenceHydrationResult) × ((hydrate ports.get_by_ids cs scope none
                          (some (candidate_ids cs))
                        ≡ ok h)
                      × (page
                          ≡ take (min ports.config.final_top_k request.page_size) (
                              found_in (by_evidence_id (surviving h.evidence))
                                (candidate_ids cs))))))))

  module _ (request : SearchRequest) (scope : SearchScope) where
    arrange-Same :
        (scores : Dict F) (evidence : List Evidence) (warnings : List Warning)
        (grouping : Option SanitizedGrouping) (d : Draft F)
        → IsExclusive (ids_of evidence) grouping
        → arrange ops ports request scores evidence warnings grouping ≡ ok d
        → Same evidence d
    unfolding arrange
    arrange-Same scores evidence warnings none d exclusive run =
        of_ok (Same evidence) d (λ i. refl) run
    arrange-Same scores evidence warnings (some grouping) d exclusive run =
        let (built, (grouped, made)) =
          bind-ok (build_groups ops ports request scores grouping warnings) _ run in
        of_ok (Same evidence) d
          (grouped-Same evidence built.groups (λ i.
            build_groups_lem ops ports request scores grouping warnings built grouped i
            ∙ exclusive i))
          made

    organize-Same :
        (scores : Dict F) (evidence : List Evidence) (warnings : List Warning) (d : Draft F)
        → organize ops ports request scores evidence warnings ≡ ok d
        → Same evidence d
    unfolding organize contains
    organize-Same scores evidence warnings d run = elim (if-ok (is_empty evidence) run) [
      | inl (nothing, made) ↦ of_ok (Same evidence) d (empty_ids evidence nothing) made
      | inr (something, rest) ↦
          let (outcome, (clustered, r)) =
            bind-ok (cluster ops ports (ids_of evidence) evidence warnings) _ rest in
          elim (if-ok outcome.embeddings_unavailable r) [
            | inl (unavailable, made) ↦ of_ok (Same evidence) d (λ i. refl) made
            | inr (available, made) ↦
                arrange-Same scores evidence outcome.warnings outcome.grouping d
                  (cluster-IsExclusive ops ports (ids_of evidence) evidence warnings outcome
                    clustered)
                  made
          ]
    ]

    abbrev Paged : Draft F → Type 0
    Paged d = (page : List Evidence) × (IsPage request scope page × Same page d)

    hydrated-Paged :
        (scores : Dict F) (candidates : List (Candidate F)) (warnings : List Warning) (d : Draft F)
        → IsGated request scope candidates
        → hydrated ops ports request scope scores candidates warnings ≡ ok d
        → Paged d
    unfolding hydrated
    hydrated-Paged scores candidates warnings d pool run = elim (if-ok (is_empty candidates) run) [
      | inl (nothing, made) ↦
          ([], (inr (candidates, (pool, inl (nothing, refl))), of_ok (Same []) d (λ i. refl) made))
      | inr (something, rest) ↦
          let ids = candidate_ids candidates in
          let (h, (gated, r)) =
            bind-ok (hydrate ports.get_by_ids candidates scope none (some ids)) _ rest in
          let page =
            take (min ports.config.final_top_k request.page_size)
              (found_in (by_evidence_id (surviving h.evidence)) ids) in
          (
            page,
            (
              inr (candidates, (pool, inr (h, (gated, refl)))),
              organize-Same scores page (gate_warnings h warnings) d r,
            ),
          )
    ]

    pub draft-IsPage : (d : Draft F) → draft ops ports request scope ≡ ok d → Paged d
    unfolding draft
    draft-IsPage d run =
        let (recalled, (recall_run, r1)) =
          bind-ok (recall ops ports request.query scope []) _ run in
        elim (if-ok (recalled.lexical_failed && recalled.vector_failed) r1) [
          | inl (failed, raised) ↦ absurd (ok-ne-raise d recall_unavailable raised refl)
          | inr (alive, r2) ↦ elim (if-ok (is_empty recalled.candidates) r2) [
            | inl (nothing, made) ↦ (
              [],
              (inl (recalled, (recall_run, (nothing, refl))), of_ok (Same []) d (λ i. refl) made),
            )
            | inr (something, r3) ↦
                let (r, (judged, r4)) =
                  bind-ok (relevance ops ports request.query recalled.candidates recalled.warnings)
                    _ r3 in
                let gated =
                  apply_relevance_gate ops r.scored r.warnings ports.config.min_rerank_score
                    r.judged in
                hydrated-Paged recalled.scores gated.0 gated.1 d
                  (record {
                    recalled = recalled;
                    recall_run = recall_run;
                    judged = r;
                    relevance_run = judged;
                    gated = refl;
                  })
                  r4
          ]
        ]
