-- ===== src/Pipelines/Thematic/Execute/Laws.antt =====
-- What a thematic answer holds: authoritative quotations, on one page, in the order of their
-- groups.
use marx_engels_insight_matc.Base.{
  false, ℕ, ◌≤◌, ◌≡◌, refl, ap, ◌∙◌, Text, min, is_empty, take, length, length-take, All, All-take,
  All-weaken, not, ◌&&◌, true, Option, none, some, List, [], arith, inl, inr,
}
use mathlib.Core.Path.{subst}
use marx_engels_insight_matc.Base.Dict.{Dict}
use marx_engels_insight_matc.Base.Keep.{All-keep}
use marx_engels_insight_matc.Contracts.{
  SearchScope, SearchRequest, SearchResponse, Candidate, Evidence, ReleaseInfo, Warning,
}
use marx_engels_insight_matc.Errors.{ok}
use marx_engels_insight_matc.Errors.Laws.{bind-ok, if-ok, of_ok, ok_injective, ok-ne-raise}
use marx_engels_insight_matc.Evidence.Service.{EvidenceHydrationResult, hydrate, unique_candidates}
use marx_engels_insight_matc.Evidence.Service.Laws.{
  IsFaithful, candidate_ids, Sound, hydrate-Sound, hydrate_found,
}
use marx_engels_insight_matc.Retrieval.Floats.{FloatOps}
use marx_engels_insight_matc.Retrieval.Records.{Records}
use marx_engels_insight_matc.Pipelines.Thematic.Types.{SanitizedGrouping}
use marx_engels_insight_matc.Pipelines.Thematic.Judgments.{is_irrelevant}
use marx_engels_insight_matc.Pipelines.Thematic.Ports.{ThematicPorts}
use marx_engels_insight_matc.Pipelines.Thematic.Recall.{recall}
use marx_engels_insight_matc.Pipelines.Thematic.Relevance.{relevance, apply_relevance_gate}
use marx_engels_insight_matc.Pipelines.Thematic.Steps.{cluster, build_groups}
use marx_engels_insight_matc.Pipelines.Thematic.Steps.Groups.{
  IsExclusive, cluster-IsExclusive, build_groups_lem,
}
use marx_engels_insight_matc.Pipelines.Thematic.Execute.{
  Draft, is_thematic, recall_unavailable, found_in, by_evidence_id, surviving, gate_warnings,
  arrange, organize, hydrated, draft, respond, execute,
}
use marx_engels_insight_matc.Base.Unique.{contains}
use marx_engels_insight_matc.Pipelines.Thematic.Execute.Complete.{IsGated, IsPage, draft-IsPage}
use marx_engels_insight_matc.Pipelines.Thematic.Execute.Drafts.{
  ids_of, found_in-All, IsDraft, no_evidence-IsDraft, not_clustered-IsDraft, grouped-IsDraft,
}

module _ {F V : Type 0} (ops : FloatOps F) (ports : ThematicPorts F V) where
  -- `e` quotes the record that the repository returns for a candidate that passes the relevance
  -- gate and the evidence gate.
  abbrev pub Quoted : SearchRequest → SearchScope → Evidence → Type 0
  Quoted request scope e =
      (cs : List (Candidate F)) × IsGated ops ports request scope cs
      × ((records : Records) × (ports.get_by_ids (candidate_ids (unique_candidates cs))
            ≡ ok records)
          × Sound records scope (some (candidate_ids cs)) none cs e)

  hydrate-Quoted :
      (request : SearchRequest) (scope : SearchScope) (candidates : List (Candidate F))
      (h : EvidenceHydrationResult)
      → IsGated ops ports request scope candidates
      → IsFaithful ports.get_by_ids
      → hydrate ports.get_by_ids candidates scope none (some (candidate_ids candidates)) ≡ ok h
      → All (Quoted request scope) h.evidence
  hydrate-Quoted request scope candidates h pool faithful gated =
      let allowed = some (candidate_ids candidates) in
      let asked = candidate_ids (unique_candidates candidates) in
      let (records, found) = hydrate_found ports.get_by_ids candidates scope none allowed h gated in
      All-weaken (Sound records scope allowed none candidates) (Quoted request scope) h.evidence
        (λ e s. (candidates, pool, (records, found, s)))
        (hydrate-Sound ports.get_by_ids candidates scope none allowed records found
          (faithful asked records found) h gated)

  module _ (request : SearchRequest) (scope : SearchScope) (limit : ℕ) where
    abbrev IsOrganized : Draft F → Type 0
    IsOrganized = IsDraft (Quoted request scope) limit

    arrange-IsDraft :
        (scores : Dict F) (evidence : List Evidence) (warnings : List Warning)
        (grouping : Option SanitizedGrouping) (d : Draft F)
        → All (Quoted request scope) evidence
        → length evidence ≤ limit
        → is_empty evidence ≡ false
        → IsExclusive (ids_of evidence) grouping
        → arrange ops ports request scores evidence warnings grouping ≡ ok d
        → IsOrganized d
    unfolding arrange
    arrange-IsDraft scores evidence warnings none d sound paged something exclusive run =
        of_ok IsOrganized d
          (not_clustered-IsDraft (Quoted request scope) limit evidence warnings sound paged
            something)
          run
    arrange-IsDraft scores evidence warnings (some grouping) d sound paged something exclusive run =
        let (built, (grouped, made)) =
          bind-ok (build_groups ops ports request scores grouping warnings) _ run in
        of_ok IsOrganized d
          (grouped-IsDraft (Quoted request scope) limit evidence built.groups built.warnings sound
            paged something
            (λ i.
              build_groups_lem ops ports request scores grouping warnings built grouped i
              ∙ exclusive i))
          made

    organize-IsDraft :
        (scores : Dict F) (evidence : List Evidence) (warnings : List Warning) (d : Draft F)
        → All (Quoted request scope) evidence
        → length evidence ≤ limit
        → organize ops ports request scores evidence warnings ≡ ok d
        → IsOrganized d
    unfolding organize
    organize-IsDraft scores evidence warnings d sound paged run =
        elim (if-ok (is_empty evidence) run) [
          | inl (nothing, made) ↦
              of_ok IsOrganized d (no_evidence-IsDraft (Quoted request scope) limit warnings) made
          | inr (something, rest) ↦
              let (outcome, (clustered, r)) =
                bind-ok (cluster ops ports (ids_of evidence) evidence warnings) _ rest in
              elim (if-ok outcome.embeddings_unavailable r) [
                | inl (unavailable, made) ↦
                    of_ok IsOrganized d
                      (not_clustered-IsDraft (Quoted request scope) limit evidence outcome.warnings
                        sound paged something)
                      made
                | inr (available, made) ↦
                    arrange-IsDraft scores evidence outcome.warnings outcome.grouping d sound paged
                      something
                      (cluster-IsExclusive ops ports (ids_of evidence) evidence warnings outcome
                        clustered)
                      made
              ]
        ]

    hydrated-IsDraft :
        (scores : Dict F) (candidates : List (Candidate F)) (warnings : List Warning) (d : Draft F)
        → IsGated ops ports request scope candidates
        → IsFaithful ports.get_by_ids
        → limit ≡ min ports.config.final_top_k request.page_size
        → hydrated ops ports request scope scores candidates warnings ≡ ok d
        → IsOrganized d
    unfolding hydrated surviving
    hydrated-IsDraft scores candidates warnings d pool faithful is_limit run =
        elim (if-ok (is_empty candidates) run) [
          | inl (nothing, made) ↦
              of_ok IsOrganized d (no_evidence-IsDraft (Quoted request scope) limit warnings) made
          | inr (something, rest) ↦
              let ids = candidate_ids candidates in
              let (h, (gated, r)) =
                bind-ok (hydrate ports.get_by_ids candidates scope none (some ids)) _ rest in
              let kept = surviving h.evidence in
              let ordered = found_in (by_evidence_id kept) ids in
              let size = min ports.config.final_top_k request.page_size in
              organize-IsDraft scores (take size ordered) (gate_warnings h warnings) d
                (All-take (Quoted request scope) size ordered (
                  found_in-All (Quoted request scope) kept ids (
                    All-keep (λ (e : Evidence). not (is_irrelevant e.support_label))
                      (Quoted request scope) h.evidence
                      (hydrate-Quoted request scope candidates h pool faithful gated))))
                (omega (arith, is_limit, length-take size ordered)) r
        ]

  draft-IsDraft :
      (request : SearchRequest) (scope : SearchScope) (d : Draft F)
      → IsFaithful ports.get_by_ids
      → draft ops ports request scope ≡ ok d
      → IsDraft (Quoted request scope) (min ports.config.final_top_k request.page_size) d
  unfolding draft
  draft-IsDraft request scope d faithful run =
      let limit = min ports.config.final_top_k request.page_size in
      let (recalled, (recall_run, r1)) = bind-ok (recall ops ports request.query scope []) _ run in
      elim (if-ok (recalled.lexical_failed && recalled.vector_failed) r1) [
        | inl (failed, raised) ↦ absurd (ok-ne-raise d recall_unavailable raised refl)
        | inr (alive, r2) ↦ elim (if-ok (is_empty recalled.candidates) r2) [
          | inl (nothing, made) ↦
              of_ok (IsDraft (Quoted request scope) limit) d
                (no_evidence-IsDraft (Quoted request scope) limit recalled.warnings) made
          | inr (something, r3) ↦
              let (r, (judged, r4)) =
                bind-ok (relevance ops ports request.query recalled.candidates recalled.warnings) _
                  r3 in
              let gated =
                apply_relevance_gate ops r.scored r.warnings ports.config.min_rerank_score
                  r.judged in
              let pool : IsGated ops ports request scope gated.0 = record {
                recalled = recalled;
                recall_run = recall_run;
                judged = r;
                relevance_run = judged;
                gated = refl;
              } in
              hydrated-IsDraft request scope limit recalled.scores gated.0 gated.1 d pool faithful
                refl r4
        ]
      ]

  -- The evidence, the groups, the warnings and the insufficiency of a response.
  abbrev pub draft_of : SearchResponse F → Draft F
  draft_of response = record {
    evidence = response.evidence;
    groups = response.groups;
    warnings = response.warnings;
    insufficiency = response.insufficiency;
  }

  pub record IsThematicAnswer (request : SearchRequest) (response : SearchResponse F) : Type 0 where
    pub scope : SearchScope
    pub resolved : ports.resolve request.scope ≡ ok scope
    pub page : List Evidence
    pub is_page : IsPage ops ports request scope page
    pub complete : (i : Text) → contains i (ids_of response.evidence) ≡ contains i (ids_of page)
    pub shown :
        IsDraft
          (Quoted request scope)
          (min ports.config.final_top_k request.page_size)
          (draft_of response)

  respond-draft :
      (request : SearchRequest) (request_id : Text) (scope : SearchScope) (release : ReleaseInfo)
      (d : Draft F) (response : SearchResponse F)
      → respond ops ports request request_id scope release d ≡ ok response
      → d ≡ draft_of response
  unfolding respond
  respond-draft request request_id scope release d response run =
      let (overview, (built, made)) = bind-ok (ports.build d.evidence) _ run in
      ap draft_of (ok_injective _ response made)

  -- Whenever a thematic request is answered, and the repository answers with every record under
  -- its own identifier, each evidence quotes the record that the repository returns for a
  -- candidate that the recall found, the relevance gate kept and the evidence gate accepts in the
  -- resolved scope. The
  -- evidence is, but for its order, the first `final_top_k` and at most `page_size` of what the
  -- evidence gate accepts and no label calls irrelevant, in the order of the relevance gate.
  -- Either there is evidence, nothing is reported missing, the identifiers of the groups, group by
  -- group, are those of the evidence in the same order, and none stands twice; or there are no
  -- groups, and it is reported that no evidence is relevant, where there is none, or that it
  -- could not be clustered.
  pub execute-IsThematicAnswer_of_ok :
      (request : SearchRequest) (request_id : Text) (response : SearchResponse F)
      → IsFaithful ports.get_by_ids
      → is_thematic request.mode ≡ true
      → execute ops ports request request_id ≡ ok response
      → IsThematicAnswer request response
  unfolding execute
  execute-IsThematicAnswer_of_ok request request_id response faithful m run =
      let (scope, (resolved, r1)) = bind-ok (ports.resolve request.scope) _ (rw m at run) in
      let (release, (released, r2)) = bind-ok (ports.snapshot_for scope) _ r1 in
      let (d, (drafted, r3)) = bind-ok (draft ops ports request scope) _ r2 in
      let same : d ≡ draft_of response =
        respond-draft request request_id scope release d response r3 in
      let (page, (is_page, complete)) = draft-IsPage ops ports request scope d drafted in
      record {
        scope = scope;
        resolved = resolved;
        page = page;
        is_page = is_page;
        complete =
            subst
              (λ (x : Draft F).
                (i : Text) → contains i (ids_of x.evidence) ≡ contains i (ids_of page))
              same complete;
        shown =
            subst (IsDraft (Quoted request scope) (min ports.config.final_top_k request.page_size))
              same (draft-IsDraft request scope d faithful drafted);
      }
