-- ===== src/Pipelines/Claim/Execute/Laws.antt =====
-- What a claim answer holds: authoritative quotations of the ranked pool, on one page.
use mathlib.Core.Path.{subst}
use marx_engels_insight_matc.Base.{
  ℕ, ◌≤◌, ◌≡◌, ◌↔◌, refl, sym, ◌∙◌, Text, is_some, take, length, length-take, ◌==◌, All, All-take,
  All-append, All-at, Bool, true, false, Option, none, some, List, [], ◌∷◌, ◌++◌, map,
  if◌then◌else◌, arith, inl, inr, Option-cases,
}
use marx_engels_insight_matc.Base.Dict.{Dict, get, index_by, index_by-some}
use marx_engels_insight_matc.Contracts.{
  SearchScope, SearchRequest, SearchResponse, Candidate, Evidence, ReleaseInfo, direct,
}
use marx_engels_insight_matc.Errors.{ok, ◌>>=◌}
use marx_engels_insight_matc.Errors.Laws.{bind-ok, ok_injective}
use marx_engels_insight_matc.Retrieval.Floats.{FloatOps}
use marx_engels_insight_matc.Retrieval.Records.{Records}
use marx_engels_insight_matc.Evidence.Service.{EvidenceHydrationResult, hydrate, unique_candidates}
use marx_engels_insight_matc.Evidence.Service.Laws.{
  IsFaithful, hydrate_found, candidate_ids, Sound, hydrate-Sound,
}
use marx_engels_insight_matc.Pipelines.Claim.Display.{
  Grouped, GroupSpec, ByLabel, group_specs, ids_of, look_up, spec_loop, add_group, label_loop,
  empty_by_label, groups_from_evidence, apply_page_size,
}
use marx_engels_insight_matc.Pipelines.Claim.Rerank.{Restricted}
use marx_engels_insight_matc.Pipelines.Claim.Recall.{Recalled}
use marx_engels_insight_matc.Pipelines.Claim.Fusion.{fuse_candidates}
use marx_engels_insight_matc.Pipelines.Claim.Pipeline.{
  recall, rerank, classify, ClaimPorts, Classified, count_label, is_claim,
}
use marx_engels_insight_matc.Pipelines.Claim.Execute.Relabelled.{
  Relabelled, classify-Relabelled, selection-Relabelled,
}
use marx_engels_insight_matc.Pipelines.Claim.Execute.{
  insufficient_support, add_found, insufficiency_of, survivors, arrange, selection, answer, execute,
}

-- Everything that stands in the dictionary of survivors satisfies `P`.
abbrev Holds : (Evidence → Type 0) → Dict Evidence → Type 0
Holds P d = (i : Text) (e : Evidence) → get i d ≡ some e → P e

module _ (P : Evidence → Type 0) (surviving : Dict Evidence) (holds : Holds P surviving) where
  look_up-All : (ids : List Text) (es : List Evidence) → look_up surviving ids ≡ ok es → All P es
  unfolding look_up
  look_up-All [] es h = subst (All P) (ok_injective [] es h) tt
  look_up-All (i ∷ ids) es h = elim (Option-cases (get i surviving)) [
    | inl n ↦ absurd (ground (arith, n, h))
    | inr (e, y) ↦
        let step : look_up surviving (i ∷ ids)
            ≡ (look_up surviving ids >>= λ later. ok (e ∷ later)) =
          rw (y, look_up) refl in
        let (later, (run, made)) =
          bind-ok (look_up surviving ids) (λ later. ok (e ∷ later)) (sym step ∙ h) in
        subst (All P) (ok_injective (e ∷ later) es made) (holds i e y, look_up-All ids later run)
  ]

  spec_loop-All :
      {F : Type 0} (b : ByLabel) (specs : List GroupSpec) (g : Grouped F)
      → spec_loop surviving b specs ≡ ok g
      → All P g.evidence
  unfolding spec_loop
  spec_loop-All {F} b [] g h =
      subst (λ (x : Grouped F). All P x.evidence)
        (ok_injective (record { groups = []; evidence = [] }) g h) tt
  spec_loop-All {F} b (s ∷ specs) g h =
      let ids = ids_of s.support b in
      let (shown, (found, rest)) =
        bind-ok (look_up surviving ids)
          (λ shown. spec_loop surviving b specs >>= λ later.
            ok (record {
              groups = add_group ids s later.groups;
              evidence = shown ++ later.evidence;
            }))
          h in
      let (later, (run, made)) =
        bind-ok (spec_loop surviving b specs)
          (λ later.
            ok (record {
              groups = add_group ids s later.groups;
              evidence = shown ++ later.evidence;
            }))
          rest in
      subst (λ (x : Grouped F). All P x.evidence)
        (ok_injective
          (record { groups = add_group ids s later.groups; evidence = shown ++ later.evidence }) g
          made)
        (All-append P shown later.evidence (look_up-All ids shown found)
          (spec_loop-All b specs later run))

  survivors-All : {F : Type 0} (cs : List (Candidate F)) → All P (survivors surviving cs)
  unfolding survivors
  survivors-All [] = tt
  survivors-All (c ∷ cs) =
      add (get c.evidence_id surviving) refl (survivors surviving cs) (survivors-All cs)
    where
      add :
          (o : Option Evidence)
          → get c.evidence_id surviving ≡ o
          → (later : List Evidence) → All P later
          → All P (add_found o later)
      add none e later h = h
      add (some x) e later h = (holds c.evidence_id x e, h)

  arrange-All :
      {F : Type 0} (classified : Bool) (selected : List (Candidate F)) (g : Grouped F)
      → arrange classified selected surviving ≡ ok g
      → All P g.evidence
  unfolding groups_from_evidence
  arrange-All {F} true selected g h =
      spec_loop-All (label_loop surviving empty_by_label selected) group_specs g h
  arrange-All {F} false selected g h =
      subst (λ (x : Grouped F). All P x.evidence)
        (ok_injective (record { groups = []; evidence = survivors surviving selected }) g h)
        (survivors-All selected)

insufficient_iff :
    (es : List Evidence) → (is_some (insufficiency_of es) ≡ true) ↔ (count_label direct es ≡ 0)
unfolding insufficiency_of
insufficient_iff es = at_count (count_label direct es)
  where
    at_count :
        (n : ℕ)
        → (is_some (if n == 0 then some (insufficient_support es) else none) ≡ true) ↔ (n ≡ 0)
    at_count n = ground arith

module _ {F V : Type 0} (ops : FloatOps F) (ports : ClaimPorts F V) where
  -- What every claim answer is, whatever the channels, the reranker and the classifier did. The
  -- candidates are the classified ones that are selected, and the records are what the
  -- repository returns for them.
  pub record IsAnswer (request : SearchRequest) (scope : SearchScope) (allowed : List Text)
      (c : Classified F) (response : SearchResponse F) : Type 0 where
    pub records : Records
    pub found :
        ports.get_by_ids (
          candidate_ids
            (unique_candidates (selection ops ports c request.options.include_counter_evidence)))
        ≡ ok records
    pub sound :
        All
          (Sound records scope
            (some allowed)
            none
            (selection ops ports c request.options.include_counter_evidence))
          response.evidence
    pub hydration : EvidenceHydrationResult
    pub hydrated :
        hydrate ports.get_by_ids
          (selection ops ports c request.options.include_counter_evidence)
          scope
          none
          (some allowed)
        ≡ ok hydration
    pub arranged : Grouped F
    pub arrangement :
        arrange c.classified
          (selection ops ports c request.options.include_counter_evidence)
          (index_by (λ (e : Evidence). e.evidence_id) hydration.evidence)
        ≡ ok arranged
    pub shown : response.evidence ≡ take request.page_size arranged.evidence
    pub page : length response.evidence ≤ request.page_size
    pub insufficient :
        (is_some response.insufficiency ≡ true) ↔ (count_label direct response.evidence ≡ 0)

  answer-IsAnswer :
      (request : SearchRequest) (request_id : Text) (scope : SearchScope) (release : ReleaseInfo)
      (allowed : List Text) (c : Classified F) (response : SearchResponse F)
      → IsFaithful ports.get_by_ids
      → answer ops ports request request_id scope release allowed c ≡ ok response
      → IsAnswer request scope allowed c response
  unfolding answer apply_page_size
  answer-IsAnswer request request_id scope release allowed c response faithful run =
      let selected = selection ops ports c request.options.include_counter_evidence in
      let (h, (hydrated, rest)) =
        bind-ok (hydrate ports.get_by_ids selected scope none (some allowed)) _ run in
      let surviving = index_by (λ (e : Evidence). e.evidence_id) h.evidence in
      let (g, (grouped, rest')) = bind-ok (arrange c.classified selected surviving) _ rest in
      let (overview, (viewed, made)) =
        bind-ok
          (ports.overview_for
            (map (λ (e : Evidence). e.evidence_id) (take request.page_size g.evidence)))
          _ rest' in
      let (records, found) =
        hydrate_found ports.get_by_ids selected scope none (some allowed) h hydrated in
      let Quoted : Evidence → Type 0 = Sound records scope (some allowed) none selected in
      let sound =
        hydrate-Sound ports.get_by_ids selected scope none (some allowed) records found
          (faithful (candidate_ids (unique_candidates selected)) records found) h hydrated in
      let all =
        arrange-All Quoted surviving
          (λ i e at.
            All-at Quoted e h.evidence sound
              (index_by-some (λ (e : Evidence). e.evidence_id) i e h.evidence at).1)
          c.classified selected g grouped in
      subst (IsAnswer request scope allowed c) (ok_injective _ response made) (record {
        records = records;
        found = found;
        hydration = h;
        hydrated = hydrated;
        arranged = g;
        arrangement = grouped;
        shown = refl;
        sound = All-take Quoted request.page_size g.evidence all;
        page = omega (arith, length-take request.page_size g.evidence);
        insufficient = insufficient_iff (take request.page_size g.evidence);
      })

  -- The identifiers that the evidence gate allows are those of the reranked pool.
  pub record IsClaimAnswer (request : SearchRequest) (response : SearchResponse F) : Type 0 where
    pub scope : SearchScope
    pub resolved : ports.resolve request.scope ≡ ok scope
    pub recalled : Recalled F
    pub recall_run : recall ops ports request.query scope [] ≡ ok recalled
    pub fused : List (Candidate F)
    pub fusion_run :
        fuse_candidates ops recalled.lexical recalled.vector ports.rank_constant ≡ ok fused
    pub ranked : Restricted F
    pub rerank_run : rerank ops ports request.query fused recalled.warnings ≡ ok ranked
    pub classified : Classified F
    pub classify_run :
        classify ops ports request.query ranked.ordered ranked.warnings ≡ ok classified
    pub relabelled :
        All
          (Relabelled ranked.ordered)
          (selection ops ports classified request.options.include_counter_evidence)
    pub is_answer :
        IsAnswer request scope
          (map (λ (c : Candidate F). c.evidence_id) ranked.ordered)
          classified
          response

  -- Whenever a claim request is answered, and the repository answers with every record under its
  -- own identifier, each evidence quotes the record that the repository returns for a candidate
  -- that passes the gate, in the resolved scope and within the pool that the reranker was
  -- restricted to; but for its label, that candidate is one of this pool. The evidence is the
  -- first `page_size` of the arrangement of all that the gate accepts, and insufficient support
  -- is reported exactly when none of it is labelled direct.
  pub execute-IsClaimAnswer_of_ok :
      (request : SearchRequest) (request_id : Text) (response : SearchResponse F)
      → IsFaithful ports.get_by_ids
      → is_claim request.mode ≡ true
      → execute ops ports request request_id ≡ ok response
      → IsClaimAnswer request response
  unfolding execute
  execute-IsClaimAnswer_of_ok request request_id response faithful m run =
      let (scope, (resolved, r1)) = bind-ok (ports.resolve request.scope) _ (rw m at run) in
      let (release, (released, r2)) = bind-ok (ports.snapshot_for scope) _ r1 in
      let (recalled, (recall_run, r3)) = bind-ok (recall ops ports request.query scope []) _ r2 in
      let (fused, (fusion_run, r4)) =
        bind-ok (fuse_candidates ops recalled.lexical recalled.vector ports.rank_constant) _ r3 in
      let (ranked, (rerank_run, r5)) =
        bind-ok (rerank ops ports request.query fused recalled.warnings) _ r4 in
      let allowed = map (λ (c : Candidate F). c.evidence_id) ranked.ordered in
      let (c, (classify_run, r6)) =
        bind-ok (classify ops ports request.query ranked.ordered ranked.warnings) _ r5 in
      record {
        scope = scope;
        resolved = resolved;
        recalled = recalled;
        recall_run = recall_run;
        fused = fused;
        fusion_run = fusion_run;
        ranked = ranked;
        rerank_run = rerank_run;
        classified = c;
        classify_run = classify_run;
        relabelled =
            selection-Relabelled ops ports ranked.ordered c request.options.include_counter_evidence
              (classify-Relabelled ops ports request.query ranked.ordered ranked.warnings c
                classify_run);
        is_answer = answer-IsAnswer request request_id scope release allowed c response faithful r6;
      }
