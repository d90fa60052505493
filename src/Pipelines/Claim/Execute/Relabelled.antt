-- ===== src/Pipelines/Claim/Execute/Relabelled.antt =====
-- Classification and selection change nothing of a candidate but its label.
use marx_engels_insight_matc.Base.{
  ◌≡◌, refl, Text, is_empty, is_some, keep, All, All-In, All-weaken, In, Bool, true, false, Option,
  none, some, List, [], ◌∷◌, inl, inr, Option-cases, if◌then◌else◌,
}
use marx_engels_insight_matc.Base.Dict.{Dict, get}
use marx_engels_insight_matc.Base.Sort.{sort_by, All-sort_by}
use marx_engels_insight_matc.Contracts.{Candidate, Warning}
use marx_engels_insight_matc.Errors.{Result, ok, raise}
use marx_engels_insight_matc.Errors.Laws.{bind-ok, if-ok, of_ok, ok-ne-raise}
use marx_engels_insight_matc.Retrieval.Floats.{FloatOps}
use marx_engels_insight_matc.Pipelines.Claim.Classification.{
  Answer, Labels, parse_classifications, apply_labels,
}
use marx_engels_insight_matc.Pipelines.Claim.Display.{
  displayed, display_order, select_loop, select_for_display,
}
use marx_engels_insight_matc.Pipelines.Claim.Recall.{is_blocking}
use marx_engels_insight_matc.Pipelines.Claim.Pipeline.{
  ClaimPorts, Classified, labelled_with, answered, load_authority_records, classify,
}
use marx_engels_insight_matc.Pipelines.Claim.Execute.{selection}

module _ {F : Type 0} where
  -- `d` is a candidate of the pool, but for its label.
  abbrev pub Relabelled : List (Candidate F) → Candidate F → Type 0
  Relabelled pool d =
      (o : Candidate F) × (In o pool × (d ≡ record o { support_label = d.support_label }))

  same-Relabelled : (pool : List (Candidate F)) → All (Relabelled pool) pool
  same-Relabelled pool =
      All-weaken (λ d. In d pool) (Relabelled pool) pool (λ d m. (d, (m, refl))) (All-In pool)

  later :
      (c : Candidate F) (pool ds : List (Candidate F))
      → All (Relabelled pool) ds
      → All (Relabelled (c ∷ pool)) ds
  later c pool ds =
      All-weaken (Relabelled pool) (Relabelled (c ∷ pool)) ds (λ d (o, (m, e)). (o, (inr m, e)))

  apply_labels-Relabelled :
      (cs : List (Candidate F)) (labels : Labels) → All (Relabelled cs) (apply_labels cs labels)
  unfolding apply_labels
  apply_labels-Relabelled [] labels = tt
  apply_labels-Relabelled (c ∷ cs) labels =
      let rest = later c cs (apply_labels cs labels) (apply_labels-Relabelled cs labels) in
      elim (Option-cases (get c.evidence_id labels)) [
        | inl n ↦ rw (n, apply_labels) ((c, (inl refl, refl)), rest)
        | inr (l, y) ↦ rw (y, apply_labels) ((c, (inl refl, refl)), rest)
      ]

  select_loop-All :
      (P : Candidate F → Type 0) (include : Bool) (cs : List (Candidate F)) (ops : FloatOps F)
      → All P cs
      → All P (select_loop ops include cs)
  unfolding select_loop
  select_loop-All P include [] ops h = tt
  select_loop-All P include (c ∷ cs) ops h =
      elim (displayed include c.support_label)
        as (λ b. All P (if b then c ∷ select_loop ops include cs else select_loop ops include cs)) [
          | true ↦ (h.0, select_loop-All P include cs ops h.1)
          | false ↦ select_loop-All P include cs ops h.1
        ]

module _ {F V : Type 0} (ops : FloatOps F) (ports : ClaimPorts F V) where
  abbrev Holds : List (Candidate F) → Classified F → Type 0
  Holds pool c = All (Relabelled pool) c.candidates

  labelled_with-Relabelled :
      (pool : List (Candidate F)) (warnings : List Warning) (labels : Option Labels)
      → Holds pool (labelled_with ops ports pool warnings labels)
  labelled_with-Relabelled pool warnings none = same-Relabelled pool
  labelled_with-Relabelled pool warnings (some labels) = apply_labels-Relabelled pool labels

  answered-Relabelled :
      (pool : List (Candidate F)) (ids : List Text) (warnings : List Warning)
      (m : Result (Dict Answer)) (c : Classified F)
      → answered ops ports pool ids warnings m ≡ ok c
      → Holds pool c
  answered-Relabelled pool ids warnings (ok raw) c run =
      of_ok (Holds pool) c (labelled_with-Relabelled pool warnings (parse_classifications raw ids))
        run
  answered-Relabelled pool ids warnings (raise e) c run = elim (if-ok (is_blocking e) run) [
    | inl (b, raised) ↦ absurd (ok-ne-raise c e raised refl)
    | inr (n, made) ↦ of_ok (Holds pool) c (same-Relabelled pool) made
  ]

  -- The classified candidates are those of the pool, but for their labels.
  pub classify-Relabelled :
      (query : Text) (pool : List (Candidate F)) (warnings : List Warning) (c : Classified F)
      → classify ops ports query pool warnings ≡ ok c
      → All (Relabelled pool) c.candidates
  unfolding classify
  classify-Relabelled query pool warnings c run = elim (if-ok (is_empty pool) run) [
    | inl (nothing, made) ↦ of_ok (Holds pool) c tt made
    | inr (something, r) ↦
        let (records, (loaded, r')) = bind-ok (load_authority_records ports.get_by_ids _) _ r in
        elim (if-ok (is_empty (keep (λ (d : Candidate F). is_some (records d.evidence_id)) pool))
          r') [
            | inl (none_found, made) ↦ of_ok (Holds pool) c (same-Relabelled pool) made
            | inr (found, asked) ↦ answered-Relabelled pool _ warnings _ c asked
          ]
  ]

  -- So are the selected ones.
  pub selection-Relabelled :
      (pool : List (Candidate F)) (c : Classified F) (include : Bool)
      → All (Relabelled pool) c.candidates
      → All (Relabelled pool) (selection ops ports c include)
  unfolding select_for_display
  selection-Relabelled pool c include h =
      elim c.classified
        as (λ b.
          All (Relabelled pool)
            (if b then select_for_display ops c.candidates include else c.candidates)) [
              | true ↦
                  select_loop-All (Relabelled pool) include
                    (sort_by (display_order ops) c.candidates) ops
                    (All-sort_by (Relabelled pool) (display_order ops) c.candidates h)
              | false ↦ h
            ]
