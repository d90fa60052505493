-- ===== src/Pipelines/Claim/Display/Listing.antt =====
-- The loop over the table of labels: the groups, and the evidence that they list.
use marx_engels_insight_matc.Base.{
  ◌≡◌, ◌≢◌, refl, ap, ◌∙◌, Text, is_some, concat, All, true, Option, none, some, List, [], ◌∷◌,
  ◌++◌, map, arith,
}
use marx_engels_insight_matc.Base.Dict.{Dict, get}
use marx_engels_insight_matc.Contracts.{Evidence, ResultGroup, SupportLabel}
use marx_engels_insight_matc.Errors.{ok}
use marx_engels_insight_matc.Pipelines.Claim.Display.{
  GroupSpec, ByLabel, ids_of, Grouped, look_up, add_group, spec_loop,
}
use marx_engels_insight_matc.Pipelines.Claim.Display.Pages.{ids, grouped_ids}

-- Every evidence stands under its own identifier.
abbrev pub Keyed : Dict Evidence → Type 0
Keyed d = (i : Text) (e : Evidence) → get i d ≡ some e → e.evidence_id ≡ i

module _ {F : Type 0} where
  -- The groups, by definition: one for each row of the table that has a candidate.
  abbrev pub groups_of : (SupportLabel → List Text) → List GroupSpec → List (ResultGroup F)
  groups_of members [] = []
  groups_of members (s ∷ specs) = add_group (members s.support) s (groups_of members specs)

module _ (F : Type 0) where
  pub groups_of-grouped_ids :
      (members : SupportLabel → List Text) (specs : List GroupSpec)
      → grouped_ids (groups_of {F = F} members specs)
        ≡ concat (map (λ (s : GroupSpec). members s.support) specs)
  groups_of-grouped_ids members [] = refl
  groups_of-grouped_ids members (s ∷ specs) =
      add (members s.support) (groups_of-grouped_ids members specs)
    where
      add :
          (is : List Text)
          → grouped_ids (groups_of {F = F} members specs)
            ≡ concat (map (λ (s : GroupSpec). members s.support) specs)
          → grouped_ids (add_group is s (groups_of {F = F} members specs))
            ≡ is ++ concat (map (λ (s : GroupSpec). members s.support) specs)
      add [] e = e
      add (i ∷ is) e = ap (λ xs. i ∷ is ++ xs) e

  pub groups_of-inhabited :
      (members : SupportLabel → List Text) (specs : List GroupSpec)
      → All (λ (g : ResultGroup F). g.evidence_ids ≢ []) (groups_of members specs)
  groups_of-inhabited members [] = tt
  groups_of-inhabited members (s ∷ specs) =
      add (members s.support) (groups_of-inhabited members specs)
    where
      add :
          (is : List Text)
          → All (λ (g : ResultGroup F). g.evidence_ids ≢ []) (groups_of members specs)
          → All
              (λ (g : ResultGroup F). g.evidence_ids ≢ [])
              (add_group is s (groups_of members specs))
      add [] h = h
      add (i ∷ is) h = ((λ e. cc), h)

module _ (surviving : Dict Evidence) where
  abbrev pub Survive : List Text → Type 0
  Survive = All (λ i. is_some (get i surviving) ≡ true)

  look_up-some :
      (is : List Text)
      → Keyed surviving
      → Survive is
      → (es : List Evidence) × ((look_up surviving is ≡ ok es) × (ids es ≡ is))
  unfolding look_up
  look_up-some [] keyed h = ([], (refl, refl))
  look_up-some (i ∷ is) keyed h = found (get i surviving) refl h.0 (look_up-some is keyed h.1)
    where
      found :
          (o : Option Evidence)
          → get i surviving ≡ o
          → is_some o ≡ true
          → (es : List Evidence) × ((look_up surviving is ≡ ok es) × (ids es ≡ is))
          → (es : List Evidence) × ((look_up surviving (i ∷ is) ≡ ok es) × (ids es ≡ i ∷ is))
      found none e h later = absurd (cc)
      found (some v) e h (es, (run, same)) =
          (v ∷ es, (rw (e, look_up) (rw run refl), ground (arith, keyed i v e, same)))

  module _ {F : Type 0} where
    pub record IsGrouped (members : SupportLabel → List Text) (specs : List GroupSpec)
        (g : Grouped F) : Type 0 where
      pub groups : g.groups ≡ groups_of members specs
      pub evidence : ids g.evidence ≡ concat (map (λ (s : GroupSpec). members s.support) specs)

  ids-append : (xs ys : List Evidence) → ids (xs ++ ys) ≡ ids xs ++ ids ys
  ids-append [] ys = refl
  ids-append (x ∷ xs) ys = ap (◌∷◌ x.evidence_id) (ids-append xs ys)

  module _ {F : Type 0} where
    pub spec_loop-IsGrouped :
        (members : SupportLabel → List Text) (b : ByLabel) (specs : List GroupSpec)
        → Keyed surviving
        → All (λ s. (ids_of s.support b ≡ members s.support) × Survive (members s.support)) specs
        → (g : Grouped F) × ((spec_loop surviving b specs ≡ ok g) × IsGrouped members specs g)
    unfolding spec_loop
    spec_loop-IsGrouped members b [] keyed h =
        (record { groups = []; evidence = [] }, (refl, record { groups = refl; evidence = refl }))
    spec_loop-IsGrouped members b (s ∷ specs) keyed h =
        let (later, (run, grouped)) = spec_loop-IsGrouped members b specs keyed h.1 in
        let (shown, (found, same)) = look_up-some (members s.support) keyed h.0.1 in
        (
          record {
            groups = add_group (members s.support) s later.groups;
            evidence = shown ++ later.evidence;
          },
          (
            rw (h.0.0, found, run) refl,
            record {
              groups = ap (add_group (members s.support) s) grouped.groups;
              evidence =
                  ids-append shown later.evidence
                  ∙ (ap (λ xs. xs ++ ids later.evidence) same
                      ∙ ap (λ xs. members s.support ++ xs) grouped.evidence);
            },
          ),
        )
