-- ===== src/Pipelines/Claim/Display/ByLabels.antt =====
-- The dictionary `by_label`: under each label, the candidates of the label whose evidence
-- survives.
use marx_engels_insight_matc.Base.{
  append_nil, append_cons, ◌≡◌, ◌↔◌, refl, ap, sym, ◌∙◌, Text, text_eq, text_eq_iff, is_some, keep,
  Bool, true, false, not, ◌&&◌, Option, none, some, List, [], ◌∷◌, ◌++◌, map, if◌then◌else◌, arith,
  inl, inr, Bool-cases,
}
use marx_engels_insight_matc.Base.Dict.{Dict, get}
use marx_engels_insight_matc.Contracts.{
  Candidate, Evidence, SupportLabel, direct, indirect, counter, context_only, irrelevant,
  same_label, support_label_value, support_label_of,
}
use marx_engels_insight_matc.Pipelines.Claim.Display.{
  ByLabel, append_to, ids_of, has_label, place, label_loop,
}

label_of_value : (a : SupportLabel) → support_label_of (support_label_value a) ≡ some a
unfolding support_label_of text_eq
label_of_value direct = refl
label_of_value indirect = refl
label_of_value counter = refl
label_of_value context_only = refl
label_of_value irrelevant = refl

some_injective : {A : Type 0} {a b : A} → some a ≡ some b → a ≡ b
some_injective h = ground (arith, h)

pub same_label_iff : (a b : SupportLabel) → (same_label a b ≡ true) ↔ (a ≡ b)
same_label_iff a b = (
  λ h. some_injective (
      sym (label_of_value a)
      ∙ (ap support_label_of ((text_eq_iff (support_label_value a) (support_label_value b)).0 h)
          ∙ label_of_value b)),
  λ e. (text_eq_iff (support_label_value a) (support_label_value b)).1 (ap support_label_value e),
)

true-false : true ≡ false → ⊥
true-false h = cc

differ :
    (l m k : SupportLabel) → same_label l k ≡ true → same_label m k ≡ false → same_label l m ≡ false
differ l m k lk mk = elim (Bool-cases (same_label l m)) [
  | inl lm ↦ absurd (
      true-false (
        sym ((same_label_iff m k).1 (sym ((same_label_iff l m).0 lm) ∙ (same_label_iff l k).0 lk))
        ∙ mk))
  | inr lm ↦ lm
]

ids_of-append_to :
    (l m : SupportLabel) (i : Text) (by_label : ByLabel)
    → has_label m by_label ≡ true
    → ids_of l (append_to m i by_label)
      ≡ (if same_label l m then ids_of l by_label ++ i ∷ [] else ids_of l by_label)
unfolding ids_of append_to has_label
ids_of-append_to l m i [] h = cc
ids_of-append_to l m i ((k, ks) ∷ rest) h = elim (Bool-cases (same_label m k)) [
  | inl mk ↦
      let lm : same_label l m ≡ same_label l k = ap (same_label l) ((same_label_iff m k).0 mk) in
      rw (mk, ids_of) (rw lm (here (same_label l k) ks (ids_of l rest) i))
  | inr mk ↦
      rw (mk, ids_of)
        (there (same_label l k) (same_label l m) ks (ids_of l rest) (ids_of l (append_to m i rest))
          i (λ lk. differ l m k lk mk) (ids_of-append_to l m i rest (rw (sym h, mk) refl)))
]
  where
    here :
        (lk : Bool) (ks now : List Text) (i : Text)
        → (if lk then ks ++ i ∷ [] else now)
          ≡ (if lk then (if lk then ks else now) ++ i ∷ [] else if lk then ks else now)
    here true ks now i = refl
    here false ks now i = refl

    there :
        (lk lm : Bool) (ks now later : List Text) (i : Text)
        → (lk ≡ true → lm ≡ false)
        → later ≡ (if lm then now ++ i ∷ [] else now)
        → (if lk then ks else later)
          ≡ (if lm then (if lk then ks else now) ++ i ∷ [] else if lk then ks else now)
    there true true ks now later i d e = absurd (cc (d refl))
    there true false ks now later i d e = refl
    there false lm ks now later i d e = e

has_label-append_to :
    (l m : SupportLabel) (i : Text) (by_label : ByLabel)
    → has_label l (append_to m i by_label) ≡ has_label l by_label
unfolding append_to has_label
has_label-append_to l m i [] = refl
has_label-append_to l m i ((k, ks) ∷ rest) = ground (arith, has_label-append_to l m i rest)

abbrev pub labelled : SupportLabel → Option SupportLabel → Bool
labelled l none = false
labelled l (some m) = same_label l m

unlike :
    (l m : SupportLabel) (b : ByLabel)
    → has_label l b ≡ true
    → has_label m b ≡ false
    → same_label l m ≡ false
unlike l m b h n = elim (Bool-cases (same_label l m)) [
  | inl lm ↦ absurd (true-false (sym h ∙ (ap (λ k. has_label k b) ((same_label_iff l m).0 lm) ∙ n)))
  | inr lm ↦ lm
]

module _ (surviving : Dict Evidence) where
  place-has_label :
      (l : SupportLabel) (o : Option SupportLabel) (i : Text) (b : ByLabel)
      → has_label l (place surviving o i b) ≡ has_label l b
  place-has_label l none i b = refl
  place-has_label l (some m) i b = at_label (has_label m b) (is_some (get i surviving))
    where
      at_label :
          (p q : Bool)
          → has_label l (if not p then b else if not q then b else append_to m i b) ≡ has_label l b
      at_label false q = refl
      at_label true false = refl
      at_label true true = has_label-append_to l m i b

  place-ids_of :
      (l : SupportLabel) (o : Option SupportLabel) (i : Text) (b : ByLabel)
      → has_label l b ≡ true
      → ids_of l (place surviving o i b)
        ≡ (if labelled l o && is_some (get i surviving) then ids_of l b ++ i ∷ [] else ids_of l b)
  place-ids_of l none i b h = refl
  place-ids_of l (some m) i b h = at_label (has_label m b) (is_some (get i surviving)) refl
    where
      at_label :
          (p q : Bool)
          → has_label m b ≡ p
          → ids_of l (if not p then b else if not q then b else append_to m i b)
            ≡ (if same_label l m && q then ids_of l b ++ i ∷ [] else ids_of l b)
      at_label false q e = rw (unlike l m b h e) refl
      at_label true true e = elim (Bool-cases (same_label l m)) [
        | inl lm ↦ ids_of-append_to l m i b e ∙ rw lm refl
        | inr lm ↦ ids_of-append_to l m i b e ∙ rw lm refl
      ]
      at_label true false e = elim (Bool-cases (same_label l m)) [
        | inl lm ↦ rw lm refl
        | inr lm ↦ rw lm refl
      ]

module _ {F : Type 0} (surviving : Dict Evidence) where
  -- The candidates of a label whose evidence survives, in order.
  abbrev pub wanted : SupportLabel → List (Candidate F) → List Text
  wanted l cs =
      map (λ (c : Candidate F). c.evidence_id)
        (keep
          (λ (c : Candidate F). labelled l c.support_label && is_some (get c.evidence_id surviving))
          cs)

  -- The loop over the candidates collects under each label what is wanted of it.
  pub ids_of-label_loop :
      (l : SupportLabel) (b : ByLabel) (cs : List (Candidate F))
      → has_label l b ≡ true
      → ids_of l (label_loop surviving b cs) ≡ ids_of l b ++ wanted l cs
  unfolding label_loop
  ids_of-label_loop l b [] h = sym (append_nil (ids_of l b))
  ids_of-label_loop l b (c ∷ cs) h =
      let next = place surviving c.support_label c.evidence_id b in
      ids_of-label_loop l next cs (place-has_label surviving l c.support_label c.evidence_id b ∙ h)
      ∙ (ap (λ xs. xs ++ wanted l cs) (place-ids_of surviving l c.support_label c.evidence_id b h)
          ∙ collect (labelled l c.support_label && is_some (get c.evidence_id surviving)))
    where
      collect :
          (t : Bool)
          → (if t then ids_of l b ++ c.evidence_id ∷ [] else ids_of l b) ++ wanted l cs
            ≡ ids_of l b
              ++ map
                  (λ (d : Candidate F). d.evidence_id)
                  (if t
                    then c
                      ∷ keep
                          (λ (d : Candidate F).
                            labelled l d.support_label && is_some (get d.evidence_id surviving))
                          cs
                    else keep
                        (λ (d : Candidate F).
                          labelled l d.support_label && is_some (get d.evidence_id surviving))
                        cs)
      collect true = append_cons (ids_of l b) c.evidence_id (wanted l cs)
      collect false = refl
