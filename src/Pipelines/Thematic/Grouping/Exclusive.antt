-- ===== src/Pipelines/Thematic/Grouping/Exclusive.antt =====
-- The themes that `assign_exclusively` returns have members, and distinct identifiers of which
-- none is the one of the rest.
use marx_engels_insight_matc.Base.{
  ℕ, ◌≡◌, ◌≢◌, refl, ap, ◌∙◌, sym, Text, codes, text_eq_iff, strip, is_empty, All, Bool, true,
  false, ◌||◌, List, [], ◌∷◌, ◌++◌, map, arith, Bool-cases, inl, inr,
}
use marx_engels_insight_matc.Base.Decimal.{
  to_decimal, last_code, last_code-append, last_code-to_decimal,
}
use marx_engels_insight_matc.Base.Unique.{contains, Distinct}
use marx_engels_insight_matc.Pipelines.Thematic.Types.{ClusterAssignment, other_related_group_id}
use marx_engels_insight_matc.Pipelines.Thematic.Grouping.{
  unique_keep_order, suffixed, valid_members, skipped, theme_id, assign_loop, assign_exclusively,
}
use marx_engels_insight_matc.Pipelines.Thematic.Grouping.Suffixes.{dedupe_cluster_id-new}

append-ne-nil : (s t : Text) → t ≢ [] → s ++ t ≢ []
append-ne-nil [] t h = h
append-ne-nil (c ∷ s) t h = λ e. cc

suffixed-ne-other : (t : Text) (k : ℕ) → suffixed t k ≢ other_related_group_id
unfolding suffixed
suffixed-ne-other t k e =
    let (digits, small) = last_code-to_decimal k in
    omega (
      arith,
      small,
      last_code-append (codes "_") (to_decimal k) digits,
      last_code-append t (codes "_" ++ to_decimal k)
          (append-ne-nil (codes "_") (to_decimal k) digits),
      ap last_code e,
    )

-- The identifier of a new theme is not in use, not the one of the rest, and not empty.
record IsFresh (seen : List Text) (id : Text) : Type 0 where
  unused : contains id seen ≡ false
  no_rest : id ≢ other_related_group_id

theme_id-IsFresh :
    (cluster_id : Text) (seen : List Text)
    → skipped cluster_id ≡ false
    → IsFresh seen (theme_id cluster_id seen)
theme_id-IsFresh cluster_id seen h = elim (Bool-cases (contains cluster_id seen)) [
  | inl used ↦
      let (k, e, new) = dedupe_cluster_id-new cluster_id seen in
      rw used (record { unused = new; no_rest = λ p. suffixed-ne-other cluster_id k (sym e ∙ p) })
  | inr free ↦ rw free (record {
    unused = free;
    no_rest = λ p. ground (arith, text_eq_iff cluster_id other_related_group_id);
  })
]

abbrev pub theme_ids : List ClusterAssignment → List Text
theme_ids themes = map (λ t. t.cluster_id) themes

abbrev pub IsTheme : ClusterAssignment → Type 0
IsTheme t = (t.cluster_id ≢ other_related_group_id) × (is_empty t.evidence_ids ≡ false)

module _ (allowed : List Text) where
  record Themes (seen : List Text) (themes : List ClusterAssignment) : Type 0 where
    new : (i : Text) → contains i seen ≡ true → contains i (theme_ids themes) ≡ false
    distinct : Distinct (theme_ids themes)
    proper : All IsTheme themes

  Themes-cons :
      (seen members : List Text) (id : Text) (themes : List ClusterAssignment)
      → IsFresh seen id
      → is_empty members ≡ false
      → Themes (id ∷ seen) themes
      → Themes seen (record { cluster_id = id; evidence_ids = members } ∷ themes)
  unfolding contains
  Themes-cons seen members id themes f m h = record {
    new = λ i s. ground (arith, h.new i, f.unused, text_eq_iff i id);
    distinct = (h.new id (ground (arith, text_eq_iff id id)), h.distinct);
    proper = ((f.no_rest, m), h.proper);
  }

  assign_loop-Themes :
      (claimed seen : List Text) (rest : List ClusterAssignment)
      → Themes seen (assign_loop allowed claimed seen rest).themes
  unfolding assign_loop contains
  assign_loop-Themes claimed seen [] = record { new = λ i s. refl; distinct = tt; proper = tt }
  assign_loop-Themes claimed seen (a ∷ rest) =
      let valid = valid_members allowed claimed (unique_keep_order a.evidence_ids) in
      elim (Bool-cases (skipped (strip a.cluster_id) || is_empty valid)) [
        | inl skip ↦ rw (skip, assign_loop) (assign_loop-Themes claimed seen rest)
        | inr take ↦
            let id = theme_id (strip a.cluster_id) seen in
            rw (take, assign_loop)
              (Themes-cons seen valid id
                (assign_loop allowed (valid ++ claimed) (id ∷ seen) rest).themes
                (theme_id-IsFresh (strip a.cluster_id) seen
                  (left (skipped (strip a.cluster_id)) (is_empty valid) take))
                (right (skipped (strip a.cluster_id)) (is_empty valid) take)
                (assign_loop-Themes (valid ++ claimed) (id ∷ seen) rest))
      ]
    where
      left : (a b : Bool) → (a || b) ≡ false → a ≡ false
      left a b h = ground arith

      right : (a b : Bool) → (a || b) ≡ false → b ≡ false
      right a b h = ground arith

-- Whatever the clusterer returns, the themes have distinct identifiers, also when it repeats
-- one; each has a member, and none is named like the group of the rest.
pub assign_exclusively-Distinct :
    (assignments : List ClusterAssignment) (allowed_ids : List Text)
    → Distinct (theme_ids (assign_exclusively assignments allowed_ids).themes)
      × All IsTheme (assign_exclusively assignments allowed_ids).themes
unfolding assign_exclusively
assign_exclusively-Distinct assignments allowed_ids =
    let h = assign_loop-Themes (unique_keep_order allowed_ids) [] [] assignments in
    (h.distinct, h.proper)
