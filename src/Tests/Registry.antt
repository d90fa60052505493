-- ===== src/Tests/Registry.antt =====
-- A registry of one passage.
use marx_engels_insight_matc.Base.{Text, codes, false, List, [], ◌∷◌, some, ◌≡◌, ◌↔◌, refl, text_eq}
use marx_engels_insight_matc.Base.Unique.{contains}
use marx_engels_insight_matc.Base.Decimal.{to_decimal, to_decimal-injective}
use marx_engels_insight_matc.Base.Dict.{get, put}
use marx_engels_insight_matc.Ingestion.Failures.{done}
use marx_engels_insight_matc.Ingestion.Registry.{
  active, Passage, IdRegistry, lookup_passage_key, supersede_by, evidence_id, split_passage,
}
use marx_engels_insight_matc.Ingestion.Registry.Steps.{ask_evidence, Reach, here, next, empty}
use marx_engels_insight_matc.Ingestion.Registry.Lookup.{lookup_passage_key_iff}
use marx_engels_insight_matc.Ingestion.Registry.Split.{AreActive, split_passage_lem}

abbrev passage : Passage
passage = record { id = codes "ev_0"; status = active; supersedes_id = []; superseded_by = [] }

abbrev one_passage : IdRegistry
one_passage = record empty { passages = (codes "k", passage) ∷ []; issued = 1 }

one_passage_made : Reach to_decimal empty one_passage
unfolding evidence_id get put to_decimal
one_passage_made = next here (ask_evidence (codes "k") [] refl)

passage_there : get (codes "k") one_passage.passages ≡ some passage
unfolding get text_eq
passage_there = refl

lookup_passage_key_iff_example :
    (lookup_passage_key (codes "ev_0") one_passage ≡ some (codes "k"))
    ↔ ((p : Passage) × (get (codes "k") one_passage.passages ≡ some p) × (p.id ≡ codes "ev_0"))
lookup_passage_key_iff_example =
    lookup_passage_key_iff to_decimal one_passage to_decimal-injective one_passage_made
      (codes "ev_0") (codes "k")

abbrev halves : List Text
halves = codes "k1" ∷ codes "k2" ∷ []

new_keys : contains (codes "k") halves ≡ false
unfolding contains text_eq
new_keys = refl

split_passage_lem_example :
    (ids : List Text) × (s : IdRegistry) × (split_passage to_decimal
        (codes "ev_0")
        halves
        one_passage
      ≡ done (ids, s))
    × AreActive s halves ids
    × (get (codes "k") s.passages ≡ some (supersede_by ids passage))
    × ((k : Text)
        → text_eq k (codes "k") ≡ false
        → contains k halves ≡ false
        → get k s.passages ≡ get k one_passage.passages)
split_passage_lem_example =
    split_passage_lem to_decimal one_passage (codes "k") passage halves to_decimal-injective
      one_passage_made passage_there refl new_keys
