-- ===== src/Pipelines/Claim/Classification.antt =====
-- packages/marx_engels/pipelines/claim.py: the answer of the classifier is read, or refused as a
-- whole.
pub mod Laws
use marx_engels_insight_matc.Base.{
  ℕ, Text, codes, text_eq, is_some, or_else, Bool, true, false, not, ◌&&◌, ◌||◌, Option, none, some,
  List, [], ◌∷◌, ◌++◌, map, all, if◌then◌else◌,
}
use marx_engels_insight_matc.Base.Dict.{Dict, get, put, keys}
use marx_engels_insight_matc.Base.Unique.{contains}
use marx_engels_insight_matc.Contracts.{Candidate, SupportLabel, support_label_of}

-- The values that a structured answer of the model may hold, as far as `isinstance` tells them
-- apart at each place.
pub data Field : Type 0 where
  text : Text → Field
  not_text : Field

pub data Item : Type 0 where
  object : Dict Field → Item
  not_object : Item

pub data Answer : Type 0 where
  array : List Item → Answer
  not_array : Answer

-- `payload.get("classifications", payload.get("labels"))`, when it is a list
abbrev array_of : Option Answer → Option (List Item)
array_of (some (array items)) = some items
array_of (some not_array) = none
array_of none = none

unfoldable pub raw_items : Dict Answer → Option (List Item)
raw_items payload =
    array_of (or_else (get (codes "classifications") payload) (get (codes "labels") payload))

abbrev text_of : Option Field → Option Text
text_of (some (text t)) = some t
text_of (some not_text) = none
text_of none = none

unfoldable pub read_item : Item → Option (Text × Text)
read_item not_object = none
read_item (object fields) =
    both (text_of (get (codes "evidence_id") fields)) (text_of (get (codes "support_label") fields))
  where
    both : Option Text → Option Text → Option (Text × Text)
    both none l = none
    both (some i) none = none
    both (some i) (some l) = some (i, l)

abbrev pub Labels : Type 0
Labels = Dict SupportLabel

-- The loop over the items, with the dictionary of labels.
unfoldable pub parse_loop : List Text → Labels → List Item → Option Labels
unfolding read_item
parse_loop allowed labels [] = some labels
parse_loop allowed labels (item ∷ items) = elim (read_item item) [
  | none ↦ none
  | some (i, raw_label) ↦
      if not (contains i allowed)
      then none
      else if is_some (get i labels)
      then none
      else elim (support_label_of raw_label) [
        | none ↦ none
        | some label ↦ parse_loop allowed (put i label labels) items
      ]
]

-- `set(xs) == set(ys)`
abbrev pub same_set : List Text → List Text → Bool
same_set xs ys = all (λ i. contains i ys) xs && all (λ i. contains i xs) ys

abbrev complete : List Text → Option Labels → Option Labels
complete allowed none = none
complete allowed (some labels) = if same_set (keys labels) allowed then some labels else none

abbrev parse_items : List Text → Option (List Item) → Option Labels
parse_items allowed none = none
parse_items allowed (some items) = complete allowed (parse_loop allowed [] items)

unfoldable pub parse_classifications : Dict Answer → List Text → Option Labels
unfolding raw_items parse_loop
parse_classifications payload allowed_ids = parse_items allowed_ids (raw_items payload)

module _ {F : Type 0} where
  unfoldable pub apply_labels : List (Candidate F) → Labels → List (Candidate F)
  apply_labels [] labels = []
  apply_labels (c ∷ cs) labels = elim (get c.evidence_id labels) [
    | none ↦ c ∷ apply_labels cs labels
    | some assigned ↦ record c { support_label = some assigned } ∷ apply_labels cs labels
  ]
