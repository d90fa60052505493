-- ===== src/Contracts/Enums.antt =====
-- packages/marx_engels/contracts/enums.py. A `StrEnum` is a data type with its string values;
-- `T(value)` is `T_of`, which finds the member of a value.
use marx_engels_insight_matc.Base.{
  Text, codes, text_eq, Bool, Option, none, some, List, [], ◌∷◌, if◌then◌else◌,
}

pub data SearchMode : Type 0 where
  exact claim timeline thematic : SearchMode

pub data ContentType : Type 0 where
  main_text author_note editor_note footnote : ContentType

pub data AuthorCode : Type 0 where
  marx engels coauthored attributed unknown : AuthorCode

pub data DatePrecision : Type 0 where
  day month year range approximate disputed unknown : DatePrecision

pub data SupportLabel : Type 0 where
  direct indirect counter context_only irrelevant : SupportLabel

abbrev pub mode_value : SearchMode → Text
mode_value exact = codes "exact"
mode_value claim = codes "claim"
mode_value timeline = codes "timeline"
mode_value thematic = codes "thematic"

abbrev pub content_type_value : ContentType → Text
content_type_value main_text = codes "main_text"
content_type_value author_note = codes "author_note"
content_type_value editor_note = codes "editor_note"
content_type_value footnote = codes "footnote"

abbrev pub author_value : AuthorCode → Text
author_value marx = codes "marx"
author_value engels = codes "engels"
author_value coauthored = codes "coauthored"
author_value attributed = codes "attributed"
author_value AuthorCode.unknown = codes "unknown"

abbrev pub date_precision_value : DatePrecision → Text
date_precision_value day = codes "day"
date_precision_value month = codes "month"
date_precision_value year = codes "year"
date_precision_value range = codes "range"
date_precision_value approximate = codes "approximate"
date_precision_value disputed = codes "disputed"
date_precision_value DatePrecision.unknown = codes "unknown"

abbrev pub support_label_value : SupportLabel → Text
support_label_value direct = codes "direct"
support_label_value indirect = codes "indirect"
support_label_value counter = codes "counter"
support_label_value context_only = codes "context_only"
support_label_value irrelevant = codes "irrelevant"

-- The first member whose value is the text; `none` is the `ValueError`.
unfoldable pub member_of {ℓ} : {A : Type ℓ} → (A → Text) → List A → Text → Option A
member_of value [] t = none
member_of value (a ∷ as') t = if text_eq (value a) t then some a else member_of value as' t

abbrev pub content_types : List ContentType
content_types = main_text ∷ author_note ∷ editor_note ∷ footnote ∷ []

abbrev pub date_precisions : List DatePrecision
date_precisions = day ∷ month ∷ year ∷ range ∷ approximate ∷ disputed ∷ DatePrecision.unknown ∷ []

abbrev pub support_labels : List SupportLabel
support_labels = direct ∷ indirect ∷ counter ∷ context_only ∷ irrelevant ∷ []

unfoldable pub content_type_of : Text → Option ContentType
unfolding member_of
content_type_of = member_of content_type_value content_types

unfoldable pub date_precision_of : Text → Option DatePrecision
unfolding member_of
date_precision_of = member_of date_precision_value date_precisions

unfoldable pub support_label_of : Text → Option SupportLabel
unfolding member_of
support_label_of = member_of support_label_value support_labels

-- `a is b` on members
abbrev pub same_label : SupportLabel → SupportLabel → Bool
same_label a b = text_eq (support_label_value a) (support_label_value b)
