-- ===== src/Evidence/Service.antt =====
-- packages/marx_engels/evidence/service.py: `EvidenceService.hydrate`, the only place where a
-- public `Evidence` is built.
pub mod Quotation
pub mod Laws
use marx_engels_insight_matc.Base.{
  ℕ, Text, codes, strip, length, Bool, true, false, not, ◌&&◌, Option, none, some, List, [], ◌∷◌,
  map, if◌then◌else◌,
}
use marx_engels_insight_matc.Base.Unique.{contains, unique_by}
use marx_engels_insight_matc.Errors.{Result, ok, raise, other, ◌>>=◌}
use marx_engels_insight_matc.Contracts.{
  SearchScope, Candidate, Evidence, ContentType, DatePrecision, content_type_of, date_precision_of,
  accepts_evidence,
}
use marx_engels_insight_matc.Retrieval.Records.{
  AuthoritativeEvidenceRecord, Records, EvidenceRepository,
}
use marx_engels_insight_matc.Evidence.Matching.{non_overlapping_match_offsets}
use marx_engels_insight_matc.Evidence.Gate.{
  EvidenceExclusionReason, is_exact_candidate, first_gate_failure,
}

pub record EvidenceGateExclusion : Type 0 where
  pub evidence_id : Text
  pub reason : EvidenceExclusionReason

pub record EvidenceHydrationResult : Type 0 where
  pub evidence : List Evidence
  pub exclusions : List EvidenceGateExclusion
  pub accepted_records : List AuthoritativeEvidenceRecord

-- A `ValueError` where the value is missing.
abbrev pub required {ℓ} : {A : Type ℓ} → Option A → Result A
required none = raise (other (codes "ValueError"))
required (some a) = ok a

-- `records[key]`, a `KeyError` where the key is missing
abbrev pub at_key {ℓ} : {A : Type ℓ} → Option A → Result A
at_key none = raise (other (codes "KeyError"))
at_key (some a) = ok a

-- pydantic's check of a new `Evidence`
abbrev pub validated : Evidence → Result Evidence
validated e = if accepts_evidence e then ok e else raise (other (codes "ValidationError"))

abbrev first_channel : List Text → Text
first_channel [] = codes "unknown"
first_channel (c ∷ cs) = c

-- What the rounds of the loop of `hydrate` add to the result of the later rounds.
abbrev accept :
    Evidence → AuthoritativeEvidenceRecord → EvidenceHydrationResult → EvidenceHydrationResult
accept e r rest = record rest {
  evidence = e ∷ rest.evidence;
  accepted_records = r ∷ rest.accepted_records;
}

module _ {F : Type 0} where
  -- `_unique_candidates`
  unfoldable pub unique_candidates : List (Candidate F) → List (Candidate F)
  unfolding unique_by
  unique_candidates = unique_by (λ c. c.evidence_id)

  unfoldable pub match_type : Candidate F → Text
  match_type c =
      if contains (codes "exact") c.channels
      then codes "exact"
      else if contains (codes "lexical") c.channels && contains (codes "vector") c.channels
      then codes "hybrid"
      else if contains (codes "vector") c.channels
      then codes "semantic"
      else if contains (codes "lexical") c.channels
      then codes "lexical"
      else first_channel c.channels

  -- the offsets and the count of an exact candidate; others have none
  unfoldable pub offsets_of : Candidate F → AuthoritativeEvidenceRecord → Option Text → List ℕ
  offsets_of c r none = []
  offsets_of c r (some query) =
      if is_exact_candidate c
      then non_overlapping_match_offsets r.verified_text (strip query)
      else []

  unfoldable pub match_count_of : Candidate F → AuthoritativeEvidenceRecord → Option Text → Option ℕ
  match_count_of c r none = none
  match_count_of c r (some query) =
      if is_exact_candidate c then some (length (offsets_of c r (some query))) else none

  public_evidence :
      Candidate F
      → AuthoritativeEvidenceRecord
      → Option Text
      → ContentType
      → DatePrecision
      → Evidence
  public_evidence c r exact_query content_type date_precision = record {
    evidence_id = r.evidence_id;
    verified_text = r.verified_text;
    content_type = content_type;
    author = r.author;
    work_title = r.work_title;
    corpus_name = r.corpus_name;
    edition_label = r.edition_label;
    volume_no = r.volume_no;
    work_date_start = r.work_date_start;
    work_date_end = r.work_date_end;
    date_precision = date_precision;
    printed_pages = r.printed_pages;
    pdf_pages = r.pdf_pages;
    prev_evidence_id = if r.prev_is_released then r.prev_evidence_id else none;
    next_evidence_id = if r.next_is_released then r.next_evidence_id else none;
    match_type = match_type c;
    support_label = c.support_label;
    rank_reasons = c.rank_reasons;
    exact_match_count = match_count_of c r exact_query;
    match_offsets = offsets_of c r exact_query;
  }

  unfoldable pub to_public_evidence :
      Candidate F → AuthoritativeEvidenceRecord → Option Text → Result Evidence
  unfolding public_evidence
  to_public_evidence c r exact_query = do
    content_type ← required (content_type_of r.content_type)
    date_precision ← required (date_precision_of r.date_precision)
    validated (public_evidence c r exact_query content_type date_precision)

  abbrev exclude :
      Candidate F → EvidenceExclusionReason → EvidenceHydrationResult → EvidenceHydrationResult
  exclude c reason rest = record rest {
    exclusions = record { evidence_id = c.evidence_id; reason = reason } ∷ rest.exclusions;
  }

  hydrate_loop :
      Records
      → SearchScope
      → Option (List Text)
      → Option Text
      → List (Candidate F)
      → Result EvidenceHydrationResult
  hydrate_loop records scope allowed exact_query [] =
      ok (record { evidence = []; exclusions = []; accepted_records = [] })
  hydrate_loop records scope allowed exact_query (c ∷ cs) =
      elim (first_gate_failure c records scope allowed exact_query) [
        | some reason ↦ do
          rest ← hydrate_loop records scope allowed exact_query cs
          ok (exclude c reason rest)
        | none ↦ do
          r ← at_key (records c.evidence_id)
          e ← to_public_evidence c r exact_query
          rest ← hydrate_loop records scope allowed exact_query cs
          ok (accept e r rest)
      ]

  unfoldable pub hydrate :
      EvidenceRepository
      → List (Candidate F)
      → SearchScope
      → Option Text
      → Option (List Text)
      → Result EvidenceHydrationResult
  unfolding hydrate_loop unique_candidates to_public_evidence
  hydrate repository candidates scope exact_query allowed = do
    let ordered = unique_candidates candidates
    records ← repository (map (λ c. c.evidence_id) ordered)
    hydrate_loop records scope allowed exact_query ordered
