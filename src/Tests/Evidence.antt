-- ===== src/Tests/Evidence.antt =====
-- Runs of the evidence gate and of the matching.
use marx_engels_insight_matc.Base.{
  ℕ, ◌+◌, ◌≡◌, ◌↔◌, refl, Text, codes, text_eq, strip, none, some, List, [], ◌∷◌, if◌then◌else◌,
  arith, All,
}
use marx_engels_insight_matc.Base.Unique.{contains, count}
use marx_engels_insight_matc.Contracts.{
  Candidate, Evidence, main_text, year, accepts_evidence, content_type_of, date_precision_of,
}
use marx_engels_insight_matc.Errors.{ok}
use marx_engels_insight_matc.Retrieval.Records.{AuthoritativeEvidenceRecord}
use marx_engels_insight_matc.Evidence.Gate.{
  in_scope, first_gate_failure, id_not_found, record_failure, is_vector_candidate,
  metadata_available, is_blank, exact_gate_failure, is_exact_candidate,
}
use marx_engels_insight_matc.Evidence.Gate.Laws.{
  Admissible, IsReleased, first_gate_failure-none_iff,
}
use marx_engels_insight_matc.Evidence.Matching.{non_overlapping_match_offsets}
use marx_engels_insight_matc.Evidence.Matching.Laws.{
  Leftmost, non_overlapping_match_offsets-Leftmost,
}
use marx_engels_insight_matc.Evidence.Service.{
  match_type, offsets_of, match_count_of, EvidenceHydrationResult, hydrate, to_public_evidence,
}
use marx_engels_insight_matc.Evidence.Service.Quotation.{
  IsQuotation, to_public_evidence-IsQuotation,
}
use marx_engels_insight_matc.Evidence.Service.Laws.{
  evidence_ids, excluded_ids, candidate_ids, Sound, Reported, hydrate-partition, hydrate-Sound,
  hydrate-Reported,
}
use marx_engels_insight_matc.Tests.Samples.{
  candidate, whole_corpus, manifesto, records, repository, records-IsKeyed,
}

abbrev found_candidate : Candidate ℕ
found_candidate = candidate (codes "ev-1") none none

abbrev two_candidates : List (Candidate ℕ)
two_candidates =
    candidate (codes "ev-1") none none
    ∷ candidate (codes "ev-9") none none
    ∷ candidate (codes "ev-1") none none
    ∷ []

hydrate-partition_example :
    (res : EvidenceHydrationResult) × (hydrate repository two_candidates whole_corpus none none
      ≡ ok res)
    × ((i : Text)
        → count i (evidence_ids res) + count i (excluded_ids res)
          ≡ (if contains i (candidate_ids two_candidates) then 1 else 0))
hydrate-partition_example =
    hydrate-partition repository two_candidates whole_corpus none none records refl records-IsKeyed

abbrev hydrated : EvidenceHydrationResult
hydrated = record {
  evidence =
      record {
        evidence_id = codes "ev-1";
        verified_text = codes "a spectre is haunting Europe";
        content_type = main_text;
        author = codes "Marx and Engels";
        work_title = codes "Manifesto";
        corpus_name = codes "MEW";
        edition_label = codes "first";
        volume_no = 4;
        work_date_start = some (codes "1848");
        work_date_end = none;
        date_precision = year;
        printed_pages = codes "461" ∷ [];
        pdf_pages = 480 ∷ [];
        prev_evidence_id = none;
        next_evidence_id = none;
        match_type = codes "lexical";
        support_label = none;
        rank_reasons = [];
        exact_match_count = none;
        match_offsets = [];
      }
      ∷ [];
  exclusions = record { evidence_id = codes "ev-9"; reason = id_not_found } ∷ [];
  accepted_records = manifesto ∷ [];
}

hydrated_run : hydrate repository two_candidates whole_corpus none none ≡ ok hydrated
unfolding hydrate contains first_gate_failure text_eq record_failure in_scope is_vector_candidate
    metadata_available is_blank strip content_type_of date_precision_of exact_gate_failure
    is_exact_candidate accepts_evidence match_type offsets_of match_count_of
hydrated_run = refl

non_overlapping_match_offsets-Leftmost_example :
    Leftmost
      (codes "aaaa a")
      (codes "aa")
      0
      (non_overlapping_match_offsets (codes "aaaa a") (codes "aa"))
non_overlapping_match_offsets-Leftmost_example =
    non_overlapping_match_offsets-Leftmost (codes "aaaa a") (codes "aa") (λ e. cc)

first_gate_failure-none_iff_example :
    (first_gate_failure found_candidate records whole_corpus none none ≡ none) ↔ (
      (r : AuthoritativeEvidenceRecord) × (records found_candidate.evidence_id ≡ some r)
      × Admissible found_candidate r whole_corpus none none)
first_gate_failure-none_iff_example =
    first_gate_failure-none_iff found_candidate records whole_corpus none none

hydrate-Sound_example : All (Sound records whole_corpus none none two_candidates) hydrated.evidence
hydrate-Sound_example =
    hydrate-Sound repository two_candidates whole_corpus none none records refl records-IsKeyed
      hydrated hydrated_run

hydrate-Reported_example :
    All (Reported records whole_corpus none none two_candidates) hydrated.exclusions
hydrate-Reported_example =
    hydrate-Reported repository two_candidates whole_corpus none none records refl records-IsKeyed
      hydrated hydrated_run

manifesto-IsReleased : IsReleased manifesto
unfolding strip content_type_of date_precision_of text_eq
manifesto-IsReleased = record {
  corpus = refl;
  edition = refl;
  volume = refl;
  work = refl;
  work_verified = refl;
  section_verified = refl;
  text = λ e. cc;
  author = λ e. cc;
  work_title = λ e. cc;
  corpus_name = λ e. cc;
  edition_label = λ e. cc;
  volume_no = omega arith;
  content_type = refl;
  date_precision = refl;
}

to_public_evidence-IsQuotation_example :
    (e : Evidence) × (to_public_evidence found_candidate manifesto (some (codes "spectre")) ≡ ok e)
    × IsQuotation found_candidate manifesto (some (codes "spectre")) e
to_public_evidence-IsQuotation_example =
    to_public_evidence-IsQuotation found_candidate manifesto (some (codes "spectre"))
      manifesto-IsReleased
