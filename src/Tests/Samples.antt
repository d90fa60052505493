-- ===== src/Tests/Samples.antt =====
-- The records, candidates and scores of the tests.
use marx_engels_insight_matc.Base.{
  ℕ, ◌+◌, ◌/◌, ◌≡◌, refl, ap, sym, ◌∙◌, Text, codes, text_eq, text_eq_iff, Bool, true, false,
  Option, none, some, List, [], ◌∷◌, if◌then◌else◌,
}
use mathlib.Core.Path.{subst}
use marx_engels_insight_matc.Base.Compare.{compare_nat, compare_nat-IsOrder}
use marx_engels_insight_matc.Contracts.{
  SearchMode, SearchScope, SearchRequest, ReleaseInfo, document_order, Candidate, Evidence,
  SupportLabel, main_text, DatePrecision,
}
use marx_engels_insight_matc.Errors.{Result, ok, raise}
use marx_engels_insight_matc.Retrieval.Records.{
  AuthoritativeEvidenceRecord, Records, EvidenceRepository,
}
use marx_engels_insight_matc.Retrieval.Floats.{FloatOps, IsOrdered}
use marx_engels_insight_matc.Evidence.Service.Laws.{IsKeyed, IsFaithful}

abbrev add_all : List ℕ → ℕ
add_all [] = 0
add_all (x ∷ xs) = x + add_all xs

-- Scores in thousandths.
abbrev pub thousandths : FloatOps ℕ
thousandths = record {
  zero = 0;
  one = 1000;
  add = λ a b. a + b;
  reciprocal = λ n. 1000 / n;
  sum = add_all;
  divide = λ a n. a / n;
  negative_infinity = 0;
  compare = compare_nat;
}

pub thousandths-IsOrdered : IsOrdered thousandths
thousandths-IsOrdered = compare_nat-IsOrder

abbrev pub candidate : Text → Option SupportLabel → Option ℕ → Candidate ℕ
candidate id label score = record {
  evidence_id = id;
  retrieval_unit_ids = [];
  channels = codes "lexical" ∷ [];
  exact_match_count = none;
  lexical_rank = some 1;
  lexical_score = none;
  vector_rank = none;
  vector_score = none;
  fusion_score = none;
  rerank_score = score;
  support_label = label;
  text_hash = none;
  exclusion_reasons = [];
  rank_reasons = [];
}

abbrev pub whole_corpus : SearchScope
whole_corpus = record {
  corpus_ids = codes "mew" ∷ [];
  edition_ids = [];
  volume_ids = [];
  work_ids = [];
  authors = [];
  content_types = [];
}

abbrev pub manifesto : AuthoritativeEvidenceRecord
manifesto = record {
  evidence_id = codes "ev-1";
  verified_text = codes "a spectre is haunting Europe";
  text_hash = codes "h1";
  verification_status = codes "verified";
  release_status = codes "published";
  content_type = codes "main_text";
  author_code = codes "coauthored";
  author = codes "Marx and Engels";
  work_title = codes "Manifesto";
  corpus_id = codes "mew";
  corpus_name = codes "MEW";
  edition_id = codes "ed";
  edition_label = codes "first";
  volume_id = codes "v4";
  volume_no = 4;
  work_id = codes "w1";
  work_date_start = some (codes "1848");
  work_date_end = none;
  date_precision = codes "year";
  corpus_release_status = codes "published";
  edition_release_status = codes "published";
  volume_release_status = codes "published";
  work_release_status = codes "published";
  work_verification_status = codes "verified";
  section_verification_status = codes "verified";
  printed_pages = codes "461" ∷ [];
  pdf_pages = 480 ∷ [];
  page_mapping_statuses = codes "verified" ∷ [];
  prev_evidence_id = none;
  next_evidence_id = some (codes "ev-2");
  prev_is_released = false;
  next_is_released = false;
}

abbrev pub records : Records
records i = if text_eq i (codes "ev-1") then some manifesto else none

abbrev pub repository : EvidenceRepository
repository ids = ok records

abbrev id_of : Option AuthoritativeEvidenceRecord → Text
id_of none = []
id_of (some r) = r.evidence_id

pub records-IsKeyed : IsKeyed records
records-IsKeyed i r h = found (text_eq i (codes "ev-1")) refl h
  where
    found :
        (b : Bool)
        → text_eq i (codes "ev-1") ≡ b
        → (if b then some manifesto else none) ≡ some r
        → r.evidence_id ≡ i
    found true e g = ap id_of (sym g) ∙ sym ((text_eq_iff i (codes "ev-1")).0 e)
    found false e g = absurd (cc)

abbrev pub evidence : Text → Option Text → DatePrecision → Evidence
evidence id date precision = record {
  evidence_id = id;
  verified_text = codes "text";
  content_type = main_text;
  author = codes "Marx";
  work_title = codes "Work";
  corpus_name = codes "MEW";
  edition_label = codes "first";
  volume_no = 1;
  work_date_start = date;
  work_date_end = none;
  date_precision = precision;
  printed_pages = [];
  pdf_pages = [];
  prev_evidence_id = none;
  next_evidence_id = none;
  match_type = codes "lexical";
  support_label = none;
  rank_reasons = [];
  exact_match_count = none;
  match_offsets = [];
}

abbrev pub request : SearchMode → SearchRequest
request mode = record {
  query = codes " spectre ";
  mode = mode;
  scope = whole_corpus;
  sort = some document_order;
  cursor = none;
  page_size = 5;
  options = record { include_generated_summaries = false; include_counter_evidence = true };
}

abbrev pub release : ReleaseInfo
release = record {
  data_version = codes "1";
  index_version = none;
  embedding_model = none;
  released_at = none;
}

abbrev records_of : Result Records → Records
records_of (ok rs) = rs
records_of (raise e) = λ i. none

pub repository-IsFaithful : IsFaithful repository
repository-IsFaithful ids rs h = subst IsKeyed (ap records_of h) records-IsKeyed
