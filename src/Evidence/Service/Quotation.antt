-- ===== src/Evidence/Service/Quotation.antt =====
-- What `_to_public_evidence` quotes from the authority, and that it is total on released records.
use marx_engels_insight_matc.Base.{
  ◌≡◌, refl, Text, strip, length, is_empty, is_some, true, false, Option, none, some, [], ◌∷◌,
  arith,
}
use marx_engels_insight_matc.Errors.{ok}
use marx_engels_insight_matc.Contracts.{
  Candidate, Evidence, content_type_of, date_precision_of, accepts_evidence,
}
use marx_engels_insight_matc.Retrieval.Records.{AuthoritativeEvidenceRecord}
use marx_engels_insight_matc.Evidence.Gate.{is_exact_candidate}
use marx_engels_insight_matc.Evidence.Gate.Laws.{IsReleased, HasContent}
use marx_engels_insight_matc.Evidence.Service.{
  offsets_of, match_count_of, public_evidence, to_public_evidence,
}
use marx_engels_insight_matc.Evidence.Matching.Laws.{
  Leftmost, non_overlapping_match_offsets-Leftmost,
}

-- The public object repeats the record's text, source and neighbours that are released; only
-- the label, the reasons and the kind of match come from the candidate.
pub record IsQuotation {F : Type 0} (c : Candidate F) (r : AuthoritativeEvidenceRecord)
    (exact_query : Option Text) (e : Evidence) : Type 0 where
  pub evidence_id : e.evidence_id ≡ r.evidence_id
  pub verified_text : e.verified_text ≡ r.verified_text
  pub content_type : content_type_of r.content_type ≡ some e.content_type
  pub date_precision : date_precision_of r.date_precision ≡ some e.date_precision
  pub author : e.author ≡ r.author
  pub work_title : e.work_title ≡ r.work_title
  pub corpus_name : e.corpus_name ≡ r.corpus_name
  pub edition_label : e.edition_label ≡ r.edition_label
  pub volume_no : e.volume_no ≡ r.volume_no
  pub work_date_start : e.work_date_start ≡ r.work_date_start
  pub work_date_end : e.work_date_end ≡ r.work_date_end
  pub printed_pages : e.printed_pages ≡ r.printed_pages
  pub pdf_pages : e.pdf_pages ≡ r.pdf_pages
  pub hidden_prev : r.prev_is_released ≡ false → e.prev_evidence_id ≡ none
  pub shown_prev : r.prev_is_released ≡ true → e.prev_evidence_id ≡ r.prev_evidence_id
  pub hidden_next : r.next_is_released ≡ false → e.next_evidence_id ≡ none
  pub shown_next : r.next_is_released ≡ true → e.next_evidence_id ≡ r.next_evidence_id
  pub support_label : e.support_label ≡ c.support_label
  pub rank_reasons : e.rank_reasons ≡ c.rank_reasons
  pub exact_offsets :
      (query : Text)
      → exact_query ≡ some query
      → is_exact_candidate c ≡ true
      → HasContent query
      → Leftmost r.verified_text (strip query) 0 e.match_offsets
        × (e.exact_match_count ≡ some (length e.match_offsets))
  pub other_offsets :
      is_exact_candidate c ≡ false → (e.match_offsets ≡ []) × (e.exact_match_count ≡ none)
  pub accepted : accepts_evidence e ≡ true

content_not_empty : (t : Text) → HasContent t → is_empty t ≡ false
unfolding strip
content_not_empty [] h = absurd (h refl)
content_not_empty (c ∷ s) h = refl

module _ {F : Type 0} (c : Candidate F) (r : AuthoritativeEvidenceRecord)
    (exact_query : Option Text) where
  offsets_of-Leftmost :
      (query : Text)
      → exact_query ≡ some query
      → is_exact_candidate c ≡ true
      → HasContent query
      → Leftmost r.verified_text (strip query) 0 (offsets_of c r exact_query)
        × (match_count_of c r exact_query ≡ some (length (offsets_of c r exact_query)))
  unfolding offsets_of match_count_of
  offsets_of-Leftmost query e x h =
      rw (e, offsets_of, x, match_count_of)
        (non_overlapping_match_offsets-Leftmost r.verified_text (strip query) h, refl)

  offsets_of-other :
      is_exact_candidate c ≡ false
      → (offsets_of c r exact_query ≡ []) × (match_count_of c r exact_query ≡ none)
  unfolding offsets_of match_count_of
  offsets_of-other h = (ground arith, ground arith)

  -- Of a released record the public evidence is built, since it satisfies the constraints of the
  -- contract, and it quotes the record field by field.
  pub to_public_evidence-IsQuotation :
      IsReleased r
      → (e : Evidence) × (to_public_evidence c r exact_query ≡ ok e) × IsQuotation c r exact_query e
  unfolding to_public_evidence accepts_evidence
  to_public_evidence-IsQuotation rel =
      let (ct, hct) = find (content_type_of r.content_type) rel.content_type in
      let (dp, hdp) = find (date_precision_of r.date_precision) rel.date_precision in
      let text = content_not_empty r.verified_text rel.text in
      let vol = rel.volume_no in
      (
        public_evidence c r exact_query ct dp,
        ground (arith),
        record {
          evidence_id = refl;
          verified_text = refl;
          content_type = hct;
          date_precision = hdp;
          author = refl;
          work_title = refl;
          corpus_name = refl;
          edition_label = refl;
          volume_no = refl;
          work_date_start = refl;
          work_date_end = refl;
          printed_pages = refl;
          pdf_pages = refl;
          hidden_prev = λ h. rw h;
          shown_prev = λ h. rw h;
          hidden_next = λ h. rw h;
          shown_next = λ h. rw h;
          support_label = refl;
          rank_reasons = refl;
          exact_offsets = offsets_of-Leftmost;
          other_offsets = offsets_of-other;
          accepted = ground arith;
        },
      )
    where
      find : {A : Type 0} (o : Option A) → is_some o ≡ true → (a : A) × (o ≡ some a)
      find none h = absurd (cc)
      find (some a) h = (a, refl)
