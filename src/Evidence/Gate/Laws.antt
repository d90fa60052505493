-- ===== src/Evidence/Gate/Laws.antt =====
-- What a candidate must satisfy to pass the gate, and that the gate tests exactly that.
use marx_engels_insight_matc.Base.{
  ℕ, Text, text_eq_iff, strip, is_empty, true, false, ◌||◌, Option, none, some, List, [], ◌∷◌, map,
  is_some, ◌≡◌, ◌≢◌, ◌⊎◌, inl, inr, ◌≤◌, ◌↔◌, refl, arith, Option-cases,
}
use marx_engels_insight_matc.Base.Unique.{contains}
use marx_engels_insight_matc.Contracts.{
  SearchScope, Candidate, ContentType, author_value, content_type_value, content_type_of,
  date_precision_of,
}
use marx_engels_insight_matc.Retrieval.Records.{AuthoritativeEvidenceRecord, Records}
use marx_engels_insight_matc.Evidence.Matching.Laws.{
  MatchesAt, non_overlapping_match_offsets-nonempty_iff,
}
use marx_engels_insight_matc.Evidence.Gate.{
  verified, published, outside, in_scope, is_blank, metadata_available, is_exact_candidate,
  is_vector_candidate, hash_differs, occurrence_failure, query_failure, exact_gate_failure,
  unauthorized, record_failure, first_gate_failure,
}

-- An optional filter: empty, or one of its members.
abbrev pub Selects : List Text → Text → Type 0
Selects ids x = (ids ≡ []) ⊎ (contains x ids ≡ true)

pub record InScope (r : AuthoritativeEvidenceRecord) (scope : SearchScope) : Type 0 where
  pub corpus : contains r.corpus_id scope.corpus_ids ≡ true
  pub edition : Selects scope.edition_ids r.edition_id
  pub volume : Selects scope.volume_ids r.volume_id
  pub work : Selects scope.work_ids r.work_id
  pub author : Selects (map author_value scope.authors) r.author_code
  pub content_type : Selects (map content_type_value scope.content_types) r.content_type

-- The text has a character that is not white space.
abbrev pub HasContent : Text → Type 0
HasContent t = strip t ≢ []

pub record IsReleased (r : AuthoritativeEvidenceRecord) : Type 0 where
  pub corpus : r.corpus_release_status ≡ published
  pub edition : r.edition_release_status ≡ published
  pub volume : r.volume_release_status ≡ published
  pub work : r.work_release_status ≡ published
  pub work_verified : r.work_verification_status ≡ verified
  pub section_verified : r.section_verification_status ≡ verified
  pub text : HasContent r.verified_text
  pub author : HasContent r.author
  pub work_title : HasContent r.work_title
  pub corpus_name : HasContent r.corpus_name
  pub edition_label : HasContent r.edition_label
  pub volume_no : 1 ≤ r.volume_no
  pub content_type : is_some (content_type_of r.content_type) ≡ true
  pub date_precision : is_some (date_precision_of r.date_precision) ≡ true

-- The caller's query, stripped, is a text that stands in the verified text of the record.
abbrev pub Quotes : Text → Option Text → Type 0
Quotes text none = ⊥
Quotes text (some query) = HasContent query × ((i : ℕ) × MatchesAt text (strip query) i)

abbrev pub Authorized : Option (List Text) → Text → Type 0
Authorized none i = Unit
Authorized (some pool) i = contains i pool ≡ true

pub record Admissible {F : Type 0} (c : Candidate F) (r : AuthoritativeEvidenceRecord)
    (scope : SearchScope) (allowed : Option (List Text)) (exact_query : Option Text) : Type 0 where
  pub authorized : Authorized allowed c.evidence_id
  pub verified_passage : r.verification_status ≡ verified
  pub published_passage : r.release_status ≡ published
  pub in_scope_of : InScope r scope
  pub same_hash : is_vector_candidate c ≡ true → c.text_hash ≡ some r.text_hash
  pub released : IsReleased r
  pub quotation : is_exact_candidate c ≡ true → Quotes r.verified_text exact_query

outside_iff : (x : Text) (ids : List Text) → (outside x ids ≡ false) ↔ Selects ids x
unfolding outside
outside_iff x [] = (λ _. inl refl, λ _. refl)
outside_iff x (i ∷ ids) = (λ h. inr (ground arith), λ h. ground arith)

is_blank_iff : (t : Text) → (is_blank t ≡ false) ↔ HasContent t
unfolding is_blank
is_blank_iff t = (λ h. ground arith, λ h. ground arith)

content_type_test :
    (x : Text) (cts : List ContentType)
    → ((is_empty cts || contains x (map content_type_value cts)) ≡ true)
      ↔ Selects (map content_type_value cts) x
content_type_test x [] = (λ _. inl refl, λ _. refl)
content_type_test x (c ∷ cts) = (λ h. inr h, λ h. ground arith)

module _ (r : AuthoritativeEvidenceRecord) (scope : SearchScope) where
  in_scope→InScope : in_scope r scope ≡ true → InScope r scope
  unfolding in_scope
  in_scope→InScope h = record {
    corpus = ground arith;
    edition = (outside_iff r.edition_id scope.edition_ids).0 (ground arith);
    volume = (outside_iff r.volume_id scope.volume_ids).0 (ground arith);
    work = (outside_iff r.work_id scope.work_ids).0 (ground arith);
    author = (outside_iff r.author_code (map author_value scope.authors)).0 (ground arith);
    content_type = (content_type_test r.content_type scope.content_types).0 (ground arith);
  }

  InScope→in_scope : InScope r scope → in_scope r scope ≡ true
  unfolding in_scope
  InScope→in_scope s = ground (
    arith,
    s.corpus,
    (outside_iff r.edition_id scope.edition_ids).1 s.edition,
    (outside_iff r.volume_id scope.volume_ids).1 s.volume,
    (outside_iff r.work_id scope.work_ids).1 s.work,
    (outside_iff r.author_code (map author_value scope.authors)).1 s.author,
    (content_type_test r.content_type scope.content_types).1 s.content_type,
  )

  -- The scope test selects by every filter that is not empty, and by the corpora always.
  pub in_scope_iff : (in_scope r scope ≡ true) ↔ InScope r scope
  in_scope_iff = (in_scope→InScope, InScope→in_scope)

module _ (r : AuthoritativeEvidenceRecord) where
  pub metadata_available→IsReleased : metadata_available r ≡ true → IsReleased r
  unfolding metadata_available
  metadata_available→IsReleased h = record {
    corpus = (text_eq_iff _ _).0 (ground arith);
    edition = (text_eq_iff _ _).0 (ground arith);
    volume = (text_eq_iff _ _).0 (ground arith);
    work = (text_eq_iff _ _).0 (ground arith);
    work_verified = (text_eq_iff _ _).0 (ground arith);
    section_verified = (text_eq_iff _ _).0 (ground arith);
    text = (is_blank_iff _).0 (ground arith);
    author = (is_blank_iff _).0 (ground arith);
    work_title = (is_blank_iff _).0 (ground arith);
    corpus_name = (is_blank_iff _).0 (ground arith);
    edition_label = (is_blank_iff _).0 (ground arith);
    volume_no = ground arith;
    content_type = ground arith;
    date_precision = ground arith;
  }

  pub IsReleased→metadata_available : IsReleased r → metadata_available r ≡ true
  unfolding metadata_available
  IsReleased→metadata_available m = ground (
    arith,
    (text_eq_iff r.corpus_release_status published).1 m.corpus,
    (text_eq_iff r.edition_release_status published).1 m.edition,
    (text_eq_iff r.volume_release_status published).1 m.volume,
    (text_eq_iff r.work_release_status published).1 m.work,
    (text_eq_iff r.work_verification_status verified).1 m.work_verified,
    (text_eq_iff r.section_verification_status verified).1 m.section_verified,
    (is_blank_iff r.verified_text).1 m.text,
    (is_blank_iff r.author).1 m.author,
    (is_blank_iff r.work_title).1 m.work_title,
    (is_blank_iff r.corpus_name).1 m.corpus_name,
    (is_blank_iff r.edition_label).1 m.edition_label,
    m.volume_no,
    m.content_type,
    m.date_precision,
  )

query_failure→Quotes : (text : Text) (q : Option Text) → query_failure text q ≡ none → Quotes text q
unfolding query_failure occurrence_failure
query_failure→Quotes text none h = cc
query_failure→Quotes text (some query) h =
    let both = (non_overlapping_match_offsets-nonempty_iff text (strip query)).0 (ground arith) in
    both

Quotes→query_failure : (text : Text) (q : Option Text) → Quotes text q → query_failure text q ≡ none
unfolding query_failure occurrence_failure
Quotes→query_failure text none h = absurd h
Quotes→query_failure text (some query) h =
    ground (arith, (non_overlapping_match_offsets-nonempty_iff text (strip query)).1 h, h.0)

pub hash_differs_iff : (o : Option Text) (t : Text) → (hash_differs o t ≡ false) ↔ (o ≡ some t)
hash_differs_iff none t = (λ h. cc, λ h. cc)
hash_differs_iff (some s) t =
    (λ h. ground (arith, text_eq_iff s t), λ h. ground (arith, text_eq_iff s t))

pub unauthorized_iff :
    (allowed : Option (List Text)) (i : Text)
    → (unauthorized allowed i ≡ false) ↔ Authorized allowed i
unauthorized_iff none i = (λ _. tt, λ _. refl)
unauthorized_iff (some pool) i = (λ h. ground arith, λ h. ground arith)

module _ {F : Type 0} (c : Candidate F) (r : AuthoritativeEvidenceRecord) (scope : SearchScope)
    (allowed : Option (List Text)) (exact_query : Option Text) where
  record_failure→Admissible :
      record_failure c r scope allowed exact_query ≡ none → Admissible c r scope allowed exact_query
  unfolding record_failure exact_gate_failure
  record_failure→Admissible h = record {
    authorized = (unauthorized_iff allowed c.evidence_id).0 (ground arith);
    verified_passage = (text_eq_iff _ _).0 (ground arith);
    published_passage = (text_eq_iff _ _).0 (ground arith);
    in_scope_of = in_scope→InScope r scope (ground arith);
    same_hash = λ v. (hash_differs_iff c.text_hash r.text_hash).0 (ground arith);
    released = metadata_available→IsReleased r (ground arith);
    quotation = λ x. query_failure→Quotes r.verified_text exact_query (ground arith);
  }

  Admissible→record_failure :
      Admissible c r scope allowed exact_query → record_failure c r scope allowed exact_query ≡ none
  unfolding record_failure exact_gate_failure
  Admissible→record_failure a = ground (
    arith,
    (unauthorized_iff allowed c.evidence_id).1 a.authorized,
    (text_eq_iff r.verification_status verified).1 a.verified_passage,
    (text_eq_iff r.release_status published).1 a.published_passage,
    InScope→in_scope r scope a.in_scope_of,
    same,
    IsReleased→metadata_available r a.released,
    quoted,
  )
    where
      same : is_vector_candidate c ≡ true → hash_differs c.text_hash r.text_hash ≡ false
      same v = (hash_differs_iff c.text_hash r.text_hash).1 (a.same_hash v)

      quoted : is_exact_candidate c ≡ true → query_failure r.verified_text exact_query ≡ none
      quoted x = Quotes→query_failure r.verified_text exact_query (a.quotation x)

module _ {F : Type 0} (c : Candidate F) (records : Records) (scope : SearchScope)
    (allowed : Option (List Text)) (exact_query : Option Text) where
  first_gate_failure→Admissible :
      first_gate_failure c records scope allowed exact_query ≡ none
      → (r : AuthoritativeEvidenceRecord) × (records c.evidence_id ≡ some r)
        × Admissible c r scope allowed exact_query
  unfolding first_gate_failure
  first_gate_failure→Admissible h = elim (Option-cases (records c.evidence_id)) [
    | inl n ↦ absurd (ground arith)
    | inr (r, y) ↦ (r, y, record_failure→Admissible c r scope allowed exact_query (ground arith))
  ]

  Admissible→first_gate_failure :
      (r : AuthoritativeEvidenceRecord)
      → records c.evidence_id ≡ some r
      → Admissible c r scope allowed exact_query
      → first_gate_failure c records scope allowed exact_query ≡ none
  unfolding first_gate_failure
  Admissible→first_gate_failure r y a =
      ground (arith, Admissible→record_failure c r scope allowed exact_query a)

  -- The gate lets a candidate pass exactly when the authority has a record of it that is
  -- admissible: authorized, verified, published, in the scope, with the candidate's hash if it
  -- was found by vectors, released with its metadata, and quoted if it was found exactly.
  pub first_gate_failure-none_iff :
      (first_gate_failure c records scope allowed exact_query ≡ none) ↔ (
        (r : AuthoritativeEvidenceRecord) × (records c.evidence_id ≡ some r)
        × Admissible c r scope allowed exact_query)
  first_gate_failure-none_iff =
      (first_gate_failure→Admissible, λ p. Admissible→first_gate_failure p.0 p.1 p.2)
