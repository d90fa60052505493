-- ===== src/Tests/Timeline.antt =====
-- A run of the timeline.
use marx_engels_insight_matc.Base.{
  ℕ, ◌-◌, ◌≡◌, codes, leb, Bool, ◌&&◌, none, some, List, [], ◌∷◌, if◌then◌else◌,
}
use marx_engels_insight_matc.Contracts.{Evidence, year, unknown, disputed}
use marx_engels_insight_matc.Errors.{ok}
use marx_engels_insight_matc.Pipelines.Timeline.Years.{CharacterDatabase}
use marx_engels_insight_matc.Pipelines.Timeline.Grouping.{Timeline}
use marx_engels_insight_matc.Base.{is_empty, not, Text}
use marx_engels_insight_matc.Base.Unique.{contains, count}
use marx_engels_insight_matc.Contracts.{Candidate}
use marx_engels_insight_matc.Pipelines.Timeline.Recall.{sanitize_reranked}
use marx_engels_insight_matc.Pipelines.Timeline.Recall.Laws.{ids, sanitize_reranked_lem}
use marx_engels_insight_matc.Tests.Samples.{candidate, evidence}

abbrev pub ascii_digit : ℕ → Bool
ascii_digit c = leb 48 c && leb c 57

abbrev pub ascii : CharacterDatabase
ascii = record {
  is_digit = ascii_digit;
  decimal = λ c. if ascii_digit c then some (c - 48) else none;
}

abbrev works : List Evidence
works =
    evidence (codes "a") (some (codes "1867-09-14")) year
    ∷ evidence (codes "b") none unknown
    ∷ evidence (codes "c") (some (codes "1848")) year
    ∷ evidence (codes "a") (some (codes "1867-09-14")) year
    ∷ evidence (codes "d") none disputed
    ∷ []

abbrev pool : List (Candidate ℕ)
pool = candidate (codes "a") none none ∷ candidate (codes "b") none none ∷ []

abbrev reranked : List (Candidate ℕ)
reranked =
    candidate (codes "b") none (some 800)
    ∷ candidate (codes "y") none (some 700)
    ∷ candidate (codes "b") none none
    ∷ []

sanitize_reranked_lem_example :
    (out : List (Candidate ℕ)) × ((sanitize_reranked reranked pool (ids pool) ≡ ok out)
      × ((i : Text)
          → count i (ids out) ≡ (
              if not (is_empty i) && contains i (ids pool) && contains i (ids reranked)
              then 1
              else 0)))
sanitize_reranked_lem_example = sanitize_reranked_lem reranked pool
