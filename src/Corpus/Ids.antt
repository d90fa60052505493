-- ===== src/Corpus/Ids.antt =====
-- packages/marx_engels/corpus_registry/ids.py.
use marx_engels_insight_matc.Base.{
  Text, codes, ℕ, ◌≤◌, ltb, take, ◌||◌, ◌==◌, ◌≡◌, refl, [], ◌∷◌, ◌++◌, if◌then◌else◌, All, arith,
}
use marx_engels_insight_matc.Base.Decimal.{to_decimal, padded, padded-injective, All-padded}
use marx_engels_insight_matc.Ingestion.Failures.{
  Attempt, done, failed, and_then, value_error, key_error,
}

abbrev pub expected_volume_count : ℕ
expected_volume_count = 10

unfoldable pub volume_id : ℕ → Attempt Text
volume_id volume_number =
    if ltb volume_number 1 || ltb expected_volume_count volume_number
    then failed (value_error (codes "volume_number must be 1-10, got " ++ to_decimal volume_number))
    else done (codes "mecw_cn_2009_v" ++ padded 2 volume_number)

unfoldable pub source_uri : ℕ → Text
source_uri volume_number = codes "internal://corpus/mecw/v" ++ padded 2 volume_number

unfoldable pub source_record_id : Text → Text → Text
source_record_id volume sha256 = codes "src_" ++ (volume ++ codes "_" ++ take 16 sha256)

unfoldable pub chunk_id : ℕ → ℕ → ℕ → Text → Text
chunk_id volume_number start_page end_page source_sha256 =
    codes "chunk_v"
    ++ (padded 2 volume_number
        ++ (b'_' ∷ padded 4 start_page
            ++ (b'_' ∷ padded 4 end_page ++ (b'_' ∷ take 12 source_sha256))))

-- `CHINESE_NUMERALS[volume_number]`
unfoldable pub chinese_numeral : ℕ → Attempt Text
chinese_numeral n =
    if n == 1
    then done (codes "一")
    else if n == 2
    then done (codes "二")
    else if n == 3
    then done (codes "三")
    else if n == 4
    then done (codes "四")
    else if n == 5
    then done (codes "五")
    else if n == 6
    then done (codes "六")
    else if n == 7
    then done (codes "七")
    else if n == 8
    then done (codes "八")
    else if n == 9
    then done (codes "九")
    else if n == 10
    then done (codes "十")
    else failed (key_error (to_decimal n))

unfoldable pub expected_filename : ℕ → Attempt Text
unfolding chinese_numeral
expected_filename volume_number =
    and_then (chinese_numeral volume_number)
      (λ numeral. done (codes "马克思恩格斯文集第" ++ (numeral ++ codes "卷.pdf")))

-- The digits up to the first underscore.
until_underscore :
    (s t r u : Text)
    → All (λ c. c ≤ 57) s
    → All (λ c. c ≤ 57) t
    → s ++ 95 ∷ r ≡ t ++ 95 ∷ u
    → (s ≡ t) × (r ≡ u)
until_underscore [] [] r u hs ht h = (refl, cc)
until_underscore [] (d ∷ t) r u hs ht h = let e : 95 ≡ d = cc in absurd (omega (arith, ht.0))
until_underscore (c ∷ s) [] r u hs ht h = let e : c ≡ 95 = cc in absurd (omega (arith, hs.0))
until_underscore (c ∷ s) (d ∷ t) r u hs ht h =
    let rest : s ++ 95 ∷ r ≡ t ++ 95 ∷ u = cc in
    let (e, f) = until_underscore s t r u hs.1 ht.1 rest in (cc, f)

-- A chunk identifier determines the volume, the two pages and the twelve characters of the hash.
pub chunk_id-injective :
    (v s e : ℕ) (h : Text) (w t f : ℕ) (k : Text)
    → chunk_id v s e h ≡ chunk_id w t f k
    → (v ≡ w) × (s ≡ t) × (e ≡ f) × (take 12 h ≡ take 12 k)
unfolding chunk_id
chunk_id-injective v s e h w t f k p =
    let (pv, p1) =
      until_underscore (padded 2 v) (padded 2 w) _ _ (All-padded 2 v) (All-padded 2 w) (cc) in
    let (ps, p2) =
      until_underscore (padded 4 s) (padded 4 t) _ _ (All-padded 4 s) (All-padded 4 t) p1 in
    let (pe, p3) =
      until_underscore (padded 4 e) (padded 4 f) _ _ (All-padded 4 e) (All-padded 4 f) p2 in
    (padded-injective 2 v w pv, padded-injective 4 s t ps, padded-injective 4 e f pe, p3)
