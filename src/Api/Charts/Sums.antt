-- ===== src/Api/Charts/Sums.antt =====
-- What the points of a chart add up to.
use mathlib.Core.Path.{subst}
use integrated_work.Prelude.{
  ℕ, ◌+◌, ◌≤◌, ◌≡◌, refl, ap, sym, ◌∙◌, Option, none, some, List, [], ◌∷◌, map, All, if◌then◌else◌,
  arith, Bool-cases, inl, inr,
}
use integrated_work.Text.{Text, text_eq}
use integrated_work.Dict.{Dict, get, put, keys}
use integrated_work.Dict.Laws.{Distinct, put-Distinct, put-All}
use integrated_work.Api.Charts.{
  Response, Row, Bucket, empty_bucket, or_empty, is_failure, add_latency, add_failure, add_response,
  bucket_at, bucket_time, timestamp, point, Point, add_row, add_rows, chart,
}

-- The sum of a measure.
abbrev pub total {ℓ} : {V : Type ℓ} → (V → ℕ) → List V → ℕ
total f [] = 0
total f (v ∷ vs) = f v + total f vs

-- 1 for a row with a response, and for one whose response is a failure.
abbrev pub answered : Row → ℕ
answered row = elim row.response [ none ↦ 0 | some r ↦ 1 ]

abbrev pub failing : Row → ℕ
failing row = elim row.response [ none ↦ 0 | some r ↦ if is_failure r then 1 else 0 ]

add_response-sums :
    (o : Option Response) (b : Bucket)
    → ((add_response o b).requests ≡ b.requests + (elim o [ none ↦ 0 | some r ↦ 1 ]))
      × ((add_response o b).failures
          ≡ b.failures + (elim o [ none ↦ 0 | some r ↦ if is_failure r then 1 else 0 ]))
unfolding add_response add_latency add_failure
add_response-sums none b = (omega arith, omega arith)
add_response-sums (some r) b = ground arith

total-put :
    (f : Bucket → ℕ) (k : Text) (v : Bucket) (d : Dict Bucket)
    → f empty_bucket ≡ 0
    → total (λ (p : Text × Bucket). f p.1) (put k v d) + f (bucket_at k d)
      ≡ total (λ (p : Text × Bucket). f p.1) d + f v
unfolding put bucket_at get
total-put f k v [] e = omega (arith, e)
total-put f k v ((j, w) ∷ d) e = ground (arith, total-put f k v d e)

bucket_at-All :
    (P : Bucket → Type 0) (k : Text) (d : Dict Bucket)
    → P empty_bucket
    → All (λ (p : Text × Bucket). P p.1) d
    → P (bucket_at k d)
unfolding bucket_at get or_empty
bucket_at-All P k [] e h = e
bucket_at-All P k ((j, w) ∷ d) e h = elim (Bool-cases (text_eq j k)) [
  | inl x ↦ rw (x, bucket_at) h.0
  | inr x ↦ rw (x, bucket_at) (bucket_at-All P k d e h.1)
]

total-map :
    {A B : Type 0} (f : B → ℕ) (g : A → B) (xs : List A)
    → total f (map g xs) ≡ total (λ x. f (g x)) xs
total-map f g [] = refl
total-map f g (x ∷ xs) = omega (arith, total-map f g xs)

abbrev Fewer : Bucket → Type 0
Fewer b = b.failures ≤ b.requests

add_response-Fewer : (o : Option Response) (b : Bucket) → Fewer b → Fewer (add_response o b)
unfolding add_response add_latency add_failure
add_response-Fewer none b h = h
add_response-Fewer (some r) b h = ground arith

module _ (label : ℕ → Text) (now : ℕ) where
  total-add_rows :
      (f : Bucket → ℕ) (m : Row → ℕ)
      → f empty_bucket ≡ 0
      → ((row : Row) (b : Bucket) → f (add_response row.response b) ≡ f b + m row)
      → (rows : List Row) (d : Dict Bucket)
      → total (λ (p : Text × Bucket). f p.1) (add_rows label now rows d)
        ≡ total (λ (p : Text × Bucket). f p.1) d + total m rows
  unfolding add_rows add_row
  total-add_rows f m e h [] d = omega arith
  total-add_rows f m e h (row ∷ rows) d =
      let name = label (bucket_time (timestamp now row)) in
      let b = bucket_at name d in
      let after = put name (add_response row.response b) d in
      omega (
        arith,
        total-add_rows f m e h rows after,
        total-put f name (add_response row.response b) d e,
        h row b,
      )

  add_rows-Fewer :
      (rows : List Row) (d : Dict Bucket)
      → All (λ (p : Text × Bucket). Fewer p.1) d
      → All (λ (p : Text × Bucket). Fewer p.1) (add_rows label now rows d)
  unfolding add_rows add_row
  add_rows-Fewer [] d h = h
  add_rows-Fewer (row ∷ rows) d h =
      let name = label (bucket_time (timestamp now row)) in
      add_rows-Fewer rows _ (
        put-All Fewer name _ d
          (add_response-Fewer row.response (bucket_at name d)
            (bucket_at-All Fewer name d (omega arith) h))
          h)

  add_rows-Distinct :
      (rows : List Row) (d : Dict Bucket)
      → Distinct (keys d)
      → Distinct (keys (add_rows label now rows d))
  unfolding add_rows add_row
  add_rows-Distinct [] d h = h
  add_rows-Distinct (row ∷ rows) d h = add_rows-Distinct rows _ (put-Distinct _ _ d h)

  names-chart : (d : Dict Bucket) → map (λ (p : Point). p.name) (map point d) ≡ keys d
  unfolding keys point
  names-chart [] = refl
  names-chart (p ∷ d) = ap (λ ks. p.0 ∷ ks) (names-chart d)

  Fewer-chart :
      (d : Dict Bucket)
      → All (λ (p : Text × Bucket). Fewer p.1) d
      → All (λ (p : Point). p.failures ≤ p.requests) (map point d)
  unfolding point
  Fewer-chart [] h = tt
  Fewer-chart (p ∷ d) h = (h.0, Fewer-chart d h.1)

  -- The points of a chart have different names and no more failures than requests each. Together their
  -- requests are the rows that have a response, and their failures those whose response is a failure.
  pub total-chart :
      (rows : List Row)
      → (total (λ (p : Point). p.requests) (chart label now rows) ≡ total answered rows)
        × (total (λ (p : Point). p.failures) (chart label now rows) ≡ total failing rows)
        × All (λ (p : Point). p.failures ≤ p.requests) (chart label now rows)
        × Distinct (map (λ (p : Point). p.name) (chart label now rows))
  unfolding chart point keys
  total-chart rows =
      let d = add_rows label now rows [] in
      (
        total-map (λ (p : Point). p.requests) point d
            ∙ total-add_rows (λ b. b.requests) answered refl
                (λ row b. (add_response-sums row.response b).0) rows []
            ∙ omega arith,
        total-map (λ (p : Point). p.failures) point d
            ∙ total-add_rows (λ b. b.failures) failing refl
                (λ row b. (add_response-sums row.response b).1) rows []
            ∙ omega arith,
        Fewer-chart d (add_rows-Fewer rows [] tt),
        subst Distinct (sym (names-chart d)) (add_rows-Distinct rows [] tt),
      )
