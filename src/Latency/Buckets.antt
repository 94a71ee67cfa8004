-- ===== src/Latency/Buckets.antt =====
-- internal/manager/latency/monitor.go: bucket boundaries, bucket ranges and percentiles. Sizes and
-- counts are natural numbers. There are no floats: `scaled d n k` stands for
-- int(math.Round(float64(d) / float64(n) * float64(k))).
use synergia.Prelude.{
  ℕ, zero, suc, ◌+◌, ◌-◌, ◌*◌, ◌/◌, ℤ, pos, le_ℤ, List, [], ◌∷◌, map, ltb, leb, ◌==◌, length,
  get_elem?, none, some, if◌then◌else◌, ◌||◌,
}
use synergia.Store.Models.{LatencyHourlyStat}
use synergia.Store.Latency.{sum}

abbrev pub get_or : {A : Type 0} → List A → ℕ → A → A
get_or xs i d = elim (get_elem? xs i) [ none ↦ d | some x ↦ x ]

-- bounds[i], for i from `i` on, `n` of them
abbrev pub bounds_from : (ℕ → ℕ) → ℕ → ℕ → List ℕ
bounds_from f i zero = []
bounds_from f i (suc n) = f i ∷ bounds_from f (suc i) n

-- An empty list stands for nil.
unfoldable pub compute_bounds_from_range : (ℕ → ℕ → ℕ → ℕ) → ℕ → ℕ → ℕ → List ℕ
compute_bounds_from_range scaled min_payload max_payload bucket_count =
    if leb bucket_count 1 || leb max_payload min_payload
    then []
    else bounds_from (λ i. min_payload + scaled (max_payload - min_payload) bucket_count (i + 1)) 0
        (bucket_count - 1)

unfoldable pub compute_bounds : (ℕ → ℕ → ℕ → ℕ) → List LatencyHourlyStat → ℕ → List ℕ
compute_bounds scaled stats bucket_count =
    let avg_min = sum (map (λ s. s.min_payload_bytes) stats) / length stats in
    let avg_max = sum (map (λ s. s.max_payload_bytes) stats) / length stats in
    if length stats == 0 || leb bucket_count 1
    then []
    else if leb avg_max avg_min
    then []
    else bounds_from (λ i. avg_min + scaled (avg_max - avg_min) bucket_count (i + 1)) 0
        (bucket_count - 1)

-- The payload range of bucket `i`, from the first up to but not including the second; a second of
-- 0 is unbounded.
unfoldable pub bucket_range : List ℕ → ℕ → ℕ × ℕ
bucket_range bounds i =
    if i == 0
    then (0, get_or bounds 0 0)
    else if ltb i (length bounds)
    then (get_or bounds (i - 1) 0, get_or bounds i 0)
    else (get_or bounds (length bounds - 1) 0, 0)

-- sort.Slice over the latencies
abbrev pub insert : ℤ → List ℤ → List ℤ
insert x [] = x ∷ []
insert x (y ∷ ys) = let rest = insert x ys in if le_ℤ x y then x ∷ y ∷ ys else y ∷ rest

abbrev pub sort : List ℤ → List ℤ
sort [] = []
sort (x ∷ xs) = insert x (sort xs)

unfoldable pub percentile : List ℤ → ℕ → ℤ
percentile sorted pct =
    let idx = length sorted * pct / 100 in
    if length sorted == 0
    then pos 0
    else if leb (length sorted) idx
    then get_or sorted (length sorted - 1) (pos 0)
    else get_or sorted idx (pos 0)
