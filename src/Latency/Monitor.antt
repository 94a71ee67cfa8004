-- ===== src/Latency/Monitor.antt =====
-- internal/manager/latency/monitor.go: the monitor over the store. A time is a number of seconds;
-- one before the epoch reads as 0.
use synergia.Prelude.{
  ℕ, zero, suc, ◌-◌, ◌*◌, ◌/◌, ℤ, String, not, Option, none, some, List, [], ◌∷◌, map, ltb, str_eq,
  length, if◌then◌else◌,
}
use synergia.Store.Models.{LatencySample}
use synergia.Store.State.{Database, Store}
use synergia.Store.Latency.{
  hour_seconds, record_latency_sample, get_latency_samples_in_range, get_hourly_stats,
  get_distinct_roles, get_distinct_sample_roles, get_sample_payload_range, compute_hourly_stat,
  purge_old_latency_data,
}
use synergia.Latency.Buckets.{
  compute_bounds, compute_bounds_from_range, bucket_range, sort, percentile,
}

pub record Config : Type 0 where
  pub bucket_count : ℕ
  pub window_hours : ℕ

pub record BucketStats : Type 0 where
  pub range_min : ℕ
  pub range_max : ℕ
  pub count : ℕ
  pub p50_ms : ℤ
  pub p95_ms : ℤ
  pub p99_ms : ℤ

pub record RoleMatrix : Type 0 where
  pub role : String
  pub window_hours : ℕ
  pub bucket_count : ℕ
  pub bounds : List ℕ
  pub matrix : List BucketStats

unfoldable pub set_config : Config → Config → Config
set_config cfg old = record {
  bucket_count = if ltb 0 cfg.bucket_count then cfg.bucket_count else old.bucket_count;
  window_hours = if ltb 0 cfg.window_hours then cfg.window_hours else old.window_hours;
}

infixl 5 ◌>>=◌
abbrev ◌>>=◌ : {A B : Type 0} → Option A → (A → Option B) → Option B
none >>= f = none
some a >>= f = f a

unfoldable pub bucket_stats : ℕ × ℕ → List LatencySample → BucketStats
unfolding percentile
bucket_stats (min_bytes, max_bytes) samples =
    let latencies = sort (map (λ s. s.latency_ms) samples) in
    record {
      range_min = min_bytes;
      range_max = max_bytes;
      count = length samples;
      p50_ms = percentile latencies 50;
      p95_ms = percentile latencies 95;
      p99_ms = percentile latencies 99;
    }

abbrev pub window_start : Config → ℕ → ℕ
window_start cfg now = now - cfg.window_hours * hour_seconds

module _ {D : Database} where
  unfoldable pub record_sample : String → String → ℕ → ℤ → ℕ → Store D → Store D
  unfolding record_latency_sample
  record_sample fp role payload_bytes latency_ms now s =
      (record_latency_sample fp role payload_bytes latency_ms now s).0

  -- The buckets from `i` on, `n` of them.
  unfoldable pub matrix_from : ℕ → String → List ℕ → ℕ → ℕ → Store D → Option (List BucketStats)
  unfolding get_latency_samples_in_range bucket_range
  matrix_from since role bounds i zero s = some []
  matrix_from since role bounds i (suc n) s = do
    let range = bucket_range bounds i
    samples ← get_latency_samples_in_range since role range.0 range.1 s
    rest ← matrix_from since role bounds (suc i) n s
    some (bucket_stats range samples ∷ rest)

  unfoldable pub role_bounds : (ℕ → ℕ → ℕ → ℕ) → String → Config → ℕ → Store D → Option (List ℕ)
  unfolding get_hourly_stats get_sample_payload_range compute_bounds compute_bounds_from_range
  role_bounds scaled role cfg since s = do
    stats ← get_hourly_stats since role s
    elim stats [
      | [] ↦ do
        (min_payload, max_payload) ← get_sample_payload_range since role s
        some (compute_bounds_from_range scaled min_payload max_payload cfg.bucket_count)
      | h ∷ hs ↦ some (compute_bounds scaled (h ∷ hs) cfg.bucket_count)
    ]

  unfoldable pub compute_role_matrix :
      (ℕ → ℕ → ℕ → ℕ) → String → Config → ℕ → Store D → Option RoleMatrix
  unfolding matrix_from role_bounds
  compute_role_matrix scaled role cfg since s = do
    bounds ← role_bounds scaled role cfg since s
    let effective : ℕ = elim bounds [ [] ↦ 1 | _ ∷ _ ↦ cfg.bucket_count ]
    matrix ← matrix_from since role bounds 0 effective s
    some (record {
      role = role;
      window_hours = cfg.window_hours;
      bucket_count = cfg.bucket_count;
      bounds = bounds;
      matrix = matrix;
    })

  unfoldable pub matrices :
      (ℕ → ℕ → ℕ → ℕ) → Config → ℕ → Store D → List String → Option (List RoleMatrix)
  unfolding compute_role_matrix
  matrices scaled cfg since s [] = some []
  matrices scaled cfg since s (r ∷ rs) = do
    m ← compute_role_matrix scaled r cfg since s
    ms ← matrices scaled cfg since s rs
    some (m ∷ ms)

  -- The roles of the hourly statistics, or of the raw samples where there are none.
  unfoldable pub matrix_roles : String → ℕ → Store D → Option (List String)
  unfolding get_distinct_roles get_distinct_sample_roles
  matrix_roles role since s = if not (str_eq role "") then some (role ∷ []) else do
    roles ← get_distinct_roles since s
    elim roles [ [] ↦ get_distinct_sample_roles since s | r ∷ rs ↦ some (r ∷ rs) ]

  unfoldable pub compute_matrix :
      (ℕ → ℕ → ℕ → ℕ) → String → Config → ℕ → Store D → Option (List RoleMatrix)
  unfolding matrices matrix_roles
  compute_matrix scaled role cfg now s = do
    let since = window_start cfg now
    roles ← matrix_roles role since s
    matrices scaled cfg since s roles

  unfoldable pub aggregate_roles : List String → ℕ → Store D → Store D
  unfolding compute_hourly_stat
  aggregate_roles [] hour s = s
  aggregate_roles (r ∷ rs) hour s = aggregate_roles rs hour (compute_hourly_stat r hour s).0

  -- One run of the hourly aggregation.
  unfoldable pub aggregate : Config → ℕ → Store D → Store D
  unfolding get_distinct_roles aggregate_roles purge_old_latency_data
  aggregate cfg now s = elim (get_distinct_roles (window_start cfg now) s) [
    | none ↦ s
    | some roles ↦
        (purge_old_latency_data (window_start cfg now)
          (aggregate_roles roles (now / hour_seconds * hour_seconds - hour_seconds) s)).0
  ]
