-- ===== src/Latency/Tests.antt =====
-- Percentiles, buckets and aggregation of internal/manager/latency/monitor.go on small data.
use synergia.Prelude.{ℕ, ℤ, pos, ◌≡◌, refl, List, [], ◌∷◌}
use synergia.Store.Models.{LatencySample}
use synergia.Store.State.{Store, memory, empty_store}
use synergia.Latency.Monitor.{Config, BucketStats, bucket_stats, aggregate}
use synergia.Latency.Bootstrap.{aggregate_makes_none}

abbrev latencies : List ℤ
latencies = pos 90 ∷ pos 10 ∷ pos 40 ∷ []

abbrev sample : ℕ → ℤ → LatencySample
sample size latency = record {
  fingerprint = "aabbccddeeff";
  role = "inference";
  payload_bytes = size;
  latency_ms = latency;
  created_at = 50;
}

-- Three samples and no hourly statistics.
abbrev sampled : Store memory
sampled = record empty_store {
  samples = sample 0 (pos 9) ∷ sample 10 (pos 4) ∷ sample 700 (pos 8) ∷ [];
}

-- The buckets up to 10, up to 20 and above.
abbrev counted : List BucketStats
counted =
    bucket_stats (0, 10) (sample 0 (pos 9) ∷ [])
    ∷ bucket_stats (10, 20) (sample 10 (pos 4) ∷ [])
    ∷ bucket_stats (20, 0) (sample 700 (pos 8) ∷ [])
    ∷ []

abbrev defaults : Config
defaults = record { bucket_count = 5; window_hours = 24 }

aggregate_makes_none_example : (aggregate defaults 7200 sampled).hourly ≡ []
aggregate_makes_none_example = aggregate_makes_none defaults 7200 sampled refl
