-- ===== src/Latency/Partition.antt =====
-- The buckets of internal/manager/latency/monitor.go share out the samples of a role.
use synergia.Prelude.{
  ℕ, zero, suc, ◌+◌, ◌≤◌, Bool, ◌&&◌, ◌||◌, List, [], ◌∷◌, String, str_eq, leb, ltb, ◌==◌,
}
use synergia.Store.Models.{LatencySample}
use synergia.Store.State.{Store}
use synergia.Latency.Buckets.{get_or}
use synergia.Latency.Monitor.{BucketStats}

-- No boundary is below `a` or below the one before it.
abbrev pub Rising : ℕ → List ℕ → Type 0
Rising a [] = Unit {0}
Rising a (b ∷ bs) = (a ≤ b) × Rising b bs

-- The lower end of bucket `i`, where the first begins at `a`.
abbrev low : ℕ → List ℕ → ℕ → ℕ
low a bs zero = a
low a bs (suc i) = get_or bs i 0

-- The samples that the queries of a role read: those after `since`, from `lo` bytes on.
abbrev pub from_size : ℕ → String → ℕ → LatencySample → Bool
from_size since role lo x = ltb since x.created_at && str_eq x.role role && leb lo x.payload_bytes

abbrev in_range : ℕ → String → ℕ → ℕ → LatencySample → Bool
in_range since role lo hi x =
    ltb since x.created_at
    && str_eq x.role role
    && leb lo x.payload_bytes
    && (hi == 0 || ltb x.payload_bytes hi)

abbrev pub total : List BucketStats → ℕ
total [] = 0
total (b ∷ bs) = b.count + total bs
