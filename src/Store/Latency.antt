-- ===== src/Store/Latency.antt =====
-- internal/manager/store/store.go: the latency samples and their hourly statistics. A time is a
-- number of seconds. Where the query orders its rows, the caller sorts them again.
use synergia.Prelude.{
  ℕ, ◌+◌, ◌/◌, ℤ, pos, ◌+ℤ◌, String, Bool, true, false, ◌&&◌, ◌||◌, Option, none, some, List, [],
  ◌∷◌, str_eq, ltb, leb, ◌==◌, length, find?, map, if◌then◌else◌,
}
use mathlib.Core.Option
use synergia.Store.Models.{LatencySample, LatencyHourlyStat}
use synergia.Store.State.{Database, Store}
use synergia.Store.Workers.{by_fingerprint, update_workers}

-- COALESCE(MIN(payload_bytes), 0) and COALESCE(MAX(payload_bytes), 0)
abbrev pub min_payload : List ℕ → ℕ
min_payload [] = 0
min_payload (n ∷ []) = n
min_payload (n ∷ m ∷ ns) = let rest = min_payload (m ∷ ns) in if leb n rest then n else rest

abbrev pub max_payload : List ℕ → ℕ
max_payload [] = 0
max_payload (n ∷ ns) = let rest = max_payload ns in if leb rest n then n else rest

abbrev pub sum : List ℕ → ℕ
sum [] = 0
sum (n ∷ ns) = n + sum ns

-- The role that a query filters by; the empty role stands for all.
abbrev for_role : String → String → Bool
for_role role r = str_eq role "" || str_eq r role

-- Distinct("role")
abbrev insert_new : String → List String → List String
insert_new r [] = r ∷ []
insert_new r (t ∷ rs) = let rest = insert_new r rs in if str_eq t r then t ∷ rs else t ∷ rest

abbrev pub distinct : List String → List String
distinct [] = []
distinct (r ∷ rs) = insert_new r (distinct rs)

abbrev pub hour_seconds : ℕ
hour_seconds = 3600

module _ {D : Database} where
  unfoldable pub record_latency_sample : String → String → ℕ → ℤ → ℕ → Store D → Store D × Bool
  record_latency_sample fp role payload_bytes latency_ms now s =
      let (t, done) =
        D.samples.create
          (record {
            fingerprint = fp;
            role = role;
            payload_bytes = payload_bytes;
            latency_ms = latency_ms;
            created_at = now;
          })
          s.samples in
      let s' : Store D = record s { samples = t } in
      if done
      then update_workers (by_fingerprint fp)
          (λ w. record w {
            total_requests = w.total_requests +ℤ pos 1;
            total_latency_ms = w.total_latency_ms +ℤ latency_ms;
          })
          s'
      else (s', done)

  unfoldable pub get_latency_samples_in_range :
      ℕ → String → ℕ → ℕ → Store D → Option (List LatencySample)
  get_latency_samples_in_range since role min_bytes max_bytes s =
      D.samples.find
        (λ x.
          ltb since x.created_at
          && str_eq x.role role
          && leb min_bytes x.payload_bytes
          && (max_bytes == 0 || ltb x.payload_bytes max_bytes))
        s.samples

  -- Upsert of the aggregates over [hour, hour + 1h); the mean is rounded down. RowsAffected is 0 if
  -- the update failed or no row matched.
  unfoldable pub compute_hourly_stat : String → ℕ → Store D → Store D × Bool
  compute_hourly_stat role hour s =
      elim (D.samples.find
        (λ x. str_eq x.role role && leb hour x.created_at && ltb x.created_at (hour + hour_seconds))
        s.samples) [
          | none ↦ (s, false)
          | some xs ↦
              let sizes : List ℕ = map (λ x. x.payload_bytes) xs in
              let count : ℕ = length sizes in
              let stat : LatencyHourlyStat = record {
                role = role;
                hour = hour;
                count = count;
                min_payload_bytes = min_payload sizes;
                max_payload_bytes = max_payload sizes;
                mean_payload_bytes = sum sizes / count;
              } in
              let (updated, done) =
                D.hourly.update (λ h. str_eq h.role role && h.hour == hour)
                  (λ h. record h {
                    count = count;
                    min_payload_bytes = stat.min_payload_bytes;
                    max_payload_bytes = stat.max_payload_bytes;
                    mean_payload_bytes = stat.mean_payload_bytes;
                  })
                  s.hourly in
              let (created, done') = D.hourly.create stat updated in
              let affected : Bool =
                elim (find? (λ h. str_eq h.role role && h.hour == hour) (D.hourly.rows s.hourly)) [
                  | none ↦ false
                  | some _ ↦ done
                ] in
              if count == 0
              then (s, true)
              else if affected
              then (record s { hourly = updated }, done)
              else (record s { hourly = created }, done')
        ]

  unfoldable pub get_hourly_stats : ℕ → String → Store D → Option (List LatencyHourlyStat)
  get_hourly_stats since role s =
      D.hourly.find (λ h. leb since h.hour && for_role role h.role) s.hourly

  unfoldable pub get_distinct_roles : ℕ → Store D → Option (List String)
  get_distinct_roles since s =
      Option.map (λ hs. distinct (map (λ h. h.role) hs))
        (D.hourly.find (λ h. leb since h.hour) s.hourly)

  unfoldable pub get_distinct_sample_roles : ℕ → Store D → Option (List String)
  get_distinct_sample_roles since s =
      Option.map (λ xs. distinct (map (λ x. x.role) xs))
        (D.samples.find (λ x. ltb since x.created_at) s.samples)

  unfoldable pub get_sample_payload_range : ℕ → String → Store D → Option (ℕ × ℕ)
  get_sample_payload_range since role s =
      Option.map
        (λ xs.
          let sizes : List ℕ = map (λ x. x.payload_bytes) xs in
          (min_payload sizes, max_payload sizes))
        (D.samples.find (λ x. ltb since x.created_at && str_eq x.role role) s.samples)

  unfoldable pub purge_old_latency_data : ℕ → Store D → Store D × Bool
  purge_old_latency_data before s =
      let (t, done) = D.samples.delete (λ x. ltb x.created_at before) s.samples in
      let (h, done') = D.hourly.delete (λ x. ltb x.hour before) s.hourly in
      if done
      then (record s { samples = t; hourly = h }, done')
      else (record s { samples = t }, done)
