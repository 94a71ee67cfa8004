-- ===== src/Latency/Bootstrap.antt =====
-- The hourly aggregation of internal/manager/latency/monitor.go on a store without statistics.
use mathlib.Core.Option
use synergia.Prelude.{
  ℕ, ◌≡◌, ap, ◌∙◌, ◌⊎◌, inl, inr, [], map, filter, not, leb, ltb, Bool-cases, none, some,
}
use synergia.Store.State.{Database, Store}
use synergia.Store.Latency.{distinct, get_distinct_roles, purge_old_latency_data}
use synergia.Latency.Monitor.{Config, window_start, aggregate, aggregate_roles}

module _ {D : Database} where
  distinct_roles-empty :
      (since : ℕ) (s : Store D)
      → D.hourly.rows s.hourly ≡ []
      → (get_distinct_roles since s ≡ none) ⊎ (get_distinct_roles since s ≡ some [])
  unfolding get_distinct_roles
  distinct_roles-empty since s h = elim (D.hourly.find_lem (λ x. leb since x.hour) s.hourly) [
    | inl e ↦ inl (ap (Option.map (λ hs. distinct (map (λ x. x.role) hs))) e)
    | inr e ↦ inr (
        ap (Option.map (λ hs. distinct (map (λ x. x.role) hs)))
          (e ∙ ap (λ xs. some (filter (λ x. leb since x.hour) xs)) h))
  ]

  purge-empty :
      (before : ℕ) (s : Store D)
      → D.hourly.rows s.hourly ≡ []
      → D.hourly.rows (purge_old_latency_data before s).0.hourly ≡ []
  unfolding purge_old_latency_data
  purge-empty before s h =
      elim (Bool-cases (D.samples.delete (λ x. ltb x.created_at before) s.samples).1) [
        | inl e ↦
            rw (e, purge_old_latency_data)
              (elim (D.hourly.delete_lem (λ x. ltb x.hour before) s.hourly) [
                | inl (done, new) ↦ new ∙ ap (filter (λ x. not (ltb x.hour before))) h
                | inr (done, old) ↦ old ∙ h
              ])
        | inr e ↦ rw (e, purge_old_latency_data) h
      ]

  -- On a store without hourly statistics the aggregation makes none, whatever samples there are.
  pub aggregate_makes_none :
      (cfg : Config) (now : ℕ) (s : Store D)
      → D.hourly.rows s.hourly ≡ []
      → D.hourly.rows (aggregate cfg now s).hourly ≡ []
  unfolding aggregate aggregate_roles
  aggregate_makes_none cfg now s h = elim (distinct_roles-empty (window_start cfg now) s h) [
    | inl e ↦ rw (e, aggregate) h
    | inr e ↦ rw (e, aggregate) (purge-empty (window_start cfg now) s h)
  ]
