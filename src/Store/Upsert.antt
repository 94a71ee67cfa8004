-- ===== src/Store/Upsert.antt =====
-- What UpsertWorker of internal/manager/store/store.go leaves of the worker records.
use mathlib.Core.Path.{subst}
use synergia.Prelude.{
  ℕ, ◌≡◌, refl, sym, ap, inl, inr, true, none, some, String, str_eq, eq_iff, List, [], ◌∷◌, ◌++◌,
  find?, modify_first, arith,
}
use synergia.Table.{Found-cases}
use synergia.Table.Lists.{
  Keyed, find?-append, find?-holds, find?-modify_first_self, append-Keyed, modify_first-Keyed,
}
use synergia.Table.Queries.{first-row, first-none, written}
use synergia.Store.Models.{Worker}
use synergia.Store.State.{Database, Store}
use synergia.Store.Workers.{by_fingerprint, new_worker, refresh_worker, upsert_worker, worker_at}

abbrev pub worker_rows : {D : Database} → Store D → List Worker
worker_rows {D} s = D.workers.rows s.workers

-- Each fingerprint has one row at most, and `fp` has the row `w`.
abbrev pub Upserted : String → Worker → List Worker → Type 0
Upserted fp w ws =
    Keyed (λ (v : Worker). v.fingerprint) ws × (find? (by_fingerprint fp) ws ≡ some w)

module _ (fp : String) (ws : List Worker) (u : Keyed (λ (v : Worker). v.fingerprint) ws) where
  append-Upserted :
      (w : Worker)
      → w.fingerprint ≡ fp
      → find? (by_fingerprint fp) ws ≡ none
      → Upserted fp w (ws ++ (w ∷ []))
  append-Upserted w same new = (
    append-Keyed (λ v. v.fingerprint) ws w u (rw same new),
    ground (arith, find?-append (by_fingerprint fp) ws w, new, same, eq_iff w.fingerprint fp),
  )

  modify_first-Upserted :
      (f : Worker → Worker) (w : Worker)
      → ((v : Worker) → (f v).fingerprint ≡ v.fingerprint)
      → find? (by_fingerprint fp) ws ≡ some w
      → Upserted fp (f w) (modify_first (by_fingerprint fp) f ws)
  modify_first-Upserted f w same row = (
    modify_first-Keyed (λ v. v.fingerprint) (by_fingerprint fp) f same ws u,
    ground (
      arith,
      find?-modify_first_self (by_fingerprint fp) f ws (λ v. ap (λ k. str_eq k fp) (same v)),
      find?-holds (by_fingerprint fp) ws w row,
      row,
    ),
  )

module _ {D : Database} (fp pk model quant version os arch : String) (now : ℕ) (s : Store D) where
  -- UpsertWorker, where it succeeds and no fingerprint had two rows, leaves one row for the worker: a
  -- new one if it had none, and otherwise its row with the reported model, version and system and the
  -- time refreshed, and its key, status, hashes and counters kept. No fingerprint then has two rows.
  pub upsert_worker_recorded :
      Keyed (λ (v : Worker). v.fingerprint) (worker_rows s)
      → (upsert_worker fp pk model quant version os arch now s).1 ≡ true
      → Upserted fp
          (elim (worker_at fp s) [
            | none ↦ new_worker fp pk model quant version os arch now
            | some w ↦ refresh_worker model quant version os arch now w
          ])
          (worker_rows (upsert_worker fp pk model quant version os arch now s).0)
  unfolding upsert_worker new_worker refresh_worker
  upsert_worker_recorded u h = elim (Found-cases (D.workers.first (by_fingerprint fp) s.workers)) [
    | inl (w, e) ↦
        let f : Worker → Worker = refresh_worker model quant version os arch now in
        let done : (D.workers.save (by_fingerprint fp) f s.workers).1 ≡ true =
          ground (arith, e, h) in
        let row : find? (by_fingerprint fp) (worker_rows s) ≡ some w =
          first-row D.workers (by_fingerprint fp) s.workers w e in
        rw (e, row, upsert_worker)
          (subst (Upserted fp (f w))
            (sym (written (D.workers.save_lem (by_fingerprint fp) f s.workers) done))
            (modify_first-Upserted fp (worker_rows s) u f w (λ v. refl) row))
    | inr (inl e) ↦
        let w : Worker = new_worker fp pk model quant version os arch now in
        let done : (D.workers.create w s.workers).1 ≡ true = ground (arith, e, h) in
        let row : find? (by_fingerprint fp) (worker_rows s) ≡ none =
          first-none D.workers (by_fingerprint fp) s.workers e in
        rw (e, row, upsert_worker)
          (subst (Upserted fp w) (sym (written (D.workers.create_lem w s.workers) done))
            (append-Upserted fp (worker_rows s) u w refl row))
    | inr (inr e) ↦ absurd (ground (arith, e, h))
  ]
