-- ===== src/Store/Status.antt =====
-- The status column of a worker under the operations of internal/manager/store/store.go.
use mathlib.Core.Option
use synergia.Prelude.{
  ◌≡◌, refl, ◌⊎◌, inl, inr, ◌≢◌, Bool-cases, ne_of_str_eq, Bool, true, false, ◌&&◌, Option, none,
  some, List, [], ◌∷◌, String, str_eq, eq_iff, if◌then◌else◌, arith,
}
use synergia.Table.Lists.{
  find?-holds, find?-modify, find?-modify_first_self, find?-modify_first_other,
}
use synergia.Store.Models.{Worker}
use synergia.Store.State.{Database, Store}
use synergia.Store.Workers.{
  by_fingerprint, unless_status, with_status, update_workers, save_worker, worker_at,
  set_worker_online_if_allowed, set_worker_offline, set_worker_available_if_processing,
  set_worker_status_if_not_withdrawn,
}

-- A write by test `p` and function `f`, as the row of one worker shows it.
abbrev pub Applied :
    (Worker → Bool) → (Worker → Worker) → Option Worker → Option Worker → Bool → Type 0
Applied p f before after done =
    ((done ≡ true) × (after ≡ Option.map (λ w. if p w then f w else w) before))
    ⊎ ((done ≡ false) × (after ≡ before))

key_kept :
    (k : String) (f : Worker → Worker)
    → ((w : Worker) → (f w).fingerprint ≡ w.fingerprint)
    → (w : Worker) → by_fingerprint k (f w) ≡ by_fingerprint k w
key_kept k f h w = ground (arith, h w)

distinct_keys :
    (fp k : String)
    → ¬ (fp ≡ k)
    → (w : Worker) → (by_fingerprint fp w && by_fingerprint k w) ≡ false
distinct_keys fp k h w = ground (arith, eq_iff w.fingerprint fp, eq_iff w.fingerprint k)

module _ {D : Database} (k : String) (s : Store D) where
  pub update_workers-Applied :
      (p : Worker → Bool) (f : Worker → Worker)
      → ((w : Worker) → (f w).fingerprint ≡ w.fingerprint)
      → Applied p f (worker_at k s) (worker_at k (update_workers p f s).0) (update_workers p f s).1
  update_workers-Applied p f h = ground (
    arith,
    D.workers.update_lem p f s.workers,
    find?-modify (by_fingerprint k) p f (D.workers.rows s.workers) (key_kept k f h),
  )

  pub save_worker-Applied :
      (fp : String) (f : Worker → Worker)
      → ((w : Worker) → (f w).fingerprint ≡ w.fingerprint)
      → Applied
          (by_fingerprint fp)
          f
          (worker_at k s)
          (worker_at k (save_worker (by_fingerprint fp) f s).0)
          (save_worker (by_fingerprint fp) f s).1
  save_worker-Applied fp f h = elim (Bool-cases (str_eq fp k)) [
    | inl e ↦
        let same : fp ≡ k = (eq_iff fp k).0 e in
        ground (
          arith,
          same,
          D.workers.save_lem (by_fingerprint fp) f s.workers,
          find?-modify_first_self (by_fingerprint k) f (D.workers.rows s.workers) (key_kept k f h),
        )
    | inr e ↦ ground (
      arith,
      D.workers.save_lem (by_fingerprint fp) f s.workers,
      find?-modify_first_other (by_fingerprint k) (by_fingerprint fp) f (D.workers.rows s.workers)
          (key_kept k f h) (distinct_keys fp k (ne_of_str_eq fp k e)),
    )
  ]

abbrev pub status_at : {D : Database} → String → Store D → Option String
status_at k s = Option.map (λ w. w.status) (worker_at k s)

-- What the gateway does to the status column: the end of a handshake, a disconnect, the end of a
-- work unit, and a status report.
pub data StatusWrite : Type 0 where
  online offline finished : String → StatusWrite
  report : String → String → StatusWrite

module _ {D : Database} where
  unfoldable pub apply : StatusWrite → Store D → Store D
  apply (online fp) s = set_worker_online_if_allowed fp s
  apply (offline fp) s = (set_worker_offline fp s).0
  apply (finished fp) s = set_worker_available_if_processing fp s
  apply (report fp status) s = set_worker_status_if_not_withdrawn fp status s

  unfoldable pub apply_all : List StatusWrite → Store D → Store D
  apply_all [] s = s
  apply_all (o ∷ os) s = apply_all os (apply o s)

-- No disconnect of worker `k`.
abbrev pub Connected : String → List StatusWrite → Type 0
Connected k [] = Unit {0}
Connected k (online fp ∷ os) = Connected k os
Connected k (offline fp ∷ os) = (fp ≢ k) × Connected k os
Connected k (finished fp ∷ os) = Connected k os
Connected k (report fp status ∷ os) = Connected k os

not_deleted : (t : String) → t ≡ "withdrawn" → str_eq t "deleted" ≡ false
not_deleted t e = rw e

-- A write that succeeds changes the row that it selects.
pub Applied-selected :
    (p : Worker → Bool) (f : Worker → Worker) (w : Worker) (before after : Option Worker)
    (done : Bool)
    → Applied p f before after done
    → before ≡ some w
    → done ≡ true
    → p w ≡ true
    → after ≡ some (f w)
Applied-selected p f w none after done a b d h = cc
Applied-selected p f w (some v) after done a b d h =
    let same : v ≡ w = Option.some-injective _ _ b in
    let sel : p v ≡ true = rw same h in ground (arith, same, sel)

module _ {D : Database} (k : String) (s : Store D) where
  pub write_selected :
      (p : Worker → Bool) (status : String) (w : Worker)
      → worker_at k s ≡ some w
      → (update_workers p (with_status status) s).1 ≡ true
      → p w ≡ true
      → worker_at k (update_workers p (with_status status) s).0 ≡ some (with_status status w)
  write_selected p status w =
      Applied-selected p (with_status status) w (worker_at k s)
        (worker_at k (update_workers p (with_status status) s).0)
        (update_workers p (with_status status) s).1
        (update_workers-Applied k s p (with_status status) (λ w. refl))

module _ {D : Database} (k : String) (s : Store D) where
  -- A disconnect and the next handshake take a worker whose status is "withdrawn" to "online"
  -- where both writes succeed.
  pub withdrawn_lost :
      (w : Worker)
      → worker_at k s ≡ some w
      → w.status ≡ "withdrawn"
      → (update_workers (unless_status k "deleted") (with_status "offline") s).1 ≡ true
      → (update_workers
          (unless_status k "withdrawn")
          (with_status "online")
          (apply (offline k) s)).1
        ≡ true
      → worker_at k (apply (online k) (apply (offline k) s)) ≡ some (with_status "online" w)
  unfolding apply set_worker_online_if_allowed set_worker_offline
  withdrawn_lost w e h o n =
      let key : by_fingerprint k w ≡ true =
        find?-holds (by_fingerprint k) (D.workers.rows s.workers) w e in
      let gone : worker_at k (apply (offline k) s) ≡ some (with_status "offline" w) =
        write_selected k s (unless_status k "deleted") "offline" w e o
          (ground (arith, key, not_deleted w.status h)) in
      write_selected k (apply (offline k) s) (unless_status k "withdrawn") "online"
        (with_status "offline" w) gone n (ground (arith, key))
