-- ===== src/Store/Verdict.antt =====
-- What the sync status of a worker says (UpdateWorkerSyncStatus of internal/manager/store/store.go).
use mathlib.Core.List.{Memᴰ}
use mathlib.Core.Path.{subst}
use synergia.Prelude.{
  ◌≡◌, refl, sym, ap, ◌∙◌, ◌⊎◌, inl, inr, ◌≢◌, true, not, ◌&&◌, none, some, List, [], ◌∷◌, String,
  str_eq, eq_iff, Bool-cases, Outcome, returns, panics, hangs, len, ◌<◌, filter, arith,
}
use synergia.Table.{Found, found, missing, failed}
use synergia.Table.Queries.{first-row, find?-Memᴰ}
use synergia.Store.Models.{Worker, RoleModel}
use synergia.Store.State.{Database, Store}
use synergia.Store.Workers.{by_fingerprint, update_workers, worker_at}
use synergia.Table.Lists.{find?-holds}
use synergia.Store.Status.{Applied-selected, update_workers-Applied}
use synergia.Store.Sync.{
  configured_role, all_rows, compute_llm_hash, any_role_matches, decide_sync, sync_verdict,
  record_verdict, set_sync_status, update_worker_sync_status,
}

synced_ne : ◌≢◌ {A = String} "out-of-sync" "synced"
synced_ne = ground (arith, eq_iff "out-of-sync" "synced")

filter_all : {R : Type 0} (rs : List R) → filter (λ (r : R). true) rs ≡ rs
filter_all [] = refl
filter_all (r ∷ rs) = ap (λ t. r ∷ t) (filter_all rs)

-- Some role with a known model file vouches for the hash.
abbrev pub Vouched : (String → String) → String → List RoleModel → Type 0
Vouched sha256_hex llm_hash rs =
    (r : RoleModel) × Memᴰ r rs
    × (r.model_file_hash ≢ "")
    × (llm_hash ≡ compute_llm_hash sha256_hex r.role r.model_file_hash)

module _ (sha256_hex : String → String) (llm_hash : String) where
  any_role-Vouched :
      (rs : List RoleModel)
      → any_role_matches sha256_hex llm_hash rs ≡ true
      → Vouched sha256_hex llm_hash rs
  unfolding any_role_matches
  any_role-Vouched [] h = cc
  any_role-Vouched (r ∷ rs) h =
      elim (Bool-cases (
        not (str_eq r.model_file_hash "")
        && str_eq llm_hash (compute_llm_hash sha256_hex r.role r.model_file_hash))) [
          | inl e ↦ (
            r,
            Memᴰ.head refl,
            ground (arith, eq_iff r.model_file_hash ""),
            ground (arith, eq_iff llm_hash (compute_llm_hash sha256_hex r.role r.model_file_hash)),
          )
          | inr e ↦
              let (t, m, known, same) = any_role-Vouched rs (ground arith) in
              (t, Memᴰ.tail m, known, same)
        ]

  Vouched-any_role :
      (rs : List RoleModel)
      → Vouched sha256_hex llm_hash rs
      → any_role_matches sha256_hex llm_hash rs ≡ true
  unfolding any_role_matches
  Vouched-any_role [] (r, m, known, same) = elim m [ ]
  Vouched-any_role (t ∷ rs) (r, Memᴰ.head e, known, same) =
      let role : t.role ≡ r.role = ap (λ (x : RoleModel). x.role) (sym e) in
      let file : t.model_file_hash ≡ r.model_file_hash =
        ap (λ (x : RoleModel). x.model_file_hash) (sym e) in
      ground (
        arith,
        role,
        file,
        eq_iff t.model_file_hash "",
        eq_iff llm_hash (compute_llm_hash sha256_hex t.role t.model_file_hash),
      )
  Vouched-any_role (t ∷ rs) (r, Memᴰ.tail m, known, same) =
      ground (arith, Vouched-any_role rs (r, m, known, same))

-- The branches of the comparison that say "synced".
decide_sync-synced :
    (sha256_hex : String → String) (role : String) (rm : Found RoleModel) (all : List RoleModel)
    (fp : String) (w : Worker)
    → decide_sync sha256_hex role rm all fp w ≡ returns "synced"
    → ((r : RoleModel) × (rm ≡ found r)
        × ((r.model_file_hash ≡ "")
            ⊎ ((r.model_file_hash ≢ "")
                × (w.llm_hash ≡ compute_llm_hash sha256_hex role r.model_file_hash))))
      ⊎ (any_role_matches sha256_hex w.llm_hash all ≡ true)
unfolding decide_sync
decide_sync-synced sha256_hex role (found r) all fp w h =
    elim (Bool-cases (any_role_matches sha256_hex w.llm_hash all)) [
      | inl e ↦ inr e
      | inr e ↦ inl (
        r,
        refl,
        ground (
          arith,
          e,
          eq_iff r.model_file_hash "",
          eq_iff w.llm_hash (compute_llm_hash sha256_hex role r.model_file_hash),
          synced_ne,
        ),
      )
    ]
decide_sync-synced sha256_hex role missing all fp w h = inr (ground (arith, synced_ne))
decide_sync-synced sha256_hex role failed all fp w h = inr (ground (arith, synced_ne))

module _ {D : Database} (sha256_hex : String → String) (fp : String) (w : Worker)
    (s : Store D) where
  abbrev role_of : String
  role_of = configured_role (D.configs.first (λ c. str_eq c.fingerprint fp) s.configs)

  -- "synced" is only said of a worker whose role has a model with no known file, so that there is
  -- nothing to enforce, or whose hash some role vouches for.
  pub sync_verdict_sound :
      sync_verdict sha256_hex fp w s ≡ returns "synced"
      → ((rm : RoleModel) × Memᴰ rm (D.roles.rows s.roles)
          × (rm.role ≡ role_of)
          × (rm.model_file_hash ≡ ""))
        ⊎ Vouched sha256_hex w.llm_hash (D.roles.rows s.roles)
  unfolding sync_verdict
  sync_verdict_sound h = elim (decide_sync-synced sha256_hex role_of rm all fp w h) [
    | inl (r, e, inl empty) ↦ let (m, same) = read r e in inl (r, m, same, empty)
    | inl (r, e, inr (known, hash)) ↦ let (m, same) = read r e in inr (r, m, known, rw same hash)
    | inr any ↦ elim (D.roles.find_lem (λ _. true) s.roles) [
      | inl e ↦ absurd (ground (arith, e, any))
      | inr e ↦ inr (
          subst (Vouched sha256_hex w.llm_hash) (ap all_rows e ∙ filter_all (D.roles.rows s.roles))
            (any_role-Vouched sha256_hex w.llm_hash all any))
    ]
  ]
    where
      rm : Found RoleModel
      rm = D.roles.first (λ r. str_eq r.role role_of) s.roles

      all : List RoleModel
      all = all_rows (D.roles.find (λ _. true) s.roles)

      read : (r : RoleModel) → rm ≡ found r → Memᴰ r (D.roles.rows s.roles) × (r.role ≡ role_of)
      read r e =
          let (m, t) =
            find?-Memᴰ (λ (r : RoleModel). str_eq r.role role_of) (D.roles.rows s.roles) r
              (first-row D.roles (λ r. str_eq r.role role_of) s.roles r e) in
          (m, (eq_iff r.role role_of).0 t)

  -- A reported hash that some role vouches for is "synced" where the roles can be read, whatever
  -- the worker's own role is.
  pub sync_verdict_complete :
      w.llm_hash ≢ ""
      → D.roles.find (λ _. true) s.roles ≢ none
      → Vouched sha256_hex w.llm_hash (D.roles.rows s.roles)
      → sync_verdict sha256_hex fp w s ≡ returns "synced"
  unfolding sync_verdict
  sync_verdict_complete reported readable v = elim (D.roles.find_lem (λ _. true) s.roles) [
    | inl e ↦ absurd (readable e)
    | inr e ↦
        let any : any_role_matches sha256_hex w.llm_hash
              (all_rows (D.roles.find (λ _. true) s.roles))
            ≡ true =
          rw (e, filter_all) (Vouched-any_role sha256_hex w.llm_hash (D.roles.rows s.roles) v) in
        ground (arith, any, eq_iff w.llm_hash "")
  ]

-- Where the worker and its role's model can be read, and the hash of the model's file is known, a
-- stored hash of the worker that is not empty, has fewer than 16 bytes and is not "synced" makes
-- UpdateWorkerSyncStatus panic: the debug log slices it.
pub short_hash_panics :
    {D : Database} (sha256_hex : String → String) (fp : String) (w : Worker) (rm : RoleModel)
    (s : Store D)
    → D.workers.first (by_fingerprint fp) s.workers ≡ found w
    → D.roles.first
        (λ r.
          str_eq r.role
            (configured_role (D.configs.first (λ c. str_eq c.fingerprint fp) s.configs)))
        s.roles
      ≡ found rm
    → rm.model_file_hash ≢ ""
    → w.llm_hash ≢ ""
    → len w.llm_hash < 16
    → sync_verdict sha256_hex fp w s ≢ returns "synced"
    → update_worker_sync_status sha256_hex fp s ≡ panics
unfolding update_worker_sync_status sync_verdict
short_hash_panics sha256_hex fp w rm s hw hr known reported short no_match =
    ground (arith, hw, hr, eq_iff rm.model_file_hash "", eq_iff w.llm_hash "")

recorded :
    {D : Database} (fp status : String) (s s' : Store D) (v : Outcome String)
    → record_verdict fp s v ≡ returns (s', status)
    → set_sync_status fp status s ≡ s'
recorded fp status s s' (returns t) h = ground arith
recorded fp status s s' panics h = cc
recorded fp status s s' hangs h = cc

-- Where the worker can be read and the one write succeeds, the status that UpdateWorkerSyncStatus
-- returns is the sync status of the worker's row, which is otherwise unchanged.
pub sync_status_recorded :
    {D : Database} (sha256_hex : String → String) (fp status : String) (w : Worker) (s s' : Store D)
    → D.workers.first (by_fingerprint fp) s.workers ≡ found w
    → (update_workers (by_fingerprint fp) (λ w. record w { sync_status = status }) s).1 ≡ true
    → update_worker_sync_status sha256_hex fp s ≡ returns (s', status)
    → worker_at fp s' ≡ some (record w { sync_status = status })
unfolding update_worker_sync_status
sync_status_recorded {D} sha256_hex fp status w s s' hw done h =
    let row : worker_at fp s ≡ some w = first-row D.workers (by_fingerprint fp) s.workers w hw in
    let written : set_sync_status fp status s ≡ s' =
      recorded fp status s s' (sync_verdict sha256_hex fp w s)
        (rw (hw, update_worker_sync_status) at h) in
    subst (λ t. worker_at fp t ≡ some (record w { sync_status = status })) written
      (Applied-selected (by_fingerprint fp) (λ w. record w { sync_status = status }) w
        (worker_at fp s) _ _
        (update_workers-Applied fp s (by_fingerprint fp) (λ w. record w { sync_status = status })
          (λ w. refl))
        row done (find?-holds (by_fingerprint fp) _ w row))
