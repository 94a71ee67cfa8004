-- ===== src/Gateway/Selection.antt =====
-- Whom the dispatch functions of internal/manager/gateway/websocket.go choose.
use mathlib.Core.Option
use mathlib.Core.List.{Memᴰ}
use mathlib.Core.Path.{subst}
use synergia.Prelude.{
  ◌≡◌, refl, sym, ap, ◌∙◌, find?, Bool-cases, Option-cases, ◌⊎◌, inl, inr, ◌≢◌, Bool, true, false,
  ◌&&◌, ◌||◌, Option, none, some, List, [], ◌∷◌, ◌++◌, String, str_eq, eq_iff, arith,
}
use synergia.Protocol.{WorkUnit, work_unit}
use synergia.Table.{Table, is_found, failed, from_option}
use synergia.Table.Queries.{first-found}
use synergia.Store.Models.{Worker, WorkerConsent}
use synergia.Store.State.{Database, Store}
use synergia.Store.Workers.{is_worker_available, worker_llm_hash_matches}
use synergia.Store.Consents.{has_consent}
use synergia.Gateway.State.{WorkerInfo, WorkerConn, Env, Manager}
use synergia.Gateway.Dispatch.{
  dispatch_loop, sent_to, is_eligible, matches_hash, dispatch, dispatch_with_hash_check,
}

module _ (eligible writes : WorkerConn → Bool) where
  pub loop-some :
      (ws : List (String × WorkerConn)) (wc : WorkerConn)
      → dispatch_loop eligible writes ws ≡ some wc
      → (fp : String) × Memᴰ (fp, wc) ws × (eligible wc ≡ true) × (writes wc ≡ true)
  unfolding dispatch_loop
  loop-some [] wc h = cc
  loop-some ((fp, v) ∷ ws) wc h = elim (Bool-cases (eligible v && writes v)) [
    | inl e ↦
        let same : v ≡ wc = Option.some-injective _ _ (ground arith) in
        (
          fp,
          Memᴰ.head (ap (λ u. (fp, u)) (sym same)),
          rw (← same) (ground arith),
          rw (← same) (ground arith),
        )
    | inr e ↦ let (k, m, p, q) = loop-some ws wc (ground arith) in (k, Memᴰ.tail m, p, q)
  ]

  loop-none :
      (ws : List (String × WorkerConn)) (fp : String) (wc : WorkerConn)
      → dispatch_loop eligible writes ws ≡ none
      → Memᴰ (fp, wc) ws
      → (eligible wc && writes wc) ≡ false
  unfolding dispatch_loop
  loop-none [] fp wc h m = elim m [ ]
  loop-none ((k, v) ∷ ws) fp wc h (Memᴰ.head e) =
      let same : wc ≡ v = ap (λ (p : String × WorkerConn). p.1) e in rw same (ground arith)
  loop-none ((k, v) ∷ ws) fp wc h (Memᴰ.tail m) = loop-none ws fp wc (ground arith) m

-- The consent of a worker, as a row of the database.
abbrev pub Consented : {D : Database} → String → Store D → Type 0
Consented {D} fp s =
    (c : WorkerConsent) × Memᴰ c (D.consents.rows s.consents)
    × (c.fingerprint ≡ fp)
    × (c.accepted ≡ true)

-- Its readiness: its status, and that its model is in sync.
abbrev pub Ready : {D : Database} → String → Store D → Type 0
Ready {D} fp s =
    (w : Worker) × Memᴰ w (D.workers.rows s.workers)
    × (w.fingerprint ≡ fp)
    × ((w.status ≡ "available") ⊎ (w.status ≡ "online"))
    × (w.sync_status ≡ "synced")

module _ {R : Type 0} (p : R → Bool) where
  find?-some : (rs : List R) (r : R) → Memᴰ r rs → p r ≡ true → (t : R) × (find? p rs ≡ some t)
  find?-some [] r m h = elim m [ ]
  find?-some (t ∷ rs) r (Memᴰ.head e) h =
      let q : p t ≡ true = ap p (sym e) ∙ h in (t, ground (arith, q))
  find?-some (t ∷ rs) r (Memᴰ.tail m) h = elim (Bool-cases (p t)) [
    | inl e ↦ (t, ground (arith, e))
    | inr e ↦ let (u, q) = find?-some rs r m h in (u, ground (arith, e, q))
  ]

-- `First` does not fail on the table.
abbrev pub Reads : {R : Type 0} (T : Table R) → T.State → Type 0
Reads {R} T t = (p : R → Bool) → T.first p t ≢ failed

-- A row that meets the condition is found, where the table can be read.
first-is_found :
    {R : Type 0} (T : Table R) (t : T.State) (p : R → Bool) (r : R)
    → Reads T t
    → Memᴰ r (T.rows t)
    → p r ≡ true
    → is_found (T.first p t) ≡ true
first-is_found T t p r reads m h =
    let (u, e) = find?-some p (T.rows t) r m h in
    elim (T.first_lem p t) [
      | inl f ↦ absurd (reads p f)
      | inr f ↦ ap is_found (f ∙ ap from_option e)
    ]

module _ {D : Database} (fp : String) (s : Store D) where
  Consented-has_consent : Reads D.consents s.consents → Consented fp s → has_consent fp s ≡ true
  unfolding has_consent
  Consented-has_consent reads (c, m, same, accepted) =
      first-is_found D.consents s.consents (λ c. str_eq c.fingerprint fp && c.accepted) c reads m
        (ground (arith, accepted, same, eq_iff c.fingerprint fp))

  Ready-is_worker_available :
      Reads D.workers s.workers → Ready fp s → is_worker_available fp s ≡ true
  unfolding is_worker_available
  Ready-is_worker_available reads (w, m, same, status, sync) =
      first-is_found D.workers s.workers _ w reads m (
        ground (
          arith,
          status,
          sync,
          same,
          eq_iff w.fingerprint fp,
          eq_iff w.status "available",
          eq_iff w.status "online",
          eq_iff w.sync_status "synced",
        ))

  has_consent-Consented : has_consent fp s ≡ true → Consented fp s
  unfolding has_consent
  has_consent-Consented h =
      let (c, m, t) =
        first-found D.consents (λ c. str_eq c.fingerprint fp && c.accepted) s.consents h in
      (c, m, ground (arith, t, eq_iff c.fingerprint fp), ground (arith, t))

  is_worker_available-Ready : is_worker_available fp s ≡ true → Ready fp s
  unfolding is_worker_available
  is_worker_available-Ready h =
      let (w, m, t) = first-found D.workers _ s.workers h in
      (
        w,
        m,
        ground (arith, t, eq_iff w.fingerprint fp),
        ground (arith, t, eq_iff w.status "available", eq_iff w.status "online"),
        ground (arith, t, eq_iff w.sync_status "synced"),
      )

  worker_llm_hash_matches-reported :
      (hash : String)
      → worker_llm_hash_matches fp hash s ≡ true
      → (w : Worker) × Memᴰ w (D.workers.rows s.workers)
        × (w.fingerprint ≡ fp)
        × (w.llm_hash ≡ hash)
  unfolding worker_llm_hash_matches
  worker_llm_hash_matches-reported hash h =
      let (w, m, t) = first-found D.workers _ s.workers h in
      (w, m, ground (arith, t, eq_iff w.fingerprint fp), ground (arith, t, eq_iff w.llm_hash hash))

-- What the result of a dispatch says: the unit was written to one connection of a registered worker,
-- and nothing else was changed.
abbrev pub SentTo : {D : Database} → Env → WorkUnit → Manager D → Manager D → WorkerConn → Type 0
SentTo env unit m m' wc =
    ((fp : String) × Memᴰ (fp, wc) m.workers)
    × (env.write_json wc.conn (work_unit unit) ≡ true)
    × (m' ≡ record m { sent = m.sent ++ ((wc.conn, work_unit unit) ∷ []) })

module _ {D : Database} (env : Env) (unit : WorkUnit) (m : Manager D) where
  pub sent_to-some :
      (o : Option WorkerConn) (m' : Manager D) (info : WorkerInfo)
      → sent_to env unit o m ≡ (m', some info)
      → (wc : WorkerConn) × (o ≡ some wc)
        × (wc.info ≡ info)
        × (m' ≡ record m { sent = m.sent ++ ((wc.conn, work_unit unit) ∷ []) })
  sent_to-some none m' info h = cc
  sent_to-some (some wc) m' info h = (
    wc,
    refl,
    Option.some-injective _ _ (ap (λ (p : Manager D × Option WorkerInfo). p.1) h),
    sym (ap (λ (p : Manager D × Option WorkerInfo). p.0) h),
  )

  -- What a dispatch loop with guard `eligible` tells of the result of the dispatch.
  loop_sound :
      (eligible : WorkerConn → Bool) (info : WorkerInfo) (m' : Manager D)
      → sent_to env unit
          (dispatch_loop eligible (λ wc. env.write_json wc.conn (work_unit unit)) m.workers)
          m
        ≡ (m', some info)
      → (wc : WorkerConn) × (wc.info ≡ info) × SentTo env unit m m' wc × (eligible wc ≡ true)
  loop_sound eligible info m' h =
      let (wc, o, same, after) = sent_to-some _ m' info h in
      let (fp, mem, ok, sent) = loop-some eligible _ m.workers wc o in
      (wc, same, ((fp, mem), sent, after), ok)

  -- With a store, a dispatch that returns a worker's info has written the unit once, to a
  -- registered connection of that worker, which has an accepted consent and a ready, synced record
  -- in the database, and it has changed nothing else.
  pub dispatch_sound :
      (s : Store D) (info : WorkerInfo) (m' : Manager D)
      → m.store ≡ some s
      → dispatch env unit m ≡ (m', some info)
      → (wc : WorkerConn) × (wc.info ≡ info)
        × SentTo env unit m m' wc
        × Consented info.fingerprint s
        × Ready info.fingerprint s
  unfolding dispatch
  dispatch_sound s info m' hs h =
      let (wc, same, sent, ok) = loop_sound (is_eligible env m) info m' h in
      let known : (has_consent wc.info.fingerprint s && is_worker_available wc.info.fingerprint s)
          ≡ true =
        rw hs at ok in
      let fps : wc.info.fingerprint ≡ info.fingerprint =
        ap (λ (i : WorkerInfo). i.fingerprint) same in
      (
        wc,
        same,
        sent,
        subst (λ fp. Consented fp s) fps
            (has_consent-Consented wc.info.fingerprint s (ground arith)),
        subst (λ fp. Ready fp s) fps
            (is_worker_available-Ready wc.info.fingerprint s (ground arith)),
      )

  -- With a store whose consents and workers can be read, a dispatch finds a worker where the connection
  -- of some worker is registered and can be written to, and the database has an accepted consent and a
  -- ready, synced record of that worker.
  pub dispatch_complete :
      (s : Store D) (fp : String) (wc : WorkerConn)
      → m.store ≡ some s
      → Reads D.consents s.consents
      → Reads D.workers s.workers
      → Memᴰ (fp, wc) m.workers
      → env.write_json wc.conn (work_unit unit) ≡ true
      → Consented wc.info.fingerprint s
      → Ready wc.info.fingerprint s
      → (info : WorkerInfo) × ((dispatch env unit m).1 ≡ some info)
  unfolding dispatch
  dispatch_complete s fp wc hs consents workers mem writes consented ready =
      let writes_to : WorkerConn → Bool = λ v. env.write_json v.conn (work_unit unit) in
      elim (Option-cases (dispatch_loop (is_eligible env m) writes_to m.workers)) [
        | inr (v, e) ↦ (v.info, ap (λ o. (sent_to env unit o m).1) e)
        | inl e ↦
            let refused : is_eligible env m wc && writes_to wc ≡ false =
              loop-none (is_eligible env m) writes_to m.workers fp wc e mem in
            let c = Consented-has_consent wc.info.fingerprint s consents consented in
            let w = Ready-is_worker_available wc.info.fingerprint s workers ready in
            absurd (ground (arith, refused, hs, c, w, writes))
      ]

  -- With a store and an expected hash that is not empty, a dispatch with the hash check that
  -- returns a worker's info has written the unit once, to a registered connection of that worker,
  -- which has an accepted consent and has reported that hash. Its status is not asked for.
  pub dispatch_with_hash_check_sound :
      (expected : String) (s : Store D) (info : WorkerInfo) (m' : Manager D)
      → expected ≢ ""
      → m.store ≡ some s
      → dispatch_with_hash_check env unit expected m ≡ (m', some info)
      → (wc : WorkerConn) × (wc.info ≡ info)
        × SentTo env unit m m' wc
        × Consented info.fingerprint s
        × ((w : Worker) × Memᴰ w (D.workers.rows s.workers)
            × (w.fingerprint ≡ info.fingerprint)
            × (w.llm_hash ≡ expected))
  unfolding dispatch_with_hash_check
  dispatch_with_hash_check_sound expected s info m' ne hs h =
      let (wc, same, sent, ok) = loop_sound (matches_hash env expected m) info m' h in
      let known : (has_consent wc.info.fingerprint s
            && (str_eq expected "" || worker_llm_hash_matches wc.info.fingerprint expected s))
          ≡ true =
        rw hs at ok in
      let fps : wc.info.fingerprint ≡ info.fingerprint =
        ap (λ (i : WorkerInfo). i.fingerprint) same in
      (
        wc,
        same,
        sent,
        subst (λ fp. Consented fp s) fps
            (has_consent-Consented wc.info.fingerprint s (ground arith)),
        subst
            (λ fp.
              (w : Worker) × Memᴰ w (D.workers.rows s.workers)
              × (w.fingerprint ≡ fp)
              × (w.llm_hash ≡ expected))
            fps
            (worker_llm_hash_matches-reported wc.info.fingerprint s expected
              (ground (arith, eq_iff expected ""))),
      )
