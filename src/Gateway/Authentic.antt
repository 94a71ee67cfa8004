-- ===== src/Gateway/Authentic.antt =====
-- Whom ServeHTTP of internal/manager/gateway/websocket.go lets in.
use synergia.Prelude.{
  ℕ, ◌≡◌, refl, ap, ◌∙◌, ◌⊎◌, inl, inr, ◌≢◌, true, Option, none, some, String, str_eq, str_append,
  eq_iff, length, Bool-cases, ne_of_str_eq, Option-cases, Outcome, returns, panics, hangs, ◌>>=◌,
  arith,
}
use synergia.Protocol.{SignedResponse}
use synergia.Store.State.{Database, Store}
use synergia.Gateway.State.{
  Bytes, WorkerConn, Gateway, Env, Manager, lookup, insert, verify_or_register_key,
}
use synergia.Gateway.Keys.{lookup-insert, first_use}
use synergia.Gateway.Handshake.{
  worker_conn, Reply, no_reply, invalid, signed, Request, Served, connected, signature_ok,
  do_challenge, persist_worker, register_worker, admit, upgrade, serve_http,
}

-- The worker has signed the nonce of the challenge with the key that it presents.
abbrev pub Proved : Env → Request → Bytes → Type 0
Proved env r pub_key =
    (nonce : Bytes) × (resp : SignedResponse) × (sig : Bytes) × (r.nonce ≡ some nonce)
    × (r.reply ≡ signed resp)
    × (resp.nonce ≡ env.base64_encode nonce)
    × (env.base64_decode resp.signature ≡ some sig)
    × (env.verify pub_key nonce sig ≡ true)

-- Key mode wants the shared key, and TOFU mode the proof.
abbrev pub Authorised : Env → Request → Bytes → String → Type 0
Authorised env r pub_key worker_key =
    ((worker_key ≢ "") × (r.authorization ≡ str_append "Bearer " worker_key))
    ⊎ ((worker_key ≡ "") × Proved env r pub_key)

signature_ok-Proved :
    (env : Env) (r : Request) (pub_key nonce : Bytes) (reply : Reply)
    → r.nonce ≡ some nonce
    → r.reply ≡ reply
    → signature_ok env pub_key nonce reply ≡ true
    → Proved env r pub_key
signature_ok-Proved env r pub_key nonce no_reply hn hr h = cc
signature_ok-Proved env r pub_key nonce invalid hn hr h = cc
signature_ok-Proved env r pub_key nonce (signed resp) hn hr h =
    elim (Option-cases (env.base64_decode resp.signature)) [
      | inl e ↦ absurd (ground (arith, e, h))
      | inr (sig, e) ↦ (
        nonce,
        resp,
        sig,
        hn,
        hr,
        ground (arith, h, eq_iff resp.nonce (env.base64_encode nonce)),
        e,
        ground (arith, h, e),
      )
    ]

module _ {D : Database} (env : Env) (r : Request) where
  challenge-Proved :
      (conn : ℕ) (pub_key : Bytes) (nonce : Option Bytes) (m : Manager D)
      → r.nonce ≡ nonce
      → (do_challenge env conn pub_key nonce r.reply m).1 ≡ true
      → Proved env r pub_key
  unfolding do_challenge
  challenge-Proved conn pub_key none m hn h = cc
  challenge-Proved conn pub_key (some nonce) m hn h =
      signature_ok-Proved env r pub_key nonce r.reply hn refl (ground arith)

  challenge-gateway :
      (conn : ℕ) (pub_key : Bytes) (nonce : Option Bytes) (m : Manager D)
      → (do_challenge env conn pub_key nonce r.reply m).0.gateway ≡ m.gateway
  unfolding do_challenge
  challenge-gateway conn pub_key none m = refl
  challenge-gateway conn pub_key (some nonce) m = ground arith

  persisted-connected :
      (o : Outcome (Store D)) (wc wc' : WorkerConn) (m m' : Manager D)
      → ◌>>=◌ {B = Manager D × Served} o
          (λ s'. returns (record m { store = some s' }, connected wc))
        ≡ returns (m', connected wc')
      → (wc' ≡ wc) × (m'.gateway ≡ m.gateway)
  persisted-connected (returns s) wc wc' m m' h = ground arith
  persisted-connected panics wc wc' m m' h = cc
  persisted-connected hangs wc wc' m m' h = cc

  admit-connected :
      (wc wc' : WorkerConn) (m m' : Manager D)
      → admit env r wc m ≡ returns (m', connected wc')
      → (wc' ≡ wc) × (m'.gateway ≡ (register_worker wc m).gateway)
  unfolding admit
  admit-connected wc wc' m m' h = elim (Option-cases m.store) [
    | inl e ↦ ground (arith, e)
    | inr (s, e) ↦
        persisted-connected (persist_worker env r s) wc wc' (register_worker wc m) m' (rw e at h)
  ]

  -- What the upgrade of a connected worker shows, for the gateway `g` before it.
  abbrev Entered : Bytes → String → Gateway → Manager D → WorkerConn → Type 0
  Entered pub_key worker_key g m' wc =
      (wc.info.fingerprint ≡ r.fingerprint)
      × (wc.info.public_key ≡ pub_key)
      × (m'.gateway ≡ record g { workers = insert r.fingerprint wc g.workers })
      × ((worker_key ≢ "") ⊎ ((worker_key ≡ "") × Proved env r pub_key))

  entered :
      (conn : ℕ) (pub_key : Bytes) (worker_key : String) (m m' : Manager D) (g : Gateway)
      (wc : WorkerConn)
      → m.gateway ≡ g
      → admit env r (worker_conn r conn pub_key) m ≡ returns (m', connected wc)
      → (worker_key ≢ "") ⊎ ((worker_key ≡ "") × Proved env r pub_key)
      → Entered pub_key worker_key g m' wc
  unfolding register_worker
  entered conn pub_key worker_key m m' g wc hg h who =
      let (same, gate) = admit-connected (worker_conn r conn pub_key) wc m m' h in
      rw same (
        refl,
        refl,
        gate
            ∙ ap
                (λ (g : Gateway). record g {
                  workers = insert r.fingerprint (worker_conn r conn pub_key) g.workers;
                })
                hg,
        who,
      )

  upgrade-Entered :
      (pub_key : Bytes) (worker_key : String) (m m' : Manager D) (wc : WorkerConn)
      → upgrade env r pub_key worker_key m ≡ returns (m', connected wc)
      → Entered pub_key worker_key m.gateway m' wc
  unfolding upgrade
  upgrade-Entered pub_key worker_key m m' wc h = elim (Option-cases r.upgraded) [
    | inl e ↦ absurd (ground (arith, e, h))
    | inr (conn, e) ↦ elim (Bool-cases (str_eq worker_key "")) [
      | inr keyed ↦
          entered conn pub_key worker_key m m' m.gateway wc refl (ground (arith, e, keyed, h))
            (inl (ne_of_str_eq worker_key "" keyed))
      | inl tofu ↦ elim (Bool-cases (do_challenge env conn pub_key r.nonce r.reply m).1) [
        | inl proved ↦
            entered conn pub_key worker_key (do_challenge env conn pub_key r.nonce r.reply m).0 m'
              m.gateway wc (challenge-gateway conn pub_key r.nonce m)
              (ground (arith, e, tofu, proved, h))
              (inr (
                (eq_iff worker_key "").0 tofu,
                challenge-Proved conn pub_key r.nonce m refl proved,
              ))
        | inr denied ↦ absurd (ground (arith, e, tofu, denied, h))
      ]
    ]
  ]

  -- The checks of the headers that a request passes which reaches the upgrade.
  accepted_headers :
      (m m' : Manager D) (wc : WorkerConn)
      → serve_http env r m ≡ returns (m', connected wc)
      → ((m.worker_key ≡ "") ⊎ (r.authorization ≡ str_append "Bearer " m.worker_key))
        × ((pub_key : Bytes) × (env.base64_decode r.public_key ≡ some pub_key)
            × (length pub_key ≡ 32)
            × (r.fingerprint ≡ env.sha256_bytes_hex pub_key)
            × ((verify_or_register_key r.fingerprint pub_key m.gateway).1 ≡ true)
            × (upgrade env r pub_key m.worker_key (record m {
              gateway = (verify_or_register_key r.fingerprint pub_key m.gateway).0;
            })
                ≡ returns (m', connected wc)))
  unfolding serve_http
  accepted_headers m m' wc h = elim (Option-cases (env.base64_decode r.public_key)) [
    | inl e ↦ absurd (ground (arith, e, h))
    | inr (pub_key, e) ↦ (
      ground (
        arith,
        h,
        eq_iff m.worker_key "",
        eq_iff r.authorization (str_append "Bearer " m.worker_key),
      ),
      (
        pub_key,
        e,
        ground (arith, e, h),
        ground (arith, e, h, eq_iff r.fingerprint (env.sha256_bytes_hex pub_key)),
        ground (arith, e, h),
        ground (arith, e, h),
      ),
    )
  ]

  -- A connection whose read loop is started belongs to a worker that presented a public key of 32
  -- bytes with its SHA-256 as the fingerprint, and that, in key mode, knew the shared key or, in TOFU
  -- mode, signed the nonce of the challenge with that key. The connection is then the registered one
  -- of the fingerprint, and the key is the one on file.
  pub serve_http_authentic :
      (m m' : Manager D) (wc : WorkerConn)
      → serve_http env r m ≡ returns (m', connected wc)
      → (pub_key : Bytes) × (env.base64_decode r.public_key ≡ some pub_key)
        × (length pub_key ≡ 32)
        × (wc.info.fingerprint ≡ env.sha256_bytes_hex pub_key)
        × (wc.info.public_key ≡ pub_key)
        × Authorised env r pub_key m.worker_key
        × (lookup wc.info.fingerprint m'.workers ≡ some wc)
        × (lookup wc.info.fingerprint m'.known_keys ≡ some pub_key)
  serve_http_authentic m m' wc h =
      let (bearer, (pub_key, decoded, size, print, known, up)) = accepted_headers m m' wc h in
      let g : Gateway = (verify_or_register_key r.fingerprint pub_key m.gateway).0 in
      let (fp, key, gate, who) =
        upgrade-Entered pub_key m.worker_key (record m { gateway = g }) m' wc up in
      (
        pub_key,
        decoded,
        size,
        fp ∙ print,
        key,
        ground (arith, bearer, who),
        ground (
          arith,
          fp,
          gate,
          lookup-insert r.fingerprint wc.info.fingerprint wc g.workers,
          eq_iff r.fingerprint wc.info.fingerprint,
        ),
        rw fp (
            ap (λ (g : Gateway). lookup r.fingerprint g.known_keys) gate
            ∙ first_use r.fingerprint pub_key m.gateway known),
      )
