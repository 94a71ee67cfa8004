-- ===== src/Client/Updates/Verified.antt =====
-- Which model hash the worker tells the manager.
use mathlib.Core.List.{Memᴰ, append_assoc, append-nil}
use synergia.Prelude.{
  ◌≡◌, ◌≢◌, refl, sym, String, str_eq, str_append, eq_iff, Bool, false, some, List, [], ◌∷◌, ◌++◌,
  inl, inr, ◌⊎◌, ◌||◌, returns, ap, ◌∙◌, Bool-cases, Option-cases, arith,
}
use mathlib.Core.Path.{subst}
use synergia.Protocol.{ModelUpdate}
use synergia.Store.Sync.{compute_llm_hash}
use synergia.Client.Connection as Conn
use synergia.Client.Connection.{Connection, ToManager}
use synergia.Client.Persisted.{LlamaParams}
use synergia.Client.Updates.{
  after_download, Retried, succeeded, cancelled, unfinished, retry_with_backoff, restart_llm,
  params_of, tells, reports, Client, System, Round, adopt_model, install_model, check_model,
  apply_model_update,
}

returns-injective : {A : Type 0} {a b : A} → returns a ≡ returns b → a ≡ b
returns-injective h = cc

module _ (P : String → Type 0) where
  -- The model hash that a message tells, if it tells one, is allowed.
  abbrev pub Tells : ToManager → Type 0
  Tells (Conn.result r) = Unit
  Tells (Conn.error e) = Unit
  Tells Conn.heartbeat = Unit
  Tells (Conn.status t) = P t.llm_hash
  Tells (Conn.llm_hash_report h) = P h
  Tells (Conn.initial_sync t) = Unit
  Tells (Conn.signed_response r) = Unit

  abbrev pub AllTell : List ToManager → Type 0
  AllTell [] = Unit
  AllTell (m ∷ ms) = Tells m × AllTell ms

  -- The connection has sent further messages, which tell only allowed hashes, and the hash that it
  -- will tell is allowed.
  abbrev pub TellsOnly : Connection → Connection → Type 0
  TellsOnly n n' =
      P n'.llm_hash × ((further : List ToManager) × (n'.sent ≡ n.sent ++ further) × AllTell further)

  append-AllTell : (ms ks : List ToManager) → AllTell ms → AllTell ks → AllTell (ms ++ ks)
  append-AllTell [] ks a b = b
  append-AllTell (m ∷ ms) ks (t, a) b = (t, append-AllTell ms ks a b)

  TellsOnly-trans : (a b c : Connection) → TellsOnly a b → TellsOnly b c → TellsOnly a c
  TellsOnly-trans a b c (p, (xs, e, t)) (q, (ys, f, u)) =
      (q, (xs ++ ys, f ∙ ap (λ l. l ++ ys) e ∙ append_assoc a.sent xs ys, append-AllTell xs ys t u))

  send-TellsOnly :
      (writes : ToManager → Bool) (m : ToManager) (n : Connection)
      → Tells m
      → P n.llm_hash
      → TellsOnly n (Conn.send writes m n).0
  unfolding Conn.send
  send-TellsOnly writes m n t p = elim (Bool-cases n.opened) [
    | inr o ↦ rw o (p, ([], sym (append-nil n.sent), tt))
    | inl o ↦ elim (Bool-cases (writes m)) [
      | inl w ↦ rw (o, w) (p, (m ∷ [], refl, (t, tt)))
      | inr w ↦ rw (o, w) (p, ([], sym (append-nil n.sent), tt))
    ]
  ]

  keeps-TellsOnly : (n n' : Connection) → n' ≡ n → P n.llm_hash → TellsOnly n n'
  keeps-TellsOnly n n' e p = subst (TellsOnly n) (sym e) (p, ([], sym (append-nil n.sent), tt))

-- The download ended with the path: one of its attempts gave it.
retry-attempt :
    {A : Type 0} (rounds : List (Round A)) (a : A)
    → retry_with_backoff rounds ≡ succeeded a
    → (r : Round A) × Memᴰ r rounds × (r.attempt ≡ some a)
unfolding retry_with_backoff
retry-attempt [] a h = cc
retry-attempt (r ∷ rs) a h = elim (Bool-cases r.done_before) [
  | inl d ↦ absurd (ground (arith, d, h))
  | inr d ↦ elim (Option-cases r.attempt) [
    | inr (b, e) ↦ (r, Memᴰ.head refl, ground (arith, d, e, h))
    | inl e ↦ let (q, m, f) = retry-attempt rs a (ground (arith, d, e, h)) in (q, Memᴰ.tail m, f)
  ]
]

module _ (sys : System) (mu : ModelUpdate) (rounds : List (Round String)) (old : String) where
  -- The hash that was told before, or that of the update's role and model hash, where a file that an
  -- attempt of the download gave has that model hash.
  abbrev pub OldOrVerified : String → Type 0
  OldOrVerified h =
      (h ≡ old)
      ⊎ ((path : String) × ((r : Round String) × Memᴰ r rounds × (r.attempt ≡ some path))
          × (sys.hash_file path ≡ some mu.model_file_hash)
          × (h ≡ sys.backend.sha256_hex (str_append mu.role (str_append ":" mu.model_file_hash))))

  abbrev Sound : Client → Client → Type 0
  Sound c c' = TellsOnly OldOrVerified c.worker.conn c'.worker.conn

  tells-Sound :
      (s : String) (c : Client) → OldOrVerified c.worker.conn.llm_hash → Sound c (tells sys s c)
  unfolding Conn.send_status
  tells-Sound s c p = send-TellsOnly OldOrVerified sys.outside.writes _ c.worker.conn p p

  restart_llm-conn :
      (path : String) (q : LlamaParams) (c : Client)
      → (restart_llm sys path q c).worker.conn ≡ c.worker.conn
  restart_llm-conn path q c = ground arith

  -- A status after what is sound.
  tells_after-Sound :
      (s : String) (c d e : Client)
      → e.worker.conn ≡ d.worker.conn
      → Sound c d
      → Sound c (tells sys s e)
  tells_after-Sound s c d e same h =
      let h' : TellsOnly OldOrVerified c.worker.conn e.worker.conn =
        subst (TellsOnly OldOrVerified c.worker.conn) (sym same) h in
      TellsOnly-trans OldOrVerified c.worker.conn e.worker.conn (tells sys s e).worker.conn h'
        (tells-Sound s e (h'.0))

  adopt_model-Sound :
      (path new : String) (c : Client) → OldOrVerified new → Sound c (adopt_model sys mu path new c)
  unfolding adopt_model Conn.set_llm_hash Conn.send_llm_hash_report
  adopt_model-Sound path new c p =
      send-TellsOnly OldOrVerified sys.outside.writes (Conn.llm_hash_report new)
        (Conn.set_llm_hash new c.worker.conn) p p

  install_model-Sound :
      (path file_hash : String) (c : Client)
      → OldOrVerified (compute_llm_hash sys.backend.sha256_hex mu.role file_hash)
      → Sound c (install_model sys mu path file_hash c)
  unfolding install_model
  install_model-Sound path file_hash c p =
      let new = compute_llm_hash sys.backend.sha256_hex mu.role file_hash in
      let d = adopt_model sys mu path new c in
      tells_after-Sound "available" c d (restart_llm sys path (params_of mu) d)
        (restart_llm-conn path (params_of mu) d) (adopt_model-Sound path new c p)

  check_model-Sound :
      (path : String) (c c' : Client)
      → c.worker.conn.llm_hash ≡ old
      → ((r : Round String) × Memᴰ r rounds × (r.attempt ≡ some path))
      → mu.model_file_hash ≢ ""
      → check_model sys mu path c ≡ returns c'
      → Sound c c'
  unfolding compute_llm_hash
  check_model-Sound path c c' was got n h =
      let quiet = tells-Sound "available" (reports sys c) (inl was) in
      elim (Option-cases (sys.hash_file path)) [
        | inl e ↦
            let r : returns (tells sys "available" (reports sys c)) ≡ returns c' =
              rw (e, check_model) at h in
            subst (Sound c) (returns-injective r) quiet
        | inr (file_hash, e) ↦ elim (Bool-cases (str_eq file_hash mu.model_file_hash)) [
          | inl same ↦
              let eq : file_hash ≡ mu.model_file_hash = (eq_iff _ _).0 same in
              let r : returns (install_model sys mu path file_hash c) ≡ returns c' =
                ground (arith, e, same) in
              subst (Sound c) (returns-injective r) (
                install_model-Sound path file_hash c (
                  inr (
                    path,
                    got,
                    e ∙ ap some eq,
                    ap (compute_llm_hash sys.backend.sha256_hex mu.role) eq,
                  )))
          | inr differs ↦
              let r : returns (tells sys "available" (reports sys c)) ≡ returns c' =
                ground (arith, e, differs, eq_iff mu.model_file_hash "") in
              subst (Sound c) (returns-injective r) quiet
        ]
      ]

  after_download-Sound :
      (r : Retried String) (c c' : Client)
      → retry_with_backoff rounds ≡ r
      → c.worker.conn.llm_hash ≡ old
      → mu.model_file_hash ≢ ""
      → after_download sys mu r c ≡ returns c'
      → Sound c c'
  after_download-Sound unfinished c c' e was n h =
      subst (Sound c) (returns-injective h)
        (keeps-TellsOnly OldOrVerified c.worker.conn c.worker.conn refl (inl was))
  after_download-Sound cancelled c c' e was n h =
      subst (Sound c) (returns-injective h)
        (keeps-TellsOnly OldOrVerified c.worker.conn c.worker.conn refl (inl was))
  after_download-Sound (succeeded path) c c' e was n h =
      check_model-Sound path c c' was (retry-attempt rounds path e) n h

-- The worker downloads models, and the update names a file and its hash: then, if applyModelUpdate does
-- not panic, every hash that its reports and statuses tell the manager meanwhile, and the one that the
-- worker will tell next, is the one it told before, or that of the update's role and model hash, where
-- an attempt of the download gave a file with that model hash.
pub apply_model_update-TellsOnly :
    (sys : System) (mu : ModelUpdate) (rounds : List (Round String)) (c c' : Client)
    → mu.filename ≢ ""
    → c.manager_http_url ≢ ""
    → c.models_dir ≢ ""
    → mu.model_file_hash ≢ ""
    → apply_model_update sys mu rounds c ≡ returns c'
    → TellsOnly (OldOrVerified sys mu rounds c.worker.conn.llm_hash) c.worker.conn c'.worker.conn
unfolding apply_model_update
apply_model_update-TellsOnly sys mu rounds c c' f u d n h =
    let off : str_eq mu.filename "" || str_eq c.manager_http_url "" || str_eq c.models_dir ""
        ≡ false =
      ground (arith, eq_iff mu.filename "", eq_iff c.manager_http_url "", eq_iff c.models_dir "") in
    after_download-Sound sys mu rounds c.worker.conn.llm_hash (retry_with_backoff rounds) c c' refl
      refl n (rw (off, apply_model_update) at h)
