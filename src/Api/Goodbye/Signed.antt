-- ===== src/Api/Goodbye/Signed.antt =====
-- Who can say goodbye for a worker.
use synergia.Prelude.{
  ℕ, ◌≡◌, ◌≢◌, ◌≤◌, refl, String, str_eq, true, some, inl, inr, Bool-cases, Option-cases, arith,
}
use synergia.Store.State.{Database, Store}
use synergia.Gateway.State.{Bytes, Env}
use synergia.Api.Http.{Method, get, post, other}
use synergia.Store.Models.{Worker}
use synergia.Store.Workers.{get_worker}
use synergia.Api.Goodbye.{
  goodbye_handler, GoodbyeRequest, Parsers, timestamp_of, distance, window_ms, signed_by, is_timely,
}

-- A timely farewell of the worker, signed by the key on record for it.
pub record IsSigned {D : Database} (env : Env) (p : Parsers) (req : GoodbyeRequest) (now : ℕ)
    (s : Store D) : Type 0 where
  pub worker : Worker
  pub timestamp : String
  pub time : ℕ
  pub key : Bytes
  pub sig : Bytes
  pub known : get_worker req.fingerprint s ≡ some worker
  pub named : timestamp_of req.fingerprint req.payload ≡ some timestamp
  pub parsed : p.parse_time timestamp ≡ some time
  pub timely : distance now time ≤ window_ms
  pub on_record : env.base64_decode worker.public_key ≡ some key
  pub decoded : p.hex_decode req.signature ≡ some sig
  pub verified : env.verify key (p.bytes req.payload) sig ≡ true

module _ (env : Env) (p : Parsers) (req : GoodbyeRequest) where
  signed_by_lem :
      (w : Worker)
      → signed_by env p w req ≡ true
      → (key : Bytes) × (sig : Bytes) × (env.base64_decode w.public_key ≡ some key)
        × (p.hex_decode req.signature ≡ some sig)
        × (env.verify key (p.bytes req.payload) sig ≡ true)
  unfolding signed_by
  signed_by_lem w h = elim (Option-cases (env.base64_decode w.public_key)) [
    | inl e ↦ absurd (ground (arith, e))
    | inr (key, e) ↦ elim (Option-cases (p.hex_decode req.signature)) [
      | inl x ↦ absurd (ground (arith, e, x))
      | inr (sig, x) ↦ (key, sig, e, x, ground (arith, e, x))
    ]
  ]

  is_timely_lem :
      (now : ℕ)
      → is_timely env p now req ≡ true
      → (timestamp : String) × (time : ℕ) × (timestamp_of req.fingerprint req.payload
          ≡ some timestamp)
        × (p.parse_time timestamp ≡ some time)
        × (distance now time ≤ window_ms)
  unfolding is_timely
  is_timely_lem now h = elim (Option-cases (timestamp_of req.fingerprint req.payload)) [
    | inl e ↦ absurd (ground (arith, e))
    | inr (ts, e) ↦ elim (Option-cases (p.parse_time ts)) [
      | inl x ↦ absurd (ground (arith, e, x))
      | inr (t, x) ↦ (ts, t, e, x, ground (arith, e, x))
    ]
  ]

  -- The store changes only by a farewell of the worker within five minutes of its timestamp, that is
  -- signed by the key on record for it.
  pub goodbye_handler-IsSigned :
      {D : Database} (m : Method) (now : ℕ) (s : Store D)
      → goodbye_handler env p m (some req) now s ≢ s
      → IsSigned env p req now s
  unfolding goodbye_handler
  goodbye_handler-IsSigned get now s h = absurd (h refl)
  goodbye_handler-IsSigned other now s h = absurd (h refl)
  goodbye_handler-IsSigned post now s h = elim (Bool-cases (str_eq req.fingerprint "")) [
    | inl e ↦ absurd (h (rw (e, goodbye_handler) refl))
    | inr e ↦ elim (Bool-cases (is_timely env p now req)) [
      | inr t ↦ absurd (h (rw (e, t, goodbye_handler) refl))
      | inl t ↦ elim (Option-cases (get_worker req.fingerprint s)) [
        | inl g ↦ absurd (h (rw (e, t, g, goodbye_handler) refl))
        | inr (w, g) ↦ elim (Bool-cases (signed_by env p w req)) [
          | inr x ↦ absurd (h (rw (e, t, g, x, goodbye_handler) refl))
          | inl x ↦
              let (timestamp, time, named, parsed, timely) = is_timely_lem now t in
              let (key, sig, on_record, decoded, verified) = signed_by_lem w x in
              record {
                worker = w;
                timestamp = timestamp;
                time = time;
                key = key;
                sig = sig;
                known = g;
                named = named;
                parsed = parsed;
                timely = timely;
                on_record = on_record;
                decoded = decoded;
                verified = verified;
              }
        ]
      ]
    ]
  ]
