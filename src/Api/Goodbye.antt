-- ===== src/Api/Goodbye.antt =====
-- internal/manager/api/goodbye.go: the farewell of a worker that is uninstalled. The reply is always
-- 200. Times are in milliseconds; time.Parse, hex and the bytes of a text are parameters.
use synergia.Prelude.{
  ℕ, ◌+◌, ◌-◌, String, Bool, true, false, not, ◌&&◌, Option, none, some, str_eq, leb, length, ◌==◌,
  if◌then◌else◌,
}
use Prim.Native.Char.{Char, code}
use synergia.Store.Models.{Worker}
use synergia.Store.State.{Database, Store}
use synergia.Store.Workers.{get_worker, set_worker_deleted}
use synergia.Gateway.State.{Bytes, Env}
use synergia.Gateway.Handshake.{public_key_size}
use synergia.Api.Http.{Method, get, post, other}
pub mod Signed

pub record GoodbyeRequest : Type 0 where
  pub fingerprint : String
  pub payload : String
  pub signature : String

pub record Parsers : Type 0 where
  pub parse_time : String → Option ℕ
  pub hex_decode : String → Option Bytes
  pub bytes : String → Bytes

-- strings.SplitN(s, ":", 2): the text before the first colon, and the text after it.
unfoldable pub split_colon : String → Option (String × String)
split_colon String.[] = none
split_colon (String.◌∷◌ c s) =
    let rest : Option (String × String) = elim (split_colon s) [
      | none ↦ none
      | some (head, tail) ↦ some (String.◌∷◌ c head, tail)
    ] in
    if code c == b':' then some (String.[], s) else rest

-- The timestamp of a payload "goodbye:<fingerprint>:<timestamp>" for that fingerprint.
unfoldable pub timestamp_of : String → String → Option String
unfolding split_colon
timestamp_of fingerprint payload = elim (split_colon payload) [
  | none ↦ none
  | some (word, rest) ↦ elim (split_colon rest) [
    | none ↦ none
    | some (fp, ts) ↦ if str_eq word "goodbye" && str_eq fp fingerprint then some ts else none
  ]
]

abbrev pub window_ms : ℕ
window_ms = 300000

-- time.Since(ts).Abs()
abbrev pub distance : ℕ → ℕ → ℕ
distance now ts = (now - ts) + (ts - now)

module _ (env : Env) (p : Parsers) where
  -- The check of the signature against the stored key.
  unfoldable pub signed_by : Worker → GoodbyeRequest → Bool
  signed_by w req = elim (env.base64_decode w.public_key) [
    | none ↦ false
    | some key ↦
        if not (length key == public_key_size) then false else elim (p.hex_decode req.signature) [
          | none ↦ false
          | some sig ↦ env.verify key (p.bytes req.payload) sig
        ]
  ]

  abbrev in_time : ℕ → Option ℕ → Bool
  in_time now none = false
  in_time now (some ts) = leb (distance now ts) window_ms

  unfoldable pub is_timely : ℕ → GoodbyeRequest → Bool
  unfolding timestamp_of
  is_timely now req = elim (timestamp_of req.fingerprint req.payload) [
    | none ↦ false
    | some ts ↦ in_time now (p.parse_time ts)
  ]

  -- A body that does not decode is none.
  unfoldable pub goodbye_handler :
      {D : Database} → Method → Option GoodbyeRequest → ℕ → Store D → Store D
  unfolding signed_by is_timely get_worker set_worker_deleted
  goodbye_handler get body now s = s
  goodbye_handler other body now s = s
  goodbye_handler post none now s = s
  goodbye_handler post (some req) now s =
      if str_eq req.fingerprint ""
      then s
      else if not (is_timely now req)
      then s
      else elim (get_worker req.fingerprint s) [
        | none ↦ s
        | some w ↦ if signed_by w req then (set_worker_deleted req.fingerprint s).0 else s
      ]
