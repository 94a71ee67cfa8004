-- ===== src/Gateway/State.antt =====
-- internal/manager/gateway/websocket.go: Gateway and its registry of connected workers. A
-- connection is a number. Go's map iteration has no order, so `workers` is in any order.
use synergia.Prelude.{
  ℕ, String, Bool, true, false, Option, none, some, List, [], ◌∷◌, str_eq, if◌then◌else◌, length,
  ◌==◌,
}
use synergia.Protocol.{Outgoing}
use synergia.Queue.{Queue}
use synergia.Store.State.{Database, Store}

abbrev pub Bytes : Type 0
Bytes = List ℕ

pub record WorkerInfo : Type 0 where
  pub fingerprint : String
  pub public_key : Bytes
  pub model : String
  pub quantisation : String
  pub version : String
  pub os : String
  pub arch : String
  pub llm_hash : String
  pub connected_at : ℕ

pub record WorkerConn : Type 0 where
  pub conn : ℕ
  pub info : WorkerInfo

pub record Gateway : Type 0 where
  pub worker_key : String
  pub workers : List (String × WorkerConn)
  pub known_keys : List (String × Bytes)

-- Go's cryptography, encodings and printing, and what the network answers to a write.
pub record Env : Type 0 where
  pub sha256_hex : String → String
  pub sha256_bytes_hex : Bytes → String
  pub base64_decode : String → Option Bytes
  pub base64_encode : Bytes → String
  pub verify : Bytes → Bytes → Bytes → Bool
  -- the rounds that a replacement may take beyond those that its text asks for
  pub rounds : ℕ
  -- conn.WriteJSON(m) == nil
  pub write_json : ℕ → Outgoing → Bool

-- The manager's state that the gateway reaches. `sent` and `closed` log the messages that were
-- written and the connections that were closed, oldest first.
pub record Manager (D : Database) : Type 0 where
  pub gateway : Gateway
  pub open gateway use *
  pub store : Option (Store D)
  pub queue : Queue
  pub sent : List (ℕ × Outgoing)
  pub closed : List ℕ

module _ {A : Type 0} where
  abbrev pub lookup : String → List (String × A) → Option A
  lookup k [] = none
  lookup k ((j, v) ∷ m) = if str_eq j k then some v else lookup k m

  abbrev pub delete : String → List (String × A) → List (String × A)
  delete k [] = []
  delete k ((j, v) ∷ m) = let rest = delete k m in if str_eq j k then rest else (j, v) ∷ rest

  -- m[k] = v
  abbrev pub insert : String → A → List (String × A) → List (String × A)
  insert k v m = (k, v) ∷ delete k m

unfoldable pub new : String → Gateway
new worker_key = record { worker_key = worker_key; workers = []; known_keys = [] }

unfoldable pub set_worker_key : String → Gateway → Gateway
set_worker_key key g = record g { worker_key = key }

-- bytes.Equal
abbrev pub bytes_eq : Bytes → Bytes → Bool
bytes_eq [] [] = true
bytes_eq (x ∷ xs) (y ∷ ys) = let rest = bytes_eq xs ys in if x == y then rest else false
bytes_eq _ _ = false

unfoldable pub verify_or_register_key : String → Bytes → Gateway → Gateway × Bool
verify_or_register_key fp pub_key g = elim (lookup fp g.known_keys) [
  | none ↦ (record g { known_keys = insert fp pub_key g.known_keys }, true)
  | some existing ↦ (g, bytes_eq existing pub_key)
]

unfoldable pub has_worker : Gateway → Bool
has_worker g = elim g.workers [ [] ↦ false | _ ∷ _ ↦ true ]

unfoldable pub worker_count : Gateway → ℕ
worker_count g = length g.workers

-- Info about any one worker: the first of the iteration.
unfoldable pub worker_status : Gateway → Option WorkerInfo
worker_status g = elim g.workers [ [] ↦ none | (_, wc) ∷ _ ↦ some wc.info ]
