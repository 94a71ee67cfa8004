-- ===== src/Gateway/ConnectionTests.antt =====
-- Connections and messages of internal/manager/gateway over the database in memory.
use synergia.Prelude.{
  ◌≡◌, refl, inl, ◌↔◌, true, false, length, [], ◌∷◌, some, none, pos, returns, arith,
}
use synergia.Protocol.{Status, challenge}
use synergia.Store.State.{Store, memory}
use synergia.Store.Workers.{with_status, worker_at, set_worker_offline}
use synergia.Store.Consents.{has_consent}
use synergia.Store.Untouched.{SameStatus}
use synergia.Store.Tests.{worker, store_with}
use synergia.Gateway.State.{Bytes, Manager, lookup, verify_or_register_key}
use synergia.Gateway.Handshake.{Request, signed, connected, register_worker, serve_http}
use synergia.Gateway.Messages.{on_status, disconnect}
use synergia.Gateway.Authentic.{Authorised, serve_http_authentic}
use synergia.Gateway.Keys.{verify_all, key_pinned}
use synergia.Gateway.Reports.{unconsented_report}
use synergia.Gateway.Reconnect.{reconnect_marked_offline}
use synergia.Gateway.Tests.{key, env, conn, ready_store, manager, ready}

abbrev request : Request
request = record {
  authorization = "";
  fingerprint = "aabbccddeeff";
  public_key = "base64-of-key";
  model = "mistral";
  quantisation = "Q4_K_M";
  version = "1.0";
  llm_hash = "";
  backend_hash = "";
  os = "linux";
  arch = "amd64";
  upgraded = some 2;
  nonce = some key;
  reply = signed (record { nonce = "nonce"; signature = "sig" });
  now = 7;
}

-- The manager before any worker has connected, without a store.
abbrev empty : Manager memory
empty = record (manager ready_store []) { store = none }

abbrev after : Manager memory
after = record empty {
  gateway = record {
    worker_key = "";
    workers = ("aabbccddeeff", conn 2) ∷ [];
    known_keys = ("aabbccddeeff", key) ∷ [];
  };
  sent = (2, challenge "nonce") ∷ [];
}

served : serve_http env request empty ≡ returns (after, connected (conn 2))
unfolding serve_http
served = refl

serve_http_authentic_example :
    (pub_key : Bytes) × (some key ≡ some pub_key)
    × (length pub_key ≡ 32)
    × ((conn 2).info.fingerprint ≡ env.sha256_bytes_hex pub_key)
    × (key ≡ pub_key)
    × Authorised env request pub_key ""
    × (lookup "aabbccddeeff" after.workers ≡ some (conn 2))
    × (lookup "aabbccddeeff" after.known_keys ≡ some pub_key)
serve_http_authentic_example = serve_http_authentic env request empty after (conn 2) served

first_key : (verify_or_register_key "aabbccddeeff" key empty.gateway).1 ≡ true
unfolding verify_or_register_key
first_key = refl

key_pinned_example :
    ((verify_or_register_key "aabbccddeeff" (1 ∷ []) (
        verify_all
          (("aabbccddeeff", 2 ∷ []) ∷ ("other", 3 ∷ []) ∷ [])
          (verify_or_register_key "aabbccddeeff" key empty.gateway).0)).1
      ≡ true)
    ↔ ((1 ∷ []) ≡ key)
key_pinned_example =
    key_pinned "aabbccddeeff" key (1 ∷ []) empty.gateway
      (("aabbccddeeff", 2 ∷ []) ∷ ("other", 3 ∷ []) ∷ []) first_key

abbrev status : Status
status = record {
  state = "available";
  llm_hash = "";
  backend_hash = "";
  backend_version = "";
  gpu_avg = pos 3;
}

abbrev unconsented : Store memory
unconsented = store_with worker

lacks_consent : has_consent "aabbccddeeff" unconsented ≡ false
unfolding has_consent
lacks_consent = refl

status_returns : on_status env (conn 1) status unconsented ≡ returns unconsented
unfolding on_status has_consent
status_returns = refl

unconsented_report_example : SameStatus unconsented unconsented
unconsented_report_example =
    unconsented_report env (conn 1) status unconsented unconsented lacks_consent (inl refl)
      status_returns

offline_done : (set_worker_offline "aabbccddeeff" ready_store).1 ≡ true
unfolding set_worker_offline
offline_done = refl

reconnect_marked_offline_example :
    (lookup "aabbccddeeff" (disconnect (conn 1) (register_worker (conn 2) ready)).workers
      ≡ some (conn 2))
    × ((s' : Store memory) × ((disconnect (conn 1) (register_worker (conn 2) ready)).store
          ≡ some s')
        × (worker_at "aabbccddeeff" s' ≡ some (with_status "offline" worker)))
reconnect_marked_offline_example =
    reconnect_marked_offline ready ready_store (conn 1) (conn 2) worker refl refl
      (λ e. omega (arith, e)) refl refl offline_done
