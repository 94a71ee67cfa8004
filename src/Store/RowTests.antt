-- ===== src/Store/RowTests.antt =====
-- Writes and queries of internal/manager/store/store.go over the database in memory.
use synergia.Prelude.{ℕ, ◌≡◌, refl, true, false, String, [], ◌∷◌, none}
use synergia.Store.Models.{BatchRequest}
use synergia.Store.State.{Store, memory, empty_store}
use synergia.Store.Workers.{upsert_worker}
use synergia.Store.Consents.{set_consent}
use synergia.Store.Withdrawal.{OneEach}
use synergia.Store.Tests.{worker, store_with}

-- The store after a first consent.
abbrev consenting : Store memory
consenting = (set_consent "aabbccddeeff" true true false none 7 (store_with worker)).0

consenting-OneEach : OneEach consenting
unfolding set_consent
consenting-OneEach = (refl, tt)

first_done : (set_consent "aabbccddeeff" true true false none 7 (store_with worker)).1 ≡ true
unfolding set_consent
first_done = refl

second_done : (set_consent "aabbccddeeff" false true false none 9 consenting).1 ≡ true
unfolding set_consent
second_done = refl

upsert_done :
    (upsert_worker "aabbccddeeff" "key" "mistral" "Q4_K_M" "2.0" "linux" "amd64" 9
      (store_with worker)).1
    ≡ true
unfolding upsert_worker
upsert_done = refl

abbrev batch : String → ℕ → BatchRequest
batch id time = record {
  request_id = id;
  llm_model = "mistral";
  payload = "{}";
  status = "pending";
  result = "";
  err_message = "";
  created_at = time;
  updated_at = time;
}

abbrev batches : Store memory
batches = record empty_store { batches = batch "c" 30 ∷ batch "a" 10 ∷ batch "b" 20 ∷ [] }
