-- ===== src/Store/Batches.antt =====
-- internal/manager/store/store.go: the queue of batch requests.
use synergia.Prelude.{ℕ, ◌++◌, true, String, Bool, ◌&&◌, Option, List, [], ◌∷◌, str_eq, zero, suc}
use mathlib.Core.Option
use synergia.Store.Models.{BatchRequest}
use synergia.Store.State.{Database, Store}
use synergia.Store.Consents.{Lookup, to_lookup}

abbrev pub by_request : String → BatchRequest → Bool
by_request id b = str_eq b.request_id id

-- The rows in descending order, from those in ascending order.
abbrev pub reverse : {A : Type 0} → List A → List A
reverse [] = []
reverse (x ∷ xs) = reverse xs ++ (x ∷ [])

-- Limit(n)
abbrev pub take : {A : Type 0} → ℕ → List A → List A
take zero xs = []
take (suc n) [] = []
take (suc n) (x ∷ xs) = x ∷ take n xs

module _ {D : Database} where
  abbrev update_batches :
      (BatchRequest → Bool) → (BatchRequest → BatchRequest) → Store D → Store D × Bool
  update_batches p f s =
      let (t, done) = D.batches.update p f s.batches in (record s { batches = t }, done)

  unfoldable pub create_batch_request : String → String → String → ℕ → Store D → Store D × Bool
  create_batch_request id model payload now s =
      let (t, done) =
        D.batches.create
          (record {
            request_id = id;
            llm_model = model;
            payload = payload;
            status = "pending";
            result = "";
            err_message = "";
            created_at = now;
            updated_at = now;
          })
          s.batches in
      (record s { batches = t }, done)

  unfoldable pub get_batch_request : String → Store D → Lookup BatchRequest
  get_batch_request id s = to_lookup (D.batches.first (by_request id) s.batches)

  -- ORDER BY created_at DESC LIMIT ?
  unfoldable pub list_batch_requests : ℕ → Store D → Option (List BatchRequest)
  list_batch_requests limit s =
      Option.map (λ brs. take limit (reverse brs))
        (D.batches.find_ordered (λ b. true) (λ b. b.created_at) s.batches)

  unfoldable pub get_pending_batch_requests : ℕ → Store D → Option (List BatchRequest)
  get_pending_batch_requests limit s =
      Option.map (take limit)
        (D.batches.find_ordered (λ b. str_eq b.status "pending") (λ b. b.created_at) s.batches)

  unfoldable pub set_batch_request_processing : String → ℕ → Store D → Store D × Bool
  set_batch_request_processing id now =
      update_batches (λ b. str_eq b.request_id id && str_eq b.status "pending")
        (λ b. record b { status = "processing"; updated_at = now })

  unfoldable pub complete_batch_request : String → String → ℕ → Store D → Store D × Bool
  complete_batch_request id result now =
      update_batches (by_request id)
        (λ b. record b { status = "completed"; result = result; updated_at = now })

  unfoldable pub fail_batch_request : String → String → ℕ → Store D → Store D × Bool
  fail_batch_request id err_message now =
      update_batches (by_request id)
        (λ b. record b { status = "failed"; err_message = err_message; updated_at = now })
