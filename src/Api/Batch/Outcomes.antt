-- ===== src/Api/Batch/Outcomes.antt =====
-- What becomes of a batch request.
use mathlib.Core.Option
use synergia.Prelude.{
  ℕ, ◌≡◌, refl, ap, ◌∙◌, String, str_eq, Bool, true, ◌&&◌, Option, some, find?, if◌then◌else◌, inl,
  inr, Bool-cases, arith,
}
use synergia.Protocol.{Result}
use synergia.Table.{Found-cases}
use synergia.Table.Lists.{find?-modify, find?-holds}
use synergia.Table.Queries.{written}
use synergia.Store.Models.{BatchRequest}
use synergia.Store.State.{Database, Store}
use synergia.Store.Batches.{
  by_request, set_batch_request_processing, complete_batch_request, fail_batch_request,
}
use synergia.Api.Http.{Codec, reply}
use synergia.Api.Units.{Dispatched, Answer, answered, errored, timed_out, stopped}
use synergia.Api.Batch.{Body, cancel_batch, settle_batch}

abbrev pub row_at : {D : Database} → String → Store D → Option BatchRequest
row_at {D} id s = find? (by_request id) (D.batches.rows s.batches)

module _ {D : Database} (id : String) (s : Store D) (b : BatchRequest)
    (row : row_at id s ≡ some b) where
  -- A write that leaves the ids alone gives the request its new row.
  update-row :
      (p : BatchRequest → Bool) (f : BatchRequest → BatchRequest)
      → ((b : BatchRequest) → (f b).request_id ≡ b.request_id)
      → (D.batches.update p f s.batches).1 ≡ true
      → find? (by_request id) (D.batches.rows (D.batches.update p f s.batches).0)
        ≡ some (if p b then f b else b)
  update-row p f same done =
      ap (find? (by_request id)) (written (D.batches.update_lem p f s.batches) done)
      ∙ find?-modify (by_request id) p f (D.batches.rows s.batches)
          (λ b. ap (λ k. str_eq k id) (same b))
      ∙ ap (Option.map (λ b. if p b then f b else b)) row

  is_row : str_eq b.request_id id ≡ true
  is_row = find?-holds (by_request id) (D.batches.rows s.batches) b row

  fail-row :
      (message : String) (now : ℕ)
      → (fail_batch_request id message now s).1 ≡ true
      → row_at id (fail_batch_request id message now s).0
        ≡ some (record b { status = "failed"; err_message = message; updated_at = now })
  unfolding fail_batch_request
  fail-row message now done =
      let f : BatchRequest → BatchRequest =
        λ b. record b { status = "failed"; err_message = message; updated_at = now } in
      update-row (by_request id) f (λ b. refl) done ∙ ap (λ t. some (if t then f b else b)) is_row

  complete-row :
      (result : String) (now : ℕ)
      → (complete_batch_request id result now s).1 ≡ true
      → row_at id (complete_batch_request id result now s).0
        ≡ some (record b { status = "completed"; result = result; updated_at = now })
  unfolding complete_batch_request
  complete-row result now done =
      let f : BatchRequest → BatchRequest =
        λ b. record b { status = "completed"; result = result; updated_at = now } in
      update-row (by_request id) f (λ b. refl) done ∙ ap (λ t. some (if t then f b else b)) is_row

  -- Only a pending request is set to processing, and the write succeeds where none is.
  processing-row :
      (now : ℕ)
      → (set_batch_request_processing id now s).1 ≡ true
      → row_at id (set_batch_request_processing id now s).0
        ≡ some (
            if str_eq b.request_id id && str_eq b.status "pending"
            then record b { status = "processing"; updated_at = now }
            else b)
  unfolding set_batch_request_processing
  processing-row now done =
      update-row (λ b. str_eq b.request_id id && str_eq b.status "pending")
        (λ b. record b { status = "processing"; updated_at = now }) (λ b. refl) done

-- The status after each end of the wait.
abbrev pub status_after : Answer → String → String
status_after (answered r) old = "completed"
status_after (errored e) old = "failed"
status_after timed_out old = "failed"
status_after stopped old = old

-- After the wait, if the write succeeds, a request that the store has is completed where the worker
-- answered, and failed where it reported an error or the time was up; where the manager was stopped
-- it keeps its status.
pub settle_batch_ends :
    {D : Database} (codec : Codec) (id : String) (d : Dispatched) (a : Answer) (now : ℕ)
    (s : Store D) (b : BatchRequest)
    → row_at id s ≡ some b
    → (settle_batch codec id d a now s).1 ≡ true
    → (b' : BatchRequest) × (row_at id (settle_batch codec id d a now s).0 ≡ some b')
      × (b'.status ≡ status_after a b.status)
unfolding settle_batch
settle_batch_ends codec id d (answered r) now s b row done =
    (_, complete-row id s b row _ now done, refl)
settle_batch_ends codec id d (errored e) now s b row done =
    (_, fail-row id s b row _ now done, refl)
settle_batch_ends codec id d timed_out now s b row done = (_, fail-row id s b row _ now done, refl)
settle_batch_ends codec id d stopped now s b row done = (b, row, refl)

-- A cancellation that is confirmed has written that the request failed.
cancel_batch-fails :
    {D : Database} (id : String) (now : ℕ) (s : Store D) (body : Body)
    → (cancel_batch id now s).1 ≡ reply 200 body
    → ((fail_batch_request id "cancelled by user" now s).1 ≡ true)
      × ((cancel_batch id now s).0 ≡ (fail_batch_request id "cancelled by user" now s).0)
unfolding cancel_batch
cancel_batch-fails {D} id now s body h =
    elim (Found-cases (D.batches.first (by_request id) s.batches)) [
      | inr (inl e) ↦ absurd (ground (arith, e))
      | inr (inr e) ↦ absurd (ground (arith, e))
      | inl (c, e) ↦ elim (Bool-cases (str_eq c.status "pending")) [
        | inr p ↦ absurd (ground (arith, e, p))
        | inl p ↦ elim (Bool-cases (fail_batch_request id "cancelled by user" now s).1) [
          | inr d ↦ absurd (ground (arith, e, p, d))
          | inl d ↦ (d, ground (arith, e, p, d))
        ]
      ]
    ]

-- The batch goroutine has read a pending request; before it sets the request to processing, the client
-- cancels it, and is told so. If the later writes succeed, setting it to processing succeeds and leaves
-- it failed, so the goroutine goes on, and the worker's answer completes the cancelled request.
pub cancelled_batch_completes :
    {D : Database} (codec : Codec) (id : String) (d : Dispatched) (r : Result) (t₀ t₁ t₂ : ℕ)
    (s : Store D) (b : BatchRequest) (body : Body)
    → row_at id s ≡ some b
    → (cancel_batch id t₀ s).1 ≡ reply 200 body
    → (set_batch_request_processing id t₁ (cancel_batch id t₀ s).0).1 ≡ true
    → (settle_batch codec id d
        (answered r)
        t₂
        (set_batch_request_processing id t₁ (cancel_batch id t₀ s).0).0).1
      ≡ true
    → ((c : BatchRequest) × (row_at id
            (set_batch_request_processing id t₁ (cancel_batch id t₀ s).0).0
          ≡ some c)
        × (c.status ≡ "failed"))
      × ((c : BatchRequest) × (row_at id
              (settle_batch codec id d
                (answered r)
                t₂
                (set_batch_request_processing id t₁ (cancel_batch id t₀ s).0).0).0
            ≡ some c)
          × (c.status ≡ "completed"))
cancelled_batch_completes {D} codec id d r t₀ t₁ t₂ s b body row cancelled set settled =
    let (failed, same) = cancel_batch-fails id t₀ s body cancelled in
    let f : BatchRequest = record b {
      status = "failed";
      err_message = "cancelled by user";
      updated_at = t₀;
    } in
    let row₁ : row_at id (cancel_batch id t₀ s).0 ≡ some f =
      ap (row_at id) same ∙ fail-row id s b row "cancelled by user" t₀ failed in
    let row₂ : row_at id (set_batch_request_processing id t₁ (cancel_batch id t₀ s).0).0 ≡ some f =
      processing-row id (cancel_batch id t₀ s).0 f row₁ t₁ set ∙ ground arith in
    ((f, row₂, refl), settle_batch_ends codec id d (answered r) t₂ _ f row₂ settled)
