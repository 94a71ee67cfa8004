-- ===== src/Queue/History.antt =====
-- Histories of calls on internal/manager/queue/queue.go.
use synergia.Prelude.{ℕ, ◌≡◌, refl, inl, inr, String, List, [], ◌∷◌, ◌>>=◌, Outcome, returns}
use synergia.Protocol.{Result, Error}
use synergia.Queue.{Queue, next_id, register, resolve, reject, cancel}
use synergia.Queue.Delivery.{
  IsValid, register-IsValid, cancel-IsValid, resolve-Answered, reject-Answered,
}

pub data Call : Type 0 where
  draws : ℕ → Call
  registers cancels : String → Call
  resolves : String → Result → Call
  rejects : String → Error → Call

module _ (format : ℕ → ℕ → String) where
  unfoldable pub step : Call → Queue → Outcome Queue
  step (draws now) q = returns (next_id format now q).0
  step (registers id) q = returns (register id q).0
  step (cancels id) q = returns (cancel id q)
  step (resolves id r) q = do (q', _) ← resolve id r q; returns q'
  step (rejects id e) q = do (q', _) ← reject id e q; returns q'

  unfoldable pub run : List Call → Queue → Outcome Queue
  run [] q = returns q
  run (c ∷ cs) q = do q' ← step c q; run cs q'

  step_returns :
      (c : Call) (q : Queue) → IsValid q → (q' : Queue) × (step c q ≡ returns q') × IsValid q'
  unfolding step next_id
  step_returns (draws now) q v = (_, refl, v)
  step_returns (registers id) q v = (_, refl, register-IsValid id q v)
  step_returns (cancels id) q v = (_, refl, cancel-IsValid id q v)
  step_returns (resolves id r) q v = elim (resolve-Answered id r q v) [
    | inl (e, stays) ↦ (q, rw stays, v)
    | inr (h, q', e, done, sent, gone, v') ↦ (q', rw done, v')
  ]
  step_returns (rejects id x) q v = elim (reject-Answered id x q v) [
    | inl (e, stays) ↦ (q, rw stays, v)
    | inr (h, q', e, done, sent, gone, v') ↦ (q', rw done, v')
  ]

  -- From a valid queue every sequence of calls returns: no call of it blocks on a full channel or
  -- panics, and the queue is then valid, so that each pending id has its own unit with empty
  -- channels.
  pub run_returns :
      (cs : List Call) (q : Queue) → IsValid q → (q' : Queue) × (run cs q ≡ returns q') × IsValid q'
  unfolding run
  run_returns [] q v = (q, refl, v)
  run_returns (c ∷ cs) q v =
      let (q₁, e, v₁) = step_returns c q v in
      let (q₂, e', v₂) = run_returns cs q₁ v₁ in (q₂, rw e e', v₂)
