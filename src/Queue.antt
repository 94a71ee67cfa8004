-- ===== src/Queue.antt =====
-- internal/manager/queue/queue.go. A pending unit is a handle into a heap of channel pairs, so that
-- the caller that waits and the map share it; a channel holds what was sent and not yet received.
pub mod Delivery
pub mod History
mod Tests
use synergia.Prelude.{
  ℕ, zero, suc, ◌+◌, ◌%◌, ◌^◌, String, Bool, true, false, Option, none, some, List, [], ◌∷◌, ◌++◌,
  str_eq, length, get_elem?, ltb, if◌then◌else◌, Outcome, returns, panics, hangs,
}
use synergia.Protocol.{Result, Error}

-- The two channels of a PendingUnit, each made with capacity 1.
pub record PendingUnit : Type 0 where
  pub result_ch : List Result
  pub error_ch : List Error

abbrev pub capacity : ℕ
capacity = 1

abbrev pub fresh_unit : PendingUnit
fresh_unit = record { result_ch = []; error_ch = [] }

-- `units` are the allocated pairs by handle; `pending` is the map from work unit ids to handles.
pub record Queue : Type 0 where
  pub pending : List (String × ℕ)
  pub counter : ℕ  -- uint64
  pub units : List PendingUnit

abbrev pub lookup : String → List (String × ℕ) → Option ℕ
lookup k [] = none
lookup k ((j, h) ∷ m) = if str_eq j k then some h else lookup k m

abbrev pub delete : String → List (String × ℕ) → List (String × ℕ)
delete k [] = []
delete k ((j, h) ∷ m) = let rest = delete k m in if str_eq j k then rest else (j, h) ∷ rest

abbrev pub modify_at : (PendingUnit → PendingUnit) → ℕ → List PendingUnit → List PendingUnit
modify_at f i [] = []
modify_at f zero (u ∷ us) = f u ∷ us
modify_at f (suc i) (u ∷ us) = u ∷ modify_at f i us

unfoldable pub new : Queue
new = record { pending = []; counter = 0; units = [] }

-- `format millis counter` is fmt.Sprintf("wu-%d-%d", millis, counter).
unfoldable pub next_id : (ℕ → ℕ → String) → ℕ → Queue → Queue × String
next_id format now_millis q =
    let counter = (q.counter + 1) % 2 ^ 64 in
    (record q { counter = counter }, format now_millis counter)

unfoldable pub register : String → Queue → Queue × ℕ
register id q =
    let handle = length q.units in
    (
      record q {
        units = q.units ++ (fresh_unit ∷ []);
        pending = (id, handle) ∷ delete id q.pending;
      },
      handle,
    )

-- A send on a channel of capacity 1, which blocks while the channel is full.
abbrev send_result : Result → ℕ → Queue → Outcome (Queue × Bool)
send_result r h q = elim (get_elem? q.units h) [
  | none ↦ panics
  | some u ↦
      if ltb (length u.result_ch) capacity
      then returns (
        record q {
          units = modify_at (λ v. record v { result_ch = v.result_ch ++ (r ∷ []) }) h q.units;
        },
        true,
      )
      else hangs
]

abbrev send_error : Error → ℕ → Queue → Outcome (Queue × Bool)
send_error e h q = elim (get_elem? q.units h) [
  | none ↦ panics
  | some u ↦
      if ltb (length u.error_ch) capacity
      then returns (
        record q {
          units = modify_at (λ v. record v { error_ch = v.error_ch ++ (e ∷ []) }) h q.units;
        },
        true,
      )
      else hangs
]

unfoldable pub resolve : String → Result → Queue → Outcome (Queue × Bool)
resolve id r q = elim (lookup id q.pending) [
  | none ↦ returns (q, false)
  | some h ↦ send_result r h (record q { pending = delete id q.pending })
]

unfoldable pub reject : String → Error → Queue → Outcome (Queue × Bool)
reject id e q = elim (lookup id q.pending) [
  | none ↦ returns (q, false)
  | some h ↦ send_error e h (record q { pending = delete id q.pending })
]

unfoldable pub cancel : String → Queue → Queue
cancel id q = record q { pending = delete id q.pending }
