-- ===== src/Queue/Tests.antt =====
-- Runs of internal/manager/queue/queue.go on one small queue.
use synergia.Prelude.{ℕ, ◌≡◌, String, [], ◌∷◌, pos, returns}
use synergia.Protocol.{Result, Error}
use synergia.Queue.{Queue, new, register, resolve, reject}
use synergia.Queue.Delivery.{IsValid, register-IsValid, Answered, resolve-Answered, reject-Answered}
use synergia.Queue.History.{registers, resolves, cancels, run, run_returns}

abbrev one_result : Result
one_result = record {
  id = "wu-1";
  fingerprint = "fp";
  output = "hi";
  processing_time_ms = pos 5;
  signature = "";
}

abbrev one_error : Error
one_error = record { id = "wu-1"; error = "no memory" }

abbrev waiting : Queue
waiting = (register "wu-1" new).0

new-IsValid : IsValid new
unfolding new
new-IsValid = tt

waiting-IsValid : IsValid waiting
waiting-IsValid = register-IsValid "wu-1" new new-IsValid

resolve-Answered_example :
    Answered "wu-1"
      (record { result_ch = one_result ∷ []; error_ch = [] })
      waiting
      (resolve "wu-1" one_result waiting)
resolve-Answered_example = resolve-Answered "wu-1" one_result waiting waiting-IsValid

reject-Answered_example :
    Answered "wu-1"
      (record { result_ch = []; error_ch = one_error ∷ [] })
      waiting
      (reject "wu-1" one_error waiting)
reject-Answered_example = reject-Answered "wu-1" one_error waiting waiting-IsValid

abbrev format : ℕ → ℕ → String
format millis counter = "wu"

run_returns_example :
    (q' : Queue) × (run format
        (registers "wu-2" ∷ resolves "wu-1" one_result ∷ cancels "wu-2" ∷ [])
        waiting
      ≡ returns q')
    × IsValid q'
run_returns_example =
    run_returns format (registers "wu-2" ∷ resolves "wu-1" one_result ∷ cancels "wu-2" ∷ []) waiting
      waiting-IsValid
