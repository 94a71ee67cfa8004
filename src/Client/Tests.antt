-- ===== src/Client/Tests.antt =====
-- The theorems about the worker's program at concrete inputs, and runs of its definitions.
use synergia.Prelude.{
  ℕ, ◌≡◌, refl, ◌++◌, ◌-◌, String, true, false, some, List, [], ◌∷◌, length, drop, returns, zero,
  suc, ◌+◌, ◌∙◌, ap, ◌==◌, arith,
}
use Prim.Native.Char.{code}
use synergia.Gateway.Keys.{bytes_eq_refl}
use synergia.Gateway.State.{Bytes, Env, bytes_eq}
use synergia.Gateway.Handshake.{signature_ok}
use synergia.Client.Gpu.Window.{replicate, window_size, empty_window, push, samples, stats}
use synergia.Client.Gpu.Recent.{push_all, samples-push_all}
use synergia.Client.Gpu.Monitor as Gpu
use synergia.Client.Gpu.Changes.{Reach, here, next, ticks, takes, Reports, Reach-Reports}
use synergia.Client.State as State
use synergia.Client.Status.{compute, is_available}
use synergia.Client.Connection.{build_challenge_response}
use synergia.Client.Connection.Challenges.{reply_of, signature_ok-build_challenge_response}

abbrev readings : List ℕ
readings = replicate 181 3 ++ (40 ∷ 50 ∷ [])

samples-push_all_example :
    samples (push_all readings empty_window) ≡ drop (length readings - window_size) readings
samples-push_all_example = samples-push_all readings

-- 16 ones and 4 peaks: the baseline is that of the lowest 17 samples.
stats_of_peaks :
    stats (push_all (replicate 16 1 ++ replicate 4 90) empty_window)
    ≡ record { mean = 18; baseline_mean = 6; min = 1; max = 90; sample_count = 20 }
unfolding stats empty_window push
stats_of_peaks = refl

-- A monitor that sees contention at once.
abbrev monitor : Gpu.Monitor
unfolding Gpu.new
monitor = Gpu.new 10 60000

abbrev contended : Gpu.Monitor
unfolding Gpu.new push
contended = record monitor {
  state = Gpu.busy;
  last_utilization = 80;
  contention_since = 5000;
  window = push 80 monitor.window;
  state_change_ch = record { from = Gpu.available; to = Gpu.busy } ∷ [];
}

contention : Gpu.check (some 80) 5000 monitor ≡ returns contended
unfolding Gpu.check monitor
contention = refl

contention_run :
    Reach (Gpu.new 10 60000) Gpu.available (record contended { state_change_ch = [] }) Gpu.busy
unfolding Gpu.new contended
contention_run =
    next (next here (ticks (some 80) 5000 contention))
      (takes (record { from = Gpu.available; to = Gpu.busy }) [] refl)

Reach-Reports_example : Reports (record contended { state_change_ch = [] }) Gpu.busy
Reach-Reports_example = Reach-Reports 10 60000 contention_run

abbrev state : State.State
unfolding State.new State.set_connected State.set_llm State.set_gpu
state =
    State.set_gpu Gpu.available 5
      (record { mean = 5; baseline_mean = 5; min = 5; max = 5; sample_count = 1 }) true "" "driver"
      "1" (State.set_llm true "" (State.set_connected true 5 (State.new "w1" "m" "q4" 0)))

-- A worker whose GPU cannot be monitored is available, and its status is not "ready".
unsupported_available :
    (is_available (record state { gpu_supported = false }) ≡ true)
    × (compute (record state { gpu_supported = false }) ≡ "gpu_unsupported")
unfolding is_available compute state
unsupported_available = (refl, refl)

-- An encoding of bytes that can be decoded, in place of base64.
encode_byte : ℕ → String → String
encode_byte zero s = String.◌∷◌ "b" s
encode_byte (suc n) s = String.◌∷◌ "a" (encode_byte n s)

encode : Bytes → String
encode [] = ""
encode (x ∷ xs) = encode_byte x (encode xs)

decode : ℕ → String → Bytes
decode n String.[] = []
decode n (String.◌∷◌ c s) = elim (code c == b'a') [
  | true ↦ decode (suc n) s
  | false ↦ n ∷ decode 0 s
]

decode-encode_byte : (n x : ℕ) (s : String) → decode n (encode_byte x s) ≡ (n + x) ∷ decode 0 s
unfolding decode encode_byte
decode-encode_byte n zero s = ground arith
decode-encode_byte n (suc x) s = decode-encode_byte (suc n) x s ∙ ground arith

decode-encode : (bs : Bytes) → decode 0 (encode bs) ≡ bs
unfolding decode encode
decode-encode [] = refl
decode-encode (x ∷ xs) = decode-encode_byte 0 x (encode xs) ∙ ground (arith, decode-encode xs)

-- A signature is the text itself, which every key verifies.
abbrev env : Env
env = record {
  sha256_hex = λ s. s;
  sha256_bytes_hex = encode;
  base64_decode = λ s. some (decode 0 s);
  base64_encode = encode;
  verify = λ key bs sig. bytes_eq bs sig;
  rounds = 0;
  write_json = λ _ _. true;
}

signature_ok-build_challenge_response_example :
    signature_ok env
      (1 ∷ [])
      (7 ∷ 250 ∷ [])
      (reply_of (build_challenge_response env (λ key bs. bs) (encode (7 ∷ 250 ∷ [])) (2 ∷ [])))
    ≡ true
signature_ok-build_challenge_response_example =
    signature_ok-build_challenge_response env (λ key bs. bs) (1 ∷ []) (2 ∷ []) (7 ∷ 250 ∷ [])
      (λ bs. ap some (decode-encode bs)) (λ bs. bytes_eq_refl bs)
