-- ===== src/LogBuffer.antt =====
-- internal/logbuffer/logbuffer.go: a bounded buffer of log lines with live subscribers. A line is a
-- list of bytes; a subscriber's channel holds what was sent to it and not yet received.
pub mod Ring
mod Tests
use synergia.Prelude.{
  ℕ, ◌+◌, ◌-◌, Bool, true, false, List, [], ◌∷◌, ◌++◌, map, ltb, ◌==◌, length, drop, if◌then◌else◌,
}

abbrev pub Bytes : Type 0
Bytes = List ℕ

pub record Buffer : Type 0 where
  pub entries : List Bytes
  pub max_size : ℕ
  pub subs : List (ℕ × List Bytes)
  pub next_id : ℕ
  pub closed : List ℕ  -- the ids of the channels that were closed

abbrev pub channel_size : ℕ
channel_size = 256

unfoldable pub new : ℕ → Buffer
new max_size = record { entries = []; max_size = max_size; subs = []; next_id = 0; closed = [] }

-- bytes.TrimRight(p, "\n")
abbrev add_front : ℕ → Bytes → Bytes
add_front c [] = if c == b'\n' then [] else c ∷ []
add_front c (d ∷ s) = c ∷ d ∷ s

abbrev pub trim_right : Bytes → Bytes
trim_right [] = []
trim_right (c ∷ s) = add_front c (trim_right s)

-- A send that drops the line if the subscriber is slow.
abbrev pub offer : Bytes → ℕ × List Bytes → ℕ × List Bytes
offer entry (id, ch) = (id, if ltb (length ch) channel_size then ch ++ (entry ∷ []) else ch)

-- Append, and keep the last `max_size`.
abbrev pub push_entry : ℕ → Bytes → List Bytes → List Bytes
push_entry max_size entry entries =
    let all = entries ++ (entry ∷ []) in
    if ltb max_size (length all) then drop (length all - max_size) all else all

-- The result of Write is always len(p) and no error.
unfoldable pub write : Bytes → Buffer → Buffer
write p b = elim (trim_right p) [
  | [] ↦ b
  | c ∷ line ↦ record b {
    entries = push_entry b.max_size (c ∷ line) b.entries;
    subs = map (offer (c ∷ line)) b.subs;
  }
]

unfoldable pub get_all : Buffer → List Bytes
get_all b = b.entries

unfoldable pub subscribe : Buffer → Buffer × ℕ
subscribe b = (record b { subs = (b.next_id, []) ∷ b.subs; next_id = b.next_id + 1 }, b.next_id)

abbrev pub delete : ℕ → List (ℕ × List Bytes) → List (ℕ × List Bytes)
delete id [] = []
delete id ((j, ch) ∷ m) = let rest = delete id m in if j == id then rest else (j, ch) ∷ rest

abbrev pub has_id : ℕ → List (ℕ × List Bytes) → Bool
has_id id [] = false
has_id id ((j, ch) ∷ m) = let rest = has_id id m in if j == id then true else rest

unfoldable pub unsubscribe : ℕ → Buffer → Buffer
unsubscribe id b =
    if has_id id b.subs
    then record b { subs = delete id b.subs; closed = b.closed ++ (id ∷ []) }
    else b
