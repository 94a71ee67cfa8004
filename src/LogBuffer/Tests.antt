-- ===== src/LogBuffer/Tests.antt =====
-- Runs of internal/logbuffer/logbuffer.go on a buffer of two lines.
use synergia.Prelude.{◌≡◌, List, [], ◌∷◌}
use synergia.LogBuffer.{Bytes, Buffer, new, get_all}
use synergia.LogBuffer.Ring.{write_all, get_all-write_all}

abbrev written : List Bytes
written = (97 ∷ 10 ∷ []) ∷ (10 ∷ []) ∷ (98 ∷ []) ∷ (99 ∷ 10 ∷ []) ∷ []

get_all-write_all_example : get_all (write_all written (new 2)) ≡ (98 ∷ []) ∷ (99 ∷ []) ∷ []
get_all-write_all_example = get_all-write_all 2 written

abbrev watched : Buffer
watched = record { entries = []; max_size = 2; subs = (7, []) ∷ []; next_id = 8; closed = [] }
