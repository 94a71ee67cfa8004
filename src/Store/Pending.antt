-- ===== src/Store/Pending.antt =====
-- The order in which internal/manager/store/store.go hands out pending batch requests.
use mathlib.Core.List.Perm
use synergia.Prelude.{str_eq, Bool, List}
use synergia.Store.Models.{BatchRequest}
use synergia.Store.State.{Store}

abbrev pub is_pending : BatchRequest → Bool
is_pending b = str_eq b.status "pending"
