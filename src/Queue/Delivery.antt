-- ===== src/Queue/Delivery.antt =====
-- Deliveries of internal/manager/queue/queue.go: no send blocks, and each unit gets one answer.
use mathlib.Core.Option
use synergia.Prelude.{
  ℕ, zero, suc, ◌≡◌, refl, ap, ◌∙◌, ◌⊎◌, inl, inr, ◌≢◌, String, Bool, true, false, none, some, List,
  [], ◌∷◌, ◌++◌, str_eq, length, get_elem?, Bool-cases, Option-cases, Outcome, returns, arith,
}
use synergia.Protocol.{Result, Error}
use synergia.Queue.{
  Queue, PendingUnit, fresh_unit, lookup, delete, modify_at, register, resolve, reject, cancel,
}

-- No entry has handle `h`.
abbrev Free : ℕ → List (String × ℕ) → Type 0
Free h [] = Unit {0}
Free h ((k, i) ∷ m) = (i ≢ h) × Free h m

-- Each entry has its own pair of channels, and both are empty.
abbrev Idle : List PendingUnit → List (String × ℕ) → Type 0
Idle us [] = Unit {0}
Idle us ((k, h) ∷ m) = (get_elem? us h ≡ some fresh_unit) × Free h m × Idle us m

abbrev pub IsValid : Queue → Type 0
IsValid q = Idle q.units q.pending

Free-delete : (h : ℕ) (k : String) (m : List (String × ℕ)) → Free h m → Free h (delete k m)
Free-delete h k [] f = tt
Free-delete h k ((j, i) ∷ m) f = ground (arith, Free-delete h k m f.1)

Idle-delete :
    (us : List PendingUnit) (k : String) (m : List (String × ℕ)) → Idle us m → Idle us (delete k m)
Idle-delete us k [] v = tt
Idle-delete us k ((j, h) ∷ m) v = ground (arith, Free-delete h k m v.1, Idle-delete us k m v.2)

get_elem?-append :
    (us : List PendingUnit) (u v : PendingUnit) (i : ℕ)
    → get_elem? us i ≡ some u
    → get_elem? (us ++ (v ∷ [])) i ≡ some u
get_elem?-append [] u v i h = cc
get_elem?-append (x ∷ us) u v zero h = h
get_elem?-append (x ∷ us) u v (suc i) h = get_elem?-append us u v i h

get_elem?-last :
    (us : List PendingUnit) (v : PendingUnit) → get_elem? (us ++ (v ∷ [])) (length us) ≡ some v
get_elem?-last [] v = refl
get_elem?-last (x ∷ us) v = get_elem?-last us v

get_elem?-length : (us : List PendingUnit) → get_elem? us (length us) ≡ none
get_elem?-length [] = refl
get_elem?-length (x ∷ us) = get_elem?-length us

Idle-append :
    (us : List PendingUnit) (v : PendingUnit) (m : List (String × ℕ))
    → Idle us m
    → Idle (us ++ (v ∷ [])) m
Idle-append us v [] i = tt
Idle-append us v ((k, h) ∷ m) i =
    (get_elem?-append us fresh_unit v h i.0, i.1, Idle-append us v m i.2)

Free-length : (us : List PendingUnit) (m : List (String × ℕ)) → Idle us m → Free (length us) m
Free-length us [] v = tt
Free-length us ((k, h) ∷ m) v = (λ e. none_ne (rw e at v.0), Free-length us m v.2)
  where
    none_ne : get_elem? us (length us) ≡ some fresh_unit → ⊥
    none_ne h = ground (arith, get_elem?-length us, h)

module _ (f : PendingUnit → PendingUnit) where
  get_elem?-modify_at :
      (us : List PendingUnit) (u : PendingUnit) (i : ℕ)
      → get_elem? us i ≡ some u
      → get_elem? (modify_at f i us) i ≡ some (f u)
  get_elem?-modify_at [] u i h = cc
  get_elem?-modify_at (x ∷ us) u zero h = ground arith
  get_elem?-modify_at (x ∷ us) u (suc i) h = get_elem?-modify_at us u i h

  get_elem?-modify_at_ne :
      (us : List PendingUnit) (i j : ℕ) → j ≢ i → get_elem? (modify_at f i us) j ≡ get_elem? us j
  get_elem?-modify_at_ne [] i j h = refl
  get_elem?-modify_at_ne (x ∷ us) zero zero h = absurd (h refl)
  get_elem?-modify_at_ne (x ∷ us) zero (suc j) h = refl
  get_elem?-modify_at_ne (x ∷ us) (suc i) zero h = refl
  get_elem?-modify_at_ne (x ∷ us) (suc i) (suc j) h =
      get_elem?-modify_at_ne us i j (λ e. h (ap suc e))

  Idle-modify_at :
      (us : List PendingUnit) (i : ℕ) (m : List (String × ℕ))
      → Free i m
      → Idle us m
      → Idle (modify_at f i us) m
  Idle-modify_at us i [] fr v = tt
  Idle-modify_at us i ((k, h) ∷ m) fr v =
      (get_elem?-modify_at_ne us i h fr.0 ∙ v.0, v.1, Idle-modify_at us i m fr.1 v.2)

Free-lookup :
    (i h : ℕ) (k : String) (m : List (String × ℕ)) → Free i m → lookup k m ≡ some h → h ≢ i
Free-lookup i h k [] f e = cc
Free-lookup i h k ((j, g) ∷ m) f e = elim (Bool-cases (str_eq j k)) [
  | inl t ↦ λ same. f.0 (ground arith)
  | inr t ↦ Free-lookup i h k m f.1 (ground arith)
]

-- What the map says of a registered id.
lookup-Idle :
    (us : List PendingUnit) (k : String) (h : ℕ) (m : List (String × ℕ))
    → Idle us m
    → lookup k m ≡ some h
    → (get_elem? us h ≡ some fresh_unit) × Free h (delete k m)
lookup-Idle us k h [] v e = cc
lookup-Idle us k h ((j, i) ∷ m) v e = elim (Bool-cases (str_eq j k)) [
  | inl t ↦
      let same : i ≡ h = Option.some-injective _ _ (ground arith) in
      rw t (rw (← same) (v.0, Free-delete i k m v.1))
  | inr t ↦
      let later : lookup k m ≡ some h = ground arith in
      let (fresh, free) = lookup-Idle us k h m v.2 later in
      rw t (fresh, (λ same. Free-lookup i h k m v.1 later (ground arith), free))
]

lookup-delete : (k : String) (m : List (String × ℕ)) → lookup k (delete k m) ≡ none
lookup-delete k [] = refl
lookup-delete k ((j, i) ∷ m) = ground (arith, lookup-delete k m)

pub cancel-IsValid : (id : String) (q : Queue) → IsValid q → IsValid (cancel id q)
unfolding cancel
cancel-IsValid id q v = Idle-delete q.units id q.pending v

pub register-IsValid : (id : String) (q : Queue) → IsValid q → IsValid (register id q).0
unfolding register
register-IsValid id q v = (
  get_elem?-last q.units fresh_unit,
  Free-delete (length q.units) id q.pending (Free-length q.units q.pending v),
  Idle-delete (q.units ++ (fresh_unit ∷ [])) id q.pending
      (Idle-append q.units fresh_unit q.pending v),
)

-- The two ways in which a delivery to `id` ends, where `sent` is what the unit's channels then hold:
-- the id is not pending and nothing happens, or its unit has received the message, the id is no
-- longer pending, and the queue stays valid.
abbrev pub Answered : String → PendingUnit → Queue → Outcome (Queue × Bool) → Type 0
Answered id sent q r =
    ((lookup id q.pending ≡ none) × (r ≡ returns (q, false)))
    ⊎ ((h : ℕ) × (q' : Queue) × (lookup id q.pending ≡ some h)
        × (r ≡ returns (q', true))
        × (get_elem? q'.units h ≡ some sent)
        × (lookup id q'.pending ≡ none)
        × IsValid q')

-- In a valid queue, where every pending id has its own unit with empty channels, Resolve returns:
-- for an id that is not pending it changes nothing and answers false; otherwise the unit of the id
-- holds the result and nothing else, the id is no longer pending, and the queue is valid.
pub resolve-Answered :
    (id : String) (r : Result) (q : Queue)
    → IsValid q
    → Answered id (record { result_ch = r ∷ []; error_ch = [] }) q (resolve id r q)
unfolding resolve
resolve-Answered id r q v = elim (Option-cases (lookup id q.pending)) [
  | inl e ↦ inl (e, rw (e, resolve))
  | inr (h, e) ↦
      let (fresh, free) = lookup-Idle q.units id h q.pending v e in
      let put : PendingUnit → PendingUnit = λ u. record u { result_ch = u.result_ch ++ (r ∷ []) } in
      inr (
        h,
        record q { pending = delete id q.pending; units = modify_at put h q.units },
        e,
        ground (arith, e, fresh),
        get_elem?-modify_at put q.units fresh_unit h fresh,
        lookup-delete id q.pending,
        Idle-modify_at put q.units h (delete id q.pending) free
            (Idle-delete q.units id q.pending v),
      )
]

-- In a valid queue Reject returns: for an id that is not pending it changes nothing and answers
-- false; otherwise the unit of the id holds the error and nothing else, the id is no longer
-- pending, and the queue is valid.
pub reject-Answered :
    (id : String) (x : Error) (q : Queue)
    → IsValid q
    → Answered id (record { result_ch = []; error_ch = x ∷ [] }) q (reject id x q)
unfolding reject
reject-Answered id x q v = elim (Option-cases (lookup id q.pending)) [
  | inl e ↦ inl (e, rw (e, reject))
  | inr (h, e) ↦
      let (fresh, free) = lookup-Idle q.units id h q.pending v e in
      let put : PendingUnit → PendingUnit = λ u. record u { error_ch = u.error_ch ++ (x ∷ []) } in
      inr (
        h,
        record q { pending = delete id q.pending; units = modify_at put h q.units },
        e,
        ground (arith, e, fresh),
        get_elem?-modify_at put q.units fresh_unit h fresh,
        lookup-delete id q.pending,
        Idle-modify_at put q.units h (delete id q.pending) free
            (Idle-delete q.units id q.pending v),
      )
]
