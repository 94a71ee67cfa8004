-- ===== src/Table/Queries.antt =====
-- What the answer of a query says of the rows.
use mathlib.Core.List.{Memᴰ}
use synergia.Prelude.{
  ◌≡◌, sym, inl, inr, Bool, true, none, some, List, [], ◌∷◌, find?, Bool-cases, Option-cases, arith,
}
use synergia.Table.{Table, Writes, found, missing, is_found}

module _ {R : Type 0} (p : R → Bool) where
  pub find?-Memᴰ : (rs : List R) (r : R) → find? p rs ≡ some r → Memᴰ r rs × (p r ≡ true)
  find?-Memᴰ [] r h = cc
  find?-Memᴰ (t ∷ rs) r h = elim (Bool-cases (p t)) [
    | inl e ↦ let same : t ≡ r = ground arith in (Memᴰ.head (sym same), rw (← same) e)
    | inr e ↦ let (m, q) = find?-Memᴰ rs r (ground arith) in (Memᴰ.tail m, q)
  ]

module _ {R : Type 0} (T : Table R) where
  -- A row that `First` finds is in the table and meets the condition.
  pub first-found :
      (p : R → Bool) (s : T.State)
      → is_found (T.first p s) ≡ true
      → (r : R) × Memᴰ r (T.rows s) × (p r ≡ true)
  first-found p s h = elim (Option-cases (find? p (T.rows s))) [
    | inl e ↦ absurd (ground (arith, T.first_lem p s))
    | inr (r, e) ↦ let (m, q) = find?-Memᴰ p (T.rows s) r e in (r, m, q)
  ]

  -- The row itself, where the caller reads it.
  pub first-row :
      (p : R → Bool) (s : T.State) (r : R) → T.first p s ≡ found r → find? p (T.rows s) ≡ some r
  first-row p s r h = elim (Option-cases (find? p (T.rows s))) [
    | inl e ↦ absurd (ground (arith, T.first_lem p s))
    | inr (t, e) ↦ ground (arith, T.first_lem p s)
  ]

-- A write that succeeds stores the new rows.
pub written :
    {R : Type 0} {old new now : List R} {done : Bool}
    → Writes old new now done
    → done ≡ true
    → now ≡ new
written w h = ground (arith, w, h)

-- Where `First` misses, no row meets the condition.
pub first-none :
    {R : Type 0} (T : Table R) (p : R → Bool) (t : T.State)
    → T.first p t ≡ missing
    → find? p (T.rows t) ≡ none
first-none T p t h = elim (Option-cases (find? p (T.rows t))) [
  | inl e ↦ e
  | inr (r, e) ↦ absurd (ground (arith, T.first_lem p t))
]
