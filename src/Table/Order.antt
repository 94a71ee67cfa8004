-- ===== src/Table/Order.antt =====
-- Rows in ascending order of a column.
use mathlib.Core.List.{Perm}
use mathlib.Core.List.Perm
use synergia.Prelude.{ℕ, ◌≤◌, inl, inr, List, [], ◌∷◌, leb, if◌then◌else◌, Bool-cases, arith}

module _ {R : Type 0} (key : R → ℕ) where
  abbrev pub AtLeast : ℕ → List R → Type 0
  AtLeast n [] = Unit {0}
  AtLeast n (r ∷ rs) = (n ≤ key r) × AtLeast n rs

  abbrev pub IsOrdered : List R → Type 0
  IsOrdered [] = Unit {0}
  IsOrdered (r ∷ rs) = AtLeast (key r) rs × IsOrdered rs

  abbrev pub insert_by : R → List R → List R
  insert_by r [] = r ∷ []
  insert_by r (t ∷ rs) =
      let rest = insert_by r rs in if leb (key r) (key t) then r ∷ t ∷ rs else t ∷ rest

  abbrev pub sort_by : List R → List R
  sort_by [] = []
  sort_by (r ∷ rs) = insert_by r (sort_by rs)

  AtLeast-mono : (m n : ℕ) (rs : List R) → m ≤ n → AtLeast n rs → AtLeast m rs
  AtLeast-mono m n [] h a = tt
  AtLeast-mono m n (r ∷ rs) h a = (omega arith, AtLeast-mono m n rs h a.1)

  insert_by-AtLeast :
      (n : ℕ) (r : R) (rs : List R) → n ≤ key r → AtLeast n rs → AtLeast n (insert_by r rs)
  insert_by-AtLeast n r [] h a = (h, tt)
  insert_by-AtLeast n r (t ∷ rs) h a = ground (arith, insert_by-AtLeast n r rs h a.1)

  insert_by-IsOrdered : (r : R) (rs : List R) → IsOrdered rs → IsOrdered (insert_by r rs)
  insert_by-IsOrdered r [] o = (tt, tt)
  insert_by-IsOrdered r (t ∷ rs) o = ground (
    arith,
    insert_by-IsOrdered r rs o.1,
    insert_by-AtLeast (key t) r rs,
    AtLeast-mono (key r) (key t) rs,
  )

  pub sort_by-IsOrdered : (rs : List R) → IsOrdered (sort_by rs)
  sort_by-IsOrdered [] = tt
  sort_by-IsOrdered (r ∷ rs) = insert_by-IsOrdered r (sort_by rs) (sort_by-IsOrdered rs)

  insert_by-perm : (r : R) (rs : List R) → Perm (insert_by r rs) (r ∷ rs)
  insert_by-perm r [] = Perm.refl (r ∷ [])
  insert_by-perm r (t ∷ rs) = elim (Bool-cases (leb (key r) (key t))) [
    | inl e ↦ rw e (Perm.refl (r ∷ t ∷ rs))
    | inr e ↦ rw e (Perm.trans (Perm.cons t (insert_by-perm r rs)) (Perm.swap r t rs))
  ]

  pub sort_by-perm : (rs : List R) → Perm (sort_by rs) rs
  sort_by-perm [] = Perm.refl []
  sort_by-perm (r ∷ rs) = Perm.trans (insert_by-perm r (sort_by rs)) (Perm.cons r (sort_by-perm rs))
