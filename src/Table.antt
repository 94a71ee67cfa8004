-- ===== src/Table.antt =====
-- The database under internal/manager/store is reached through gorm, which is not part of the
-- repository: a table is a parameter, with what gorm documents of each call as its laws. A call
-- may fail, and then leaves the rows as they were.
pub mod Lists
pub mod Order
pub mod Queries
pub mod Single
use mathlib.Core.List.{Perm}
use Order.{IsOrdered, sort_by, sort_by-IsOrdered, sort_by-perm}
use synergia.Prelude.{
  ℕ, ◌≡◌, refl, ◌⊎◌, inl, inr, Bool, true, false, Option, none, some, List, [], ◌∷◌, ◌++◌, find?,
  filter, modify, modify_first, not,
}

-- What `First` answers: the row, `gorm.ErrRecordNotFound`, or any other error.
pub data Found (R : Type 0) : Type 0 where
  found : R → Found R
  missing : Found R
  failed : Found R

abbrev pub from_option : {R : Type 0} → Option R → Found R
from_option none = missing
from_option (some r) = found r

abbrev pub is_found : {R : Type 0} → Found R → Bool
is_found (found r) = true
is_found missing = false
is_found failed = false

pub Found-cases :
    {R : Type 0} (x : Found R) → ((r : R) × (x ≡ found r)) ⊎ ((x ≡ missing) ⊎ (x ≡ failed))
Found-cases (found r) = inl (r, refl)
Found-cases missing = inr (inl refl)
Found-cases failed = inr (inr refl)

-- The outcome of a write to rows `old`: it succeeded and gave `new`, or failed and gave `old`.
abbrev pub Writes : {R : Type 0} → List R → List R → List R → Bool → Type 0
Writes old new after done = ((done ≡ true) × (after ≡ new)) ⊎ ((done ≡ false) × (after ≡ old))

-- One table with rows of type `R`, in the order of their primary keys.
pub record Table (R : Type 0) : Type 1 where
  pub State : Type 0
  pub rows : State → List R
  -- Where(p).First(&r)
  pub first : (R → Bool) → State → Found R
  -- Where(p).Find(&rs); none is an error
  pub find : (R → Bool) → State → Option (List R)
  -- Where(p).Order("column ASC").Find(&rs)
  pub find_ordered : (R → Bool) → (R → ℕ) → State → Option (List R)
  -- Create(&r)
  pub create : R → State → State × Bool
  -- Model(&R{}).Where(p).Updates(f)
  pub update : (R → Bool) → (R → R) → State → State × Bool
  -- Model(&r).Updates(f), for the row r that Where(p).First(&r) has read
  pub save : (R → Bool) → (R → R) → State → State × Bool
  -- Where(p).Delete(&R{})
  pub delete : (R → Bool) → State → State × Bool
  pub first_lem :
      (p : R → Bool) (s : State)
      → (first p s ≡ failed) ⊎ (first p s ≡ from_option (find? p (rows s)))
  pub find_lem :
      (p : R → Bool) (s : State) → (find p s ≡ none) ⊎ (find p s ≡ some (filter p (rows s)))
  pub find_ordered_lem :
      (p : R → Bool) (column : R → ℕ) (s : State)
      → (find_ordered p column s ≡ none)
        ⊎ ((l : List R) × (find_ordered p column s ≡ some l)
            × IsOrdered column l
            × Perm l (filter p (rows s)))
  pub create_lem :
      (r : R) (s : State)
      → Writes (rows s) (rows s ++ (r ∷ [])) (rows (create r s).0) (create r s).1
  pub update_lem :
      (p : R → Bool) (f : R → R) (s : State)
      → Writes (rows s) (modify p f (rows s)) (rows (update p f s).0) (update p f s).1
  pub save_lem :
      (p : R → Bool) (f : R → R) (s : State)
      → Writes (rows s) (modify_first p f (rows s)) (rows (save p f s).0) (save p f s).1
  pub delete_lem :
      (p : R → Bool) (s : State)
      → Writes (rows s) (filter (λ r. not (p r)) (rows s)) (rows (delete p s).0) (delete p s).1

-- A table in memory whose calls all succeed, which meets the laws.
abbrev pub in_memory : (R : Type 0) → Table R
in_memory R = record {
  State = List R;
  rows = λ s. s;
  first = λ p s. from_option (find? p s);
  find = λ p s. some (filter p s);
  find_ordered = λ p column s. some (sort_by column (filter p s));
  create = λ r s. (s ++ (r ∷ []), true);
  update = λ p f s. (modify p f s, true);
  save = λ p f s. (modify_first p f s, true);
  delete = λ p s. (filter (λ r. not (p r)) s, true);
  first_lem = λ p s. inr refl;
  find_lem = λ p s. inr refl;
  find_ordered_lem = λ p column s. inr (
    sort_by column (filter p s),
    refl,
    sort_by-IsOrdered column (filter p s),
    sort_by-perm column (filter p s),
  );
  create_lem = λ r s. inl (refl, refl);
  update_lem = λ p f s. inl (refl, refl);
  save_lem = λ p f s. inl (refl, refl);
  delete_lem = λ p s. inl (refl, refl);
}
