-- ===== src/Table/Lists.antt =====
-- What the selections of a table do to the row that a key names.
use synergia.Prelude.{
  ◌≡◌, refl, Bool, true, false, ◌&&◌, List, [], ◌∷◌, ◌++◌, find?, modify, modify_first,
  if◌then◌else◌, none, some, arith, String, str_eq, eq_iff,
}
use mathlib.Core.Option

module _ {R : Type 0} (q : R → Bool) where
  -- A write that touches no key is seen through the lookup by that key.
  pub find?-modify :
      (p : R → Bool) (f : R → R) (rs : List R)
      → ((r : R) → q (f r) ≡ q r)
      → find? q (modify p f rs) ≡ Option.map (λ r. if p r then f r else r) (find? q rs)
  find?-modify p f [] h = refl
  find?-modify p f (r ∷ rs) h = ground (arith, h r, find?-modify p f rs h)

  -- The first row of the key itself is changed by a write to the first row.
  pub find?-modify_first_self :
      (f : R → R) (rs : List R)
      → ((r : R) → q (f r) ≡ q r)
      → find? q (modify_first q f rs) ≡ Option.map (λ r. if q r then f r else r) (find? q rs)
  find?-modify_first_self f [] h = refl
  find?-modify_first_self f (r ∷ rs) h = ground (arith, h r, find?-modify_first_self f rs h)

  find?-excluded :
      (p : R → Bool) (f : R → R) (rs : List R)
      → ((r : R) → (p r && q r) ≡ false)
      → find? q rs ≡ Option.map (λ r. if p r then f r else r) (find? q rs)
  find?-excluded p f [] h = refl
  find?-excluded p f (r ∷ rs) h = ground (arith, h r, find?-excluded p f rs h)

  -- A row of a key that `q` excludes is not.
  pub find?-modify_first_other :
      (p : R → Bool) (f : R → R) (rs : List R)
      → ((r : R) → q (f r) ≡ q r)
      → ((r : R) → (p r && q r) ≡ false)
      → find? q (modify_first p f rs) ≡ Option.map (λ r. if p r then f r else r) (find? q rs)
  find?-modify_first_other p f [] h k = refl
  find?-modify_first_other p f (r ∷ rs) h k =
      ground (arith, h r, k r, find?-excluded p f rs k, find?-modify_first_other p f rs h k)

  pub find?-holds : (rs : List R) (r : R) → find? q rs ≡ some r → q r ≡ true
  find?-holds [] r h = cc
  find?-holds (t ∷ rs) r h = ground (arith, find?-holds rs r)

  pub find?-append :
      (rs : List R) (t : R)
      → find? q (rs ++ (t ∷ []))
        ≡ (elim (find? q rs) [ none ↦ (if q t then some t else none) | some r ↦ some r ])
  find?-append [] t = ground arith
  find?-append (r ∷ rs) t = ground (arith, find?-append rs t)

  -- A stronger test finds nothing where the weaker one does not.
  pub find?-none :
      (c : R → Bool) (rs : List R) → find? q rs ≡ none → find? (λ r. q r && c r) rs ≡ none
  find?-none c [] h = refl
  find?-none c (r ∷ rs) h = ground (arith, find?-none c rs)

module _ {R : Type 0} (key : R → String) where
  -- No two rows share a key, as a unique index demands.
  abbrev pub Keyed : List R → Type 0
  Keyed [] = Unit {0}
  Keyed (r ∷ rs) = (find? (λ t. str_eq (key t) (key r)) rs ≡ none) × Keyed rs

  -- A query by a key and a condition reads the row of that key.
  pub find?-key :
      (k : String) (c : R → Bool) (rs : List R)
      → Keyed rs
      → find? (λ r. str_eq (key r) k && c r) rs ≡ (elim (find? (λ r. str_eq (key r) k) rs) [
        | none ↦ none
        | some r ↦ if c r then some r else none
      ])
  find?-key k c [] h = refl
  find?-key k c (r ∷ rs) h =
      ground
        (arith, eq_iff (key r) k, find?-key k c rs h.1, find?-none (λ t. str_eq (key t) k) c rs)

  module _ (p : R → Bool) (f : R → R) (h : (r : R) → key (f r) ≡ key r) where
    find?-modify-key :
        (k : String) (rs : List R)
        → find? (λ r. str_eq (key r) k) rs ≡ none
        → find? (λ r. str_eq (key r) k) (modify p f rs) ≡ none
    find?-modify-key k [] e = refl
    find?-modify-key k (r ∷ rs) e = ground (arith, h r, find?-modify-key k rs)

    find?-modify_first-key :
        (k : String) (rs : List R)
        → find? (λ r. str_eq (key r) k) rs ≡ none
        → find? (λ r. str_eq (key r) k) (modify_first p f rs) ≡ none
    find?-modify_first-key k [] e = refl
    find?-modify_first-key k (r ∷ rs) e = ground (arith, h r, find?-modify_first-key k rs)

    pub modify-Keyed : (rs : List R) → Keyed rs → Keyed (modify p f rs)
    modify-Keyed [] u = tt
    modify-Keyed (r ∷ rs) u = ground (arith, h r, find?-modify-key (key r) rs, modify-Keyed rs u.1)

    pub modify_first-Keyed : (rs : List R) → Keyed rs → Keyed (modify_first p f rs)
    modify_first-Keyed [] u = tt
    modify_first-Keyed (r ∷ rs) u =
        ground (arith, h r, find?-modify_first-key (key r) rs, modify_first-Keyed rs u.1)

  -- A row with a new key may be added.
  pub append-Keyed :
      (rs : List R) (t : R)
      → Keyed rs
      → find? (λ r. str_eq (key r) (key t)) rs ≡ none
      → Keyed (rs ++ (t ∷ []))
  append-Keyed [] t u e = (refl, tt)
  append-Keyed (r ∷ rs) t u e = ground (
    arith,
    eq_iff (key r) (key t),
    eq_iff (key t) (key r),
    append-Keyed rs t u.1,
    find?-append (λ a. str_eq (key a) (key r)) rs t,
  )
