-- ===== src/Latency/Percentiles.antt =====
-- The percentiles and the buckets of internal/manager/latency/monitor.go.
use native.Mathlib.Nat.{mul-le-mul_left}
use synergia.Prelude.{
  ℕ, zero, suc, ◌-◌, ◌*◌, ◌/◌, ◌≤◌, ◌<◌, ◌≡◌, ℤ, pos, ◌≤ℤ◌, List, [], ◌∷◌, length, leb,
  if◌then◌else◌, arith,
}
use synergia.Latency.Buckets.{get_or, insert, sort, percentile}

-- In ascending order.
abbrev pub AtLeast : ℤ → List ℤ → Type 0
AtLeast n [] = Unit {0}
AtLeast n (x ∷ xs) = (n ≤ℤ x) × AtLeast n xs

abbrev pub IsSorted : List ℤ → Type 0
IsSorted [] = Unit {0}
IsSorted (x ∷ xs) = AtLeast x xs × IsSorted xs

AtLeast-mono : (m n : ℤ) (xs : List ℤ) → m ≤ℤ n → AtLeast n xs → AtLeast m xs
AtLeast-mono m n [] h a = tt
AtLeast-mono m n (x ∷ xs) h a = (omega arith, AtLeast-mono m n xs h a.1)

insert-AtLeast : (n x : ℤ) (xs : List ℤ) → n ≤ℤ x → AtLeast n xs → AtLeast n (insert x xs)
insert-AtLeast n x [] h a = (h, tt)
insert-AtLeast n x (y ∷ xs) h a = ground (arith, insert-AtLeast n x xs h a.1)

insert-IsSorted : (x : ℤ) (xs : List ℤ) → IsSorted xs → IsSorted (insert x xs)
insert-IsSorted x [] o = (tt, tt)
insert-IsSorted x (y ∷ xs) o =
    ground (arith, insert-IsSorted x xs o.1, insert-AtLeast y x xs, AtLeast-mono x y xs)

pub sort-IsSorted : (xs : List ℤ) → IsSorted (sort xs)
sort-IsSorted [] = tt
sort-IsSorted (x ∷ xs) = insert-IsSorted x (sort xs) (sort-IsSorted xs)

get_or-AtLeast :
    (n : ℤ) (xs : List ℤ) (i : ℕ) (d : ℤ) → i < length xs → AtLeast n xs → n ≤ℤ get_or xs i d
get_or-AtLeast n [] i d h a = absurd (omega arith)
get_or-AtLeast n (x ∷ xs) zero d h a = a.0
get_or-AtLeast n (x ∷ xs) (suc i) d h a = get_or-AtLeast n xs i d (omega arith) a.1

get_or_mono :
    (xs : List ℤ) (i j : ℕ) (d : ℤ)
    → i ≤ j
    → j < length xs
    → IsSorted xs
    → get_or xs i d ≤ℤ get_or xs j d
get_or_mono [] i j d h l o = absurd (omega arith)
get_or_mono (x ∷ xs) zero zero d h l o = omega arith
get_or_mono (x ∷ xs) zero (suc j) d h l o = get_or-AtLeast x xs j d (omega arith) o.0
get_or_mono (x ∷ xs) (suc i) zero d h l o = absurd (omega arith)
get_or_mono (x ∷ xs) (suc i) (suc j) d h l o = get_or_mono xs i j d (omega arith) (omega arith) o.1

-- The place that a percentile reads.
place : ℕ → ℕ → ℕ
place n pct = if leb n (n * pct / 100) then n - 1 else n * pct / 100

percentile-place :
    (x : ℤ) (xs : List ℤ) (pct : ℕ)
    → percentile (x ∷ xs) pct ≡ get_or (x ∷ xs) (place (length (x ∷ xs)) pct) (pos 0)
unfolding percentile place
percentile-place x xs pct = ground arith

place_bound : (n pct : ℕ) → 0 < n → place n pct < n
unfolding place
place_bound n pct h = ground arith

scaled_mono : (n p q : ℕ) → p ≤ q → n * p / 100 ≤ n * q / 100
scaled_mono n p q h = ground (arith, mul-le-mul_left n h)

place_mono : (n p q : ℕ) → p ≤ q → place n p ≤ place n q
unfolding place
place_mono n p q h = ground (arith, scaled_mono n p q h)

percentile_mono-sorted :
    (ys : List ℤ) (p q : ℕ) → p ≤ q → IsSorted ys → percentile ys p ≤ℤ percentile ys q
unfolding percentile
percentile_mono-sorted [] p q h o = omega arith
percentile_mono-sorted (y ∷ ys) p q h o =
    rw (percentile-place y ys p, percentile-place y ys q)
      (get_or_mono (y ∷ ys) (place n p) (place n q) (pos 0) (place_mono n p q h)
        (place_bound n q (omega arith)) o)
  where
    n : ℕ
    n = length (y ∷ ys)

-- A higher percentile of the same latencies, sorted, is not smaller.
pub percentile_mono :
    (xs : List ℤ) (p q : ℕ) → p ≤ q → percentile (sort xs) p ≤ℤ percentile (sort xs) q
percentile_mono xs p q h = percentile_mono-sorted (sort xs) p q h (sort-IsSorted xs)
