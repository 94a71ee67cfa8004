-- ===== src/Client/Gpu/Window.antt =====
-- internal/client/gpu/monitor.go: the rolling window of the recorded samples and its statistics. A
-- utilisation is a percentage, so it is not negative.
use synergia.Prelude.{
  ℕ, zero, suc, ◌+◌, ◌*◌, ◌/◌, ◌%◌, Bool, true, false, List, [], ◌∷◌, ◌++◌, length, drop, leb, ltb,
  ◌==◌, if◌then◌else◌,
}

abbrev pub window_size : ℕ
window_size = 180

pub record Window : Type 0 where
  pub buf : List ℕ
  pub head : ℕ
  pub full : Bool

abbrev pub set : List ℕ → ℕ → ℕ → List ℕ
set [] i v = []
set (x ∷ xs) zero v = v ∷ xs
set (x ∷ xs) (suc i) v = x ∷ set xs i v

abbrev pub take : ℕ → List ℕ → List ℕ
take zero xs = []
take (suc n) [] = []
take (suc n) (x ∷ xs) = x ∷ take n xs

abbrev pub replicate : ℕ → ℕ → List ℕ
replicate zero v = []
replicate (suc n) v = v ∷ replicate n v

-- The zero value of the three fields.
unfoldable pub empty_window : Window
empty_window = record { buf = replicate window_size 0; head = 0; full = false }

-- The part of check that records a sample.
unfoldable pub push : ℕ → Window → Window
push utilization w =
    let head = (w.head + 1) % length w.buf in
    record {
      buf = set w.buf w.head utilization;
      head = head;
      full = if head == 0 then true else w.full;
    }

-- The samples that Stats copies out, oldest first.
unfoldable pub samples : Window → List ℕ
samples w = if w.full then drop w.head w.buf ++ take w.head w.buf else take w.head w.buf

pub record GpuStats : Type 0 where
  pub mean : ℕ
  pub baseline_mean : ℕ
  pub min : ℕ
  pub max : ℕ
  pub sample_count : ℕ

abbrev pub sum : List ℕ → ℕ
sum [] = 0
sum (x ∷ xs) = x + sum xs

abbrev pub least : ℕ → List ℕ → ℕ
least m [] = m
least m (x ∷ xs) = least (if ltb x m then x else m) xs

abbrev pub greatest : ℕ → List ℕ → ℕ
greatest m [] = m
greatest m (x ∷ xs) = greatest (if ltb m x then x else m) xs

-- sort.Ints
abbrev pub insert : ℕ → List ℕ → List ℕ
insert x [] = x ∷ []
insert x (y ∷ ys) = let rest = insert x ys in if leb x y then x ∷ y ∷ ys else y ∷ rest

unfoldable pub sort : List ℕ → List ℕ
sort [] = []
sort (x ∷ xs) = insert x (sort xs)

abbrev pub cutoff : ℕ → ℕ
cutoff size = let part = size * 85 / 100 in if leb part 1 then 1 else part

abbrev pub stats_of : List ℕ → GpuStats
stats_of [] = record { mean = 0; baseline_mean = 0; min = 0; max = 0; sample_count = 0 }
stats_of (x ∷ xs) =
    let size = suc (length xs) in
    record {
      mean = sum (x ∷ xs) / size;
      baseline_mean = sum (take (cutoff size) (sort (x ∷ xs))) / cutoff size;
      min = least x xs;
      max = greatest x xs;
      sample_count = size;
    }

unfoldable pub stats : Window → GpuStats
unfolding samples sort
stats w = stats_of (samples w)
