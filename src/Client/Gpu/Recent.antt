-- ===== src/Client/Gpu/Recent.antt =====
-- The rolling window holds the samples that were recorded last.
use mathlib.Core.List.{append_assoc, append-nil}
use mathlib.Core.Path.{subst}
use synergia.Prelude.{
  ℕ, zero, suc, ◌+◌, ◌-◌, ◌%◌, ◌<◌, ◌≤◌, ◌⊎◌, ◌≡◌, refl, sym, ap, ◌∙◌, Bool, true, false, inl, inr,
  List, [], ◌∷◌, ◌++◌, length, drop, length-append, ◌==◌, arith,
}
use native.Mathlib.Decide.{dec_lt}
use synergia.Client.Gpu.Window.{Window, set, take, window_size, empty_window, push, samples}

length-set : (xs : List ℕ) (i v : ℕ) → length (set xs i v) ≡ length xs
length-set [] i v = refl
length-set (x ∷ xs) zero v = refl
length-set (x ∷ xs) (suc i) v = ap suc (length-set xs i v)

take-set :
    (xs : List ℕ) (i v : ℕ) → i < length xs → take (suc i) (set xs i v) ≡ take i xs ++ (v ∷ [])
take-set [] i v h = absurd (omega arith)
take-set (x ∷ xs) zero v h = refl
take-set (x ∷ xs) (suc i) v h = ap (λ t. x ∷ t) (take-set xs i v (omega arith))

drop-set : (xs : List ℕ) (i v : ℕ) → drop (suc i) (set xs i v) ≡ drop (suc i) xs
drop-set [] i v = refl
drop-set (x ∷ xs) zero v = refl
drop-set (x ∷ xs) (suc i) v = drop-set xs i v

take-length : (xs : List ℕ) → take (length xs) xs ≡ xs
take-length [] = refl
take-length (x ∷ xs) = ap (λ t. x ∷ t) (take-length xs)

length-take : (n : ℕ) (xs : List ℕ) → n ≤ length xs → length (take n xs) ≡ n
length-take zero xs h = refl
length-take (suc n) [] h = absurd (omega arith)
length-take (suc n) (x ∷ xs) h = ap suc (length-take n xs (omega arith))

drop-append : (n : ℕ) (xs ys : List ℕ) → n ≤ length xs → drop n (xs ++ ys) ≡ drop n xs ++ ys
drop-append zero xs ys h = refl
drop-append (suc n) [] ys h = absurd (omega arith)
drop-append (suc n) (x ∷ xs) ys h = drop-append n xs ys (omega arith)

drop-suc : (n : ℕ) (xs : List ℕ) → drop (suc n) xs ≡ drop 1 (drop n xs)
drop-suc zero xs = refl
drop-suc (suc n) [] = refl
drop-suc (suc n) (x ∷ xs) = drop-suc n xs

drop-all : (xs : List ℕ) → drop (length xs) xs ≡ []
drop-all [] = refl
drop-all (x ∷ xs) = drop-all xs

length-drop-pos : (n : ℕ) (xs : List ℕ) → n < length xs → 1 ≤ length (drop n xs)
length-drop-pos zero xs h = h
length-drop-pos (suc n) [] h = absurd (omega arith)
length-drop-pos (suc n) (x ∷ xs) h = length-drop-pos n xs (omega arith)

-- How the head and the flag of a window of `n` places tell how many samples there were.
abbrev Extent : Bool → ℕ → ℕ → List ℕ → Type 0
Extent true head n xs = n ≤ length xs
Extent false head n xs = head ≡ length xs

-- The window, after the samples `xs`.
record Holds (n : ℕ) (w : Window) (xs : List ℕ) : Type 0 where
  size : length w.buf ≡ n
  below : w.head < n
  extent : Extent w.full w.head n xs
  recent : samples w ≡ drop (length xs - n) xs

suc-ne-zero : (n : ℕ) → (suc n == 0) ≡ false
suc-ne-zero n = ground arith

-- The head runs round.
next_head :
    (n h : ℕ) → h < n → ((suc h < n) × ((h + 1) % n ≡ suc h)) ⊎ ((suc h ≡ n) × ((h + 1) % n ≡ 0))
next_head n h i = elim (dec_lt (suc h) n) [
  | yes p ↦ inl (p, grind arith)
  | no p ↦ let e : suc h ≡ n = omega arith in inr (e, grind arith)
]

module _ (x : ℕ) (buf : List ℕ) (head : ℕ) (inside : head < length buf) where
  abbrev at : Bool → Window
  at full = record { buf = buf; head = head; full = full }

  take-round : suc head ≡ length buf → set buf head x ≡ take head buf ++ (x ∷ [])
  take-round e =
      sym (take-length (set buf head x))
      ∙ ap (λ n. take n (set buf head x)) (length-set buf head x ∙ sym e)
      ∙ take-set buf head x inside

  samples-push_part : samples (push x (at false)) ≡ samples (at false) ++ (x ∷ [])
  unfolding samples push
  samples-push_part = elim (next_head (length buf) head inside) [
    | inl (p, e) ↦ rw (e, suc-ne-zero head) (take-set buf head x inside)
    | inr (p, e) ↦ rw e (append-nil (set buf head x) ∙ take-round p)
  ]

  drop_first : drop 1 (drop head buf ++ take head buf) ≡ drop (suc head) buf ++ take head buf
  drop_first =
      drop-append 1 (drop head buf) (take head buf) (length-drop-pos head buf inside)
      ∙ ap (λ t. t ++ take head buf) (sym (drop-suc head buf))

  drop_round : suc head ≡ length buf → drop (suc head) buf ≡ []
  drop_round e = ap (λ n. drop n buf) e ∙ drop-all buf

  samples-push_full : samples (push x (at true)) ≡ drop 1 (samples (at true)) ++ (x ∷ [])
  unfolding samples push
  samples-push_full = elim (next_head (length buf) head inside) [
    | inl (p, e) ↦
        rw (e, suc-ne-zero head, drop_first, drop-set buf head x, take-set buf head x inside)
          (sym (append_assoc (drop (suc head) buf) (take head buf) (x ∷ [])))
    | inr (p, e) ↦ rw (e, drop_first, drop_round p) (append-nil (set buf head x) ∙ take-round p)
  ]

  module _ (xs : List ℕ) where
    drop_more :
        length buf ≤ length xs
        → drop (length (xs ++ (x ∷ [])) - length buf) (xs ++ (x ∷ []))
          ≡ drop 1 (drop (length xs - length buf) xs) ++ (x ∷ [])
    drop_more h =
        ap (λ n. drop n (xs ++ (x ∷ []))) {y = suc (length xs - length buf)}
          (omega (arith, length-append xs (x ∷ [])))
        ∙ drop-append (suc (length xs - length buf)) xs (x ∷ []) (omega arith)
        ∙ ap (λ t. t ++ (x ∷ [])) (drop-suc (length xs - length buf) xs)

    Holds-push_full :
        length buf ≤ length xs
        → samples (at true) ≡ drop (length xs - length buf) xs
        → Holds (length buf) (push x (at true)) (xs ++ (x ∷ []))
    unfolding push
    Holds-push_full h r = record {
      size = length-set buf head x;
      below = ground (arith, next_head (length buf) head inside);
      extent = ground (arith, length-append xs (x ∷ []));
      recent = samples-push_full ∙ ap (λ t. drop 1 t ++ (x ∷ [])) r ∙ sym (drop_more h);
    }

    Holds-push_part :
        head ≡ length xs
        → samples (at false) ≡ drop (length xs - length buf) xs
        → Holds (length buf) (push x (at false)) (xs ++ (x ∷ []))
    unfolding push
    Holds-push_part h r =
        let none_lost : length xs - length buf ≡ 0 = omega arith in
        let still : length (xs ++ (x ∷ [])) - length buf ≡ 0 =
          omega (arith, length-append xs (x ∷ [])) in
        record {
          size = length-set buf head x;
          below = ground (arith, next_head (length buf) head inside);
          extent = ground (arith, next_head (length buf) head inside, length-append xs (x ∷ []));
          recent =
              samples-push_part
              ∙ ap (λ t. t ++ (x ∷ [])) (r ∙ ap (λ n. drop n xs) none_lost)
              ∙ sym (ap (λ n. drop n (xs ++ (x ∷ []))) still);
        }

Holds-push_any :
    (buf : List ℕ) (head : ℕ) (full : Bool) (x : ℕ) (xs : List ℕ)
    → Holds (length buf) (record { buf = buf; head = head; full = full }) xs
    → Holds (length buf) (push x (record { buf = buf; head = head; full = full })) (xs ++ (x ∷ []))
Holds-push_any buf head true x xs h = Holds-push_full x buf head h.below xs h.extent h.recent
Holds-push_any buf head false x xs h = Holds-push_part x buf head h.below xs h.extent h.recent

Holds-push :
    {n : ℕ} {w : Window} {xs : List ℕ} (x : ℕ) → Holds n w xs → Holds n (push x w) (xs ++ (x ∷ []))
Holds-push {n} {w} {xs} x h =
    subst (λ k. Holds k (push x w) (xs ++ (x ∷ []))) h.size
      (Holds-push_any w.buf w.head w.full x xs (subst (λ k. Holds k w xs) (sym h.size) h))

-- The window after a run of samples.
abbrev pub push_all : List ℕ → Window → Window
push_all [] w = w
push_all (x ∷ xs) w = push_all xs (push x w)

Holds-push_all :
    {n : ℕ} (ys : List ℕ) (w : Window) (xs : List ℕ)
    → Holds n w xs
    → Holds n (push_all ys w) (xs ++ ys)
Holds-push_all [] w xs h = rw (append-nil xs) h
Holds-push_all {n} (y ∷ ys) w xs h =
    subst (Holds n (push_all (y ∷ ys) w)) (append_assoc xs (y ∷ []) ys)
      (Holds-push_all ys (push y w) (xs ++ (y ∷ [])) (Holds-push y h))

empty_window-Holds : Holds window_size empty_window []
unfolding empty_window samples
empty_window-Holds = record { size = refl; below = omega arith; extent = refl; recent = refl }

-- The samples that Stats reads after any run of recorded samples are the last 180 of the run, oldest
-- first, and the whole run where it is shorter.
pub samples-push_all :
    (xs : List ℕ) → samples (push_all xs empty_window) ≡ drop (length xs - window_size) xs
samples-push_all xs = (Holds-push_all xs empty_window [] empty_window-Holds).recent
