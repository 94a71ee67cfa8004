-- ===== src/LogBuffer/Ring.antt =====
-- What internal/logbuffer/logbuffer.go keeps of what was written.
use mathlib.Core.List.{append-nil, append_assoc}
use synergia.Prelude.{
  ℕ, zero, suc, ◌+◌, ◌-◌, ◌≤◌, ◌≡◌, refl, sym, ap, ◌∙◌, ◌⊎◌, inl, inr, Bool-cases, List, [], ◌∷◌,
  ◌++◌, map, ltb, length, drop, length-append, length-drop, arith,
}
use synergia.LogBuffer.{
  Bytes, Buffer, channel_size, new, trim_right, offer, push_entry, write, get_all,
}

List-cases : {A : Type 0} (xs : List A) → (xs ≡ []) ⊎ ((x : A) × (ys : List A) × (xs ≡ x ∷ ys))
List-cases [] = inl refl
List-cases (x ∷ ys) = inr (x, ys, refl)

-- The last `n` of a list.
abbrev pub last : {A : Type 0} → ℕ → List A → List A
last n xs = drop (length xs - n) xs

-- The lines that a sequence of writes logs: those with anything but newlines.
abbrev pub lines : List Bytes → List Bytes
lines [] = []
lines (p ∷ ps) = elim (trim_right p) [ [] ↦ lines ps | c ∷ l ↦ (c ∷ l) ∷ lines ps ]

unfoldable pub write_all : List Bytes → Buffer → Buffer
write_all [] b = b
write_all (p ∷ ps) b = write_all ps (write p b)

lines_cases : (p : Bytes) → (trim_right p ≡ []) ⊎ ((c : ℕ) × (l : Bytes) × (trim_right p ≡ c ∷ l))
lines_cases p = List-cases (trim_right p)

module _ {A : Type 0} where
  drop-append :
      (n : ℕ) (xs : List A) (y : A)
      → n ≤ length xs
      → drop n (xs ++ (y ∷ [])) ≡ drop n xs ++ (y ∷ [])
  drop-append zero xs y h = refl
  drop-append (suc n) [] y h = absurd (omega arith)
  drop-append (suc n) (x ∷ xs) y h = drop-append n xs y (omega arith)

  drop_nil : (m : ℕ) → drop {A = A} m [] ≡ []
  drop_nil zero = refl
  drop_nil (suc m) = refl

  drop-drop : (m n : ℕ) (xs : List A) → drop m (drop n xs) ≡ drop (n + m) xs
  drop-drop m zero xs = ap (λ k. drop k xs) (omega arith)
  drop-drop m (suc n) [] = drop_nil m ∙ sym (drop_nil (suc n + m))
  drop-drop m (suc n) (x ∷ xs) =
      drop-drop m n xs ∙ ap (λ k. drop k (x ∷ xs)) {x = suc (n + m)} (omega arith)

-- One append to the last `n` of a list gives the last `n` of the longer list.
push_entry-last :
    (n : ℕ) (x : Bytes) (xs : List Bytes) → push_entry n x (last n xs) ≡ last n (xs ++ (x ∷ []))
push_entry-last n x xs = elim (Bool-cases (ltb n (length all))) [
  | inl e ↦ rw e (
      ap (drop (length all - n)) whole
      ∙ drop-drop (length all - n) k (xs ++ (x ∷ []))
      ∙ ap (λ i. drop i (xs ++ (x ∷ []))) (ground (arith, size, size', e)))
  | inr e ↦ rw e (whole ∙ ap (λ i. drop i (xs ++ (x ∷ []))) (ground (arith, size, size', e)))
]
  where
    k : ℕ
    k = length xs - n

    all : List Bytes
    all = drop k xs ++ (x ∷ [])

    whole : all ≡ drop k (xs ++ (x ∷ []))
    whole = sym (drop-append k xs x (omega arith))

    size : length all ≡ length xs - k + 1
    size = omega (arith, length-append (drop k xs) (x ∷ []), length-drop k xs)

    size' : length (xs ++ (x ∷ [])) ≡ length xs + 1
    size' = omega (arith, length-append xs (x ∷ []))

next_lines : Bytes → List Bytes → List Bytes
next_lines [] ls = ls
next_lines (c ∷ l) ls = (c ∷ l) ∷ ls

lines-eq :
    (t : Bytes) (p : Bytes) (ps : List Bytes)
    → trim_right p ≡ t
    → lines (p ∷ ps) ≡ next_lines t (lines ps)
unfolding next_lines
lines-eq [] p ps e = ground (arith, e)
lines-eq (c ∷ l) p ps e = ground (arith, e)

-- The buffer after a write of the trimmed line.
logged : Bytes → Buffer → Buffer
logged [] b = b
logged (c ∷ l) b = record b {
  entries = push_entry b.max_size (c ∷ l) b.entries;
  subs = map (offer (c ∷ l)) b.subs;
}

write-eq : (t : Bytes) (p : Bytes) (b : Buffer) → trim_right p ≡ t → write p b ≡ logged t b
unfolding write logged
write-eq [] p b e = rw (e, write)
write-eq (c ∷ l) p b e = rw (e, write)

logged-last :
    (t : Bytes) (n : ℕ) (xs : List Bytes) (b : Buffer)
    → b.max_size ≡ n
    → b.entries ≡ last n xs
    → ((logged t b).max_size ≡ n) × ((logged t b).entries ≡ last n (xs ++ next_lines t []))
unfolding logged next_lines
logged-last [] n xs b hn h = (hn, h ∙ ap (last n) (sym (append-nil xs)))
logged-last (c ∷ l) n xs b hn h =
    (hn, (λ i. push_entry (hn i) (c ∷ l) (h i)) ∙ push_entry-last n (c ∷ l) xs)

next_lines-append :
    (t : Bytes) (xs ls : List Bytes) → (xs ++ next_lines t []) ++ ls ≡ xs ++ next_lines t ls
unfolding next_lines
next_lines-append [] xs ls = ap (λ ys. ys ++ ls) (append-nil xs)
next_lines-append (c ∷ l) xs ls = append_assoc xs ((c ∷ l) ∷ []) ls

write_all-last :
    (n : ℕ) (ps xs : List Bytes) (b : Buffer)
    → b.max_size ≡ n
    → b.entries ≡ last n xs
    → (write_all ps b).entries ≡ last n (xs ++ lines ps)
unfolding write_all
write_all-last n [] xs b hn h = h ∙ ap (last n) (sym (append-nil xs))
write_all-last n (p ∷ ps) xs b hn h =
    let t = trim_right p in
    let (size, kept) = logged-last t n xs b hn h in
    ap (λ c. (write_all ps c).entries) (write-eq t p b refl)
    ∙ write_all-last n ps (xs ++ next_lines t []) (logged t b) size kept
    ∙ ap (last n) (next_lines-append t xs (lines ps))
    ∙ ap (λ ls. last n (xs ++ ls)) (sym (lines-eq t p ps refl))

-- After any sequence of writes to a new buffer of capacity `n`, GetAll returns the last `n` of the
-- lines that were written and are not empty after their trailing newlines are cut, in order.
pub get_all-write_all :
    (n : ℕ) (ps : List Bytes) → get_all (write_all ps (new n)) ≡ last n (lines ps)
unfolding get_all new
get_all-write_all n ps = write_all-last n ps [] (new n) refl (sym (drop_nil (0 - n)))

-- No subscriber has more than 256 lines waiting.
abbrev pub Bounded : List (ℕ × List Bytes) → Type 0
Bounded [] = Unit {0}
Bounded ((id, ch) ∷ subs) = (length ch ≤ channel_size) × Bounded subs

offer-Bounded :
    (entry : Bytes) (subs : List (ℕ × List Bytes)) → Bounded subs → Bounded (map (offer entry) subs)
offer-Bounded entry [] v = tt
offer-Bounded entry ((id, ch) ∷ subs) v =
    (ground (arith, v.0, length-append ch (entry ∷ [])), offer-Bounded entry subs v.1)

-- Where every subscriber's channel is within its capacity, a write keeps it so.
pub write-Bounded : (p : Bytes) (b : Buffer) → Bounded b.subs → Bounded (write p b).subs
unfolding write
write-Bounded p b v = elim (lines_cases p) [
  | inl e ↦ rw (e, write) v
  | inr (c, l, e) ↦ rw (e, write) (offer-Bounded (c ∷ l) b.subs v)
]
