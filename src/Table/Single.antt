-- ===== src/Table/Single.antt =====
-- Tables with one row: the settings that are read by `First` and written by `Create` or `Updates`.
use synergia.Prelude.{◌≡◌, ◌⊎◌, inl, inr, refl, Bool, true, some, find?, arith, ap, ◌∙◌}
use synergia.Table.{Table, Found, found, missing, failed, from_option}
use synergia.Table.Lists.{find?-append, find?-modify_first_self}
use synergia.Table.Queries.{first-row, first-none, written}

-- A read answers the row, unless it fails.
abbrev pub Reads : {R : Type 0} → Found R → R → Type 0
Reads x r = (x ≡ failed) ⊎ (x ≡ found r)

abbrev all : {R : Type 0} → R → Bool
all r = true

module _ {R : Type 0} (T : Table R) where
  first-Reads :
      (s : T.State) (r : R)
      → find? (λ r. true) (T.rows s) ≡ some r
      → Reads (T.first (λ r. true) s) r
  first-Reads s r e = elim (T.first_lem (λ r. true) s) [
    | inl h ↦ inl h
    | inr h ↦ inr (h ∙ ap from_option e)
  ]

  -- The row that was created is the one that is read, where there was none.
  pub create-Reads :
      (r : R) (s : T.State)
      → T.first (λ r. true) s ≡ missing
      → (T.create r s).1 ≡ true
      → Reads (T.first (λ r. true) (T.create r s).0) r
  create-Reads r s e done = first-Reads (T.create r s).0 r (
      ap (find? (λ r. true)) (written (T.create_lem r s) done)
      ∙ ground (arith, find?-append (λ r. true) (T.rows s) r, first-none T (λ r. true) s e))

  -- The row that was changed is the one that is read.
  pub save-Reads :
      (f : R → R) (old : R) (s : T.State)
      → T.first (λ r. true) s ≡ found old
      → (T.save (λ r. true) f s).1 ≡ true
      → Reads (T.first (λ r. true) (T.save (λ r. true) f s).0) (f old)
  save-Reads f old s e done = first-Reads (T.save (λ r. true) f s).0 (f old) (
      ap (find? (λ r. true)) (written (T.save_lem (λ r. true) f s) done)
      ∙ ground (
        arith,
        find?-modify_first_self (λ r. true) f (T.rows s) (λ r. refl),
        first-row T (λ r. true) s old e,
      ))
