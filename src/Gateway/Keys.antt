-- ===== src/Gateway/Keys.antt =====
-- Trust on first use: the key registry of internal/manager/gateway/websocket.go.
use synergia.Prelude.{
  ◌≡◌, refl, sym, ◌↔◌, inl, inr, true, none, some, List, [], ◌∷◌, String, str_eq, eq_iff,
  if◌then◌else◌, Option-cases, arith,
}
use synergia.Gateway.State.{
  Bytes, Gateway, lookup, delete, insert, bytes_eq, verify_or_register_key,
}

pub bytes_eq_refl : (xs : Bytes) → bytes_eq xs xs ≡ true
bytes_eq_refl [] = refl
bytes_eq_refl (x ∷ xs) = ground (arith, bytes_eq_refl xs)

pub eq_of_bytes_eq : (xs ys : Bytes) → bytes_eq xs ys ≡ true → xs ≡ ys
eq_of_bytes_eq [] [] h = refl
eq_of_bytes_eq [] (y ∷ ys) h = cc
eq_of_bytes_eq (x ∷ xs) [] h = cc
eq_of_bytes_eq (x ∷ xs) (y ∷ ys) h = ground (arith, eq_of_bytes_eq xs ys)

module _ {A : Type 0} where
  pub lookup-delete :
      (k j : String) (m : List (String × A))
      → lookup j (delete k m) ≡ (if str_eq k j then none else lookup j m)
  lookup-delete k j [] = ground arith
  lookup-delete k j ((i, v) ∷ m) =
      ground (arith, eq_iff k j, eq_iff i k, eq_iff i j, lookup-delete k j m)

  pub lookup-insert :
      (k j : String) (v : A) (m : List (String × A))
      → lookup j (insert k v m) ≡ (if str_eq k j then some v else lookup j m)
  lookup-insert k j v m = ground (arith, lookup-delete k j m)

-- The registry after a sequence of calls.
unfoldable pub verify_all : List (String × Bytes) → Gateway → Gateway
verify_all [] g = g
verify_all ((fp, key) ∷ calls) g = verify_all calls (verify_or_register_key fp key g).0

-- One call keeps every key on file.
key_kept :
    (fp j : String) (key other : Bytes) (g : Gateway)
    → lookup j g.known_keys ≡ some key
    → lookup j (verify_or_register_key fp other g).0.known_keys ≡ some key
unfolding verify_or_register_key
key_kept fp j key other g h = ground (arith, lookup-insert fp j other g.known_keys, eq_iff fp j)

keys_kept :
    (calls : List (String × Bytes)) (j : String) (key : Bytes) (g : Gateway)
    → lookup j g.known_keys ≡ some key
    → lookup j (verify_all calls g).known_keys ≡ some key
unfolding verify_all
keys_kept [] j key g h = h
keys_kept ((fp, other) ∷ calls) j key g h =
    keys_kept calls j key (verify_or_register_key fp other g).0 (key_kept fp j key other g h)

pub first_use :
    (fp : String) (key : Bytes) (g : Gateway)
    → (verify_or_register_key fp key g).1 ≡ true
    → lookup fp (verify_or_register_key fp key g).0.known_keys ≡ some key
unfolding verify_or_register_key
first_use fp key g h = elim (Option-cases (lookup fp g.known_keys)) [
  | inl e ↦ ground (arith, lookup-insert fp fp key g.known_keys, eq_iff fp fp)
  | inr (old, e) ↦ ground (arith, eq_of_bytes_eq old key)
]

answer :
    (fp : String) (key other : Bytes) (g : Gateway)
    → lookup fp g.known_keys ≡ some key
    → ((verify_or_register_key fp other g).1 ≡ true) ↔ (other ≡ key)
unfolding verify_or_register_key
answer fp key other g h =
    (λ t. sym (eq_of_bytes_eq key other (ground arith)), λ e. ground (arith, bytes_eq_refl key, e))

-- Once a call has accepted a key for a fingerprint, then after any further calls the fingerprint is
-- accepted with that key and with no other.
pub key_pinned :
    (fp : String) (key other : Bytes) (g : Gateway) (calls : List (String × Bytes))
    → (verify_or_register_key fp key g).1 ≡ true
    → ((verify_or_register_key fp other (verify_all calls (verify_or_register_key fp key g).0)).1
        ≡ true)
      ↔ (other ≡ key)
key_pinned fp key other g calls h =
    answer fp key other _
      (keys_kept calls fp key (verify_or_register_key fp key g).0 (first_use fp key g h))
