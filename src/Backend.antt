-- ===== src/Backend.antt =====
-- internal/manager/backend/backend.go: the expansion of download URL templates. Go walks bytes; the
-- model walks characters, which finds the same places, since the placeholders are ASCII.
pub mod Expansion
mod Tests
use Prim.Native.Char.{Char, code}
use synergia.Prelude.{
  ℕ, zero, suc, ◌+◌, String, Bool, true, false, Option, none, some, List, [], ◌∷◌, str_eq,
  str_append, ◌==◌, if◌then◌else◌,
}

abbrev pub names : List String
names = "llama.cpp" ∷ []

unfoldable pub is_valid_in : String → List String → Bool
is_valid_in name [] = false
is_valid_in name (n ∷ ns) = let rest = is_valid_in name ns in if str_eq n name then true else rest

unfoldable pub is_valid : String → Bool
unfolding is_valid_in
is_valid name = is_valid_in name names

unfoldable pub map_platform : String → String
map_platform goos =
    if str_eq goos "darwin"
    then "macos"
    else if str_eq goos "linux"
    then "ubuntu"
    else if str_eq goos "windows"
    then "win-cpu"
    else goos

unfoldable pub map_arch : String → String
map_arch goarch = if str_eq goarch "amd64" then "x64" else goarch

unfoldable pub map_ext : String → String
map_ext goos = if str_eq goos "windows" then "zip" else "tar.gz"

-- s[i:i+len(old)] == old at the start of `s`: the rest behind it
abbrev pub strip : String → String → Option String
strip String.[] s = some s
strip (String.◌∷◌ c old) String.[] = none
strip (String.◌∷◌ c old) (String.◌∷◌ d s) =
    let rest = strip old s in if code c == code d then rest else none

-- The texts before and behind the first occurrence of `old`; none where indexOf is -1.
abbrev pub before : Char → Option (String × String) → Option (String × String)
before c none = none
before c (some (b, a)) = some (String.◌∷◌ c b, a)

abbrev or_else : Option String → Option (String × String) → Option (String × String)
or_else (some rest) later = some (String.[], rest)
or_else none later = later

abbrev pub cut : String → String → Option (String × String)
cut old String.[] = or_else (strip old String.[]) none
cut old (String.◌∷◌ c s) =
    let later = before c (cut old s) in or_else (strip old (String.◌∷◌ c s)) later

-- The loop of replaceAll on `fuel` rounds; none means that it has not ended within them.
unfoldable pub replace_all : ℕ → String → String → String → Option String
replace_all zero old new s = none
replace_all (suc fuel) old new s = elim (cut old s) [
  | none ↦ some s
  | some (b, a) ↦ replace_all fuel old new (str_append b (str_append new a))
]

-- How often `{` occurs, which is the number of rounds that a text without new ones can need.
abbrev pub braces : String → ℕ
braces String.[] = 0
braces (String.◌∷◌ c s) = let rest = braces s in if code c == b'{' then suc rest else rest

-- `rounds` rounds, and one more than the text has `{`.
abbrev pub replace : ℕ → String → String → String → Option String
replace rounds old new s = replace_all (rounds + suc (braces s)) old new s

infixl 5 ◌>>=◌
abbrev ◌>>=◌ {ℓ κ} : {A : Type ℓ} {B : Type κ} → Option A → (A → Option B) → Option B
none >>= f = none
some a >>= f = f a

unfoldable pub expand_url : ℕ → String → String → String → String → Option String
unfolding map_platform map_arch map_ext replace_all
expand_url rounds tpl version goos goarch = do
  a ← replace rounds "{version}" version tpl
  b ← replace rounds "{os}" goos a
  c ← replace rounds "{platform}" (map_platform goos) b
  d ← replace rounds "{arch}" (map_arch goarch) c
  replace rounds "{ext}" (map_ext goos) d
