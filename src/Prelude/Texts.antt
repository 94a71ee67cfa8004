-- ===== src/Prelude/Texts.antt =====
-- Go's strings package, on the texts that the program tests.
use Prim.Native.Char.{code}
use Prim.Native.String.{String}
use mathlib.Core.Bool.{Bool, true, false}
use mathlib.Core.Option.{Option, none, some}
use text.Mathlib.Text.{◌==◌ as str_eq}
use synergia.Prelude.Tests.{◌==◌, if◌then◌else◌}

-- The text behind a prefix.
abbrev pub strip_prefix : String → String → Option String
strip_prefix String.[] s = some s
strip_prefix (String.◌∷◌ c p) String.[] = none
strip_prefix (String.◌∷◌ c p) (String.◌∷◌ d s) =
    let rest = strip_prefix p s in if code c == code d then rest else none

abbrev pub is_some {ℓ} : {A : Type ℓ} → Option A → Bool
is_some none = false
is_some (some a) = true

-- strings.TrimPrefix(s, p)
abbrev pub trim_prefix : String → String → String
trim_prefix p s = elim (strip_prefix p s) [ none ↦ s | some rest ↦ rest ]

-- strings.HasSuffix(s, p)
abbrev pub has_suffix : String → String → Bool
has_suffix p String.[] = str_eq p String.[]
has_suffix p (String.◌∷◌ c s) =
    let rest = has_suffix p s in if str_eq p (String.◌∷◌ c s) then true else rest

-- strings.TrimSuffix(s, p)
abbrev pub trim_suffix : String → String → String
trim_suffix p String.[] = String.[]
trim_suffix p (String.◌∷◌ c s) =
    let rest = trim_suffix p s in if str_eq p (String.◌∷◌ c s) then String.[] else String.◌∷◌ c rest

-- strings.Contains(s, p)
abbrev pub contains : String → String → Bool
contains p String.[] = is_some (strip_prefix p String.[])
contains p (String.◌∷◌ c s) =
    let rest = contains p s in if is_some (strip_prefix p (String.◌∷◌ c s)) then true else rest
