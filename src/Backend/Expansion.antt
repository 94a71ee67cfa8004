-- ===== src/Backend/Expansion.antt =====
-- When the loop of replaceAll (internal/manager/backend/backend.go) ends.
use Prim.Native.Char.{Char, code}
use mathlib.Core.Option
use synergia.Prelude.{
  ℕ, zero, suc, ◌+◌, ◌<◌, ◌≡◌, refl, sym, ap, ◌∙◌, inl, inr, ◌≢◌, Bool, true, false, Option, none,
  some, String, str_append, str_eq, ◌==◌, if◌then◌else◌, Bool-cases, Option-cases, arith,
}
use text.Mathlib.TextEquality.{Char-path}
use text.Mathlib.TextLemmas.{nil-append, cons-append, append_assoc}
use synergia.Backend.{
  before, or_else, strip, cut, braces, replace_all, replace, map_platform, map_arch, map_ext,
  expand_url,
}

braces-append : (s t : String) → braces (str_append s t) ≡ braces s + braces t
braces-append String.[] t = rw nil-append (omega arith)
braces-append (String.◌∷◌ c s) t = rw cons-append (ground (arith, braces-append s t))

same_char : (c d : Char) → (code c == code d) ≡ true → c ≡ d
same_char c d h = Char-path c d (ground arith)

strip-some : (old s rest : String) → strip old s ≡ some rest → s ≡ str_append old rest
strip-some String.[] s rest h = rw nil-append (Option.some-injective _ _ h)
strip-some (String.◌∷◌ c old) String.[] rest h = cc
strip-some (String.◌∷◌ c old) (String.◌∷◌ d s) rest h = elim (Bool-cases (code c == code d)) [
  | inl e ↦ rw (cons-append, same_char c d e, strip-some old s rest (ground (arith, e, h)))
  | inr e ↦ absurd (ground (arith, e, h))
]

strip-append : (old rest : String) → strip old (str_append old rest) ≡ some rest
strip-append String.[] rest = rw nil-append
strip-append (String.◌∷◌ c old) rest = rw cons-append (ground (arith, strip-append old rest))

cut-strip : (old s rest : String) → strip old s ≡ some rest → cut old s ≡ some (String.[], rest)
cut-strip old String.[] rest h = ground (arith, h)
cut-strip old (String.◌∷◌ c s) rest h = ground (arith, h)

-- The first occurrence splits the text.
here :
    (old s rest b a : String)
    → strip old s ≡ some rest
    → cut old s ≡ some (b, a)
    → s ≡ str_append b (str_append old a)
here old s rest b a e h =
    let same : some (String.[], rest) ≡ some (b, a) = sym (cut-strip old s rest e) ∙ h in
    let eb : String.[] ≡ b = ground (arith, same) in
    let ea : rest ≡ a = ground (arith, same) in
    rw (← eb, ← ea, nil-append) (strip-some old s rest e)

cut-some : (old s b a : String) → cut old s ≡ some (b, a) → s ≡ str_append b (str_append old a)
cut-some old String.[] b a h = elim (Option-cases (strip old String.[])) [
  | inl e ↦ absurd (ground (arith, e, h))
  | inr (rest, e) ↦ here old String.[] rest b a e h
]
cut-some old (String.◌∷◌ c s) b a h = elim (Option-cases (strip old (String.◌∷◌ c s))) [
  | inr (rest, e) ↦ here old (String.◌∷◌ c s) rest b a e h
  | inl e ↦ elim (Option-cases (cut old s)) [
    | inl e' ↦ absurd (ground (arith, e, e', h))
    | inr ((b', a'), e') ↦
        let eb : String.◌∷◌ c b' ≡ b = ground (arith, e, e', h) in
        let ea : a' ≡ a = ground (arith, e, e', h) in
        rw (← eb, ← ea, cons-append) (ap (String.◌∷◌ c) (cut-some old s b' a' e'))
  ]
]

or_else-none : (o : Option String) (l : Option (String × String)) → or_else o l ≡ none → l ≡ none
or_else-none none l h = h
or_else-none (some rest) l h = cc

before-none : (c : Char) (o : Option (String × String)) → before c o ≡ none → o ≡ none
before-none c none h = refl
before-none c (some (b, a)) h = cc

-- A text with an occurrence is cut.
cut-contains : (old x y : String) → cut old (str_append x (str_append old y)) ≢ none
cut-contains old String.[] y h = absurd (
    ground (
      arith,
      cut-strip old (str_append old y) y (strip-append old y),
      nil-append (str_append old y),
      h,
    ))
cut-contains old (String.◌∷◌ c x) y h =
    cut-contains old x y (before-none c _ (or_else-none _ _ (rw cons-append at h)))

-- The loop ends within one round more than the text has braces, where the placeholder has one and
-- its replacement has none; no occurrence is then left.
pub replace_all_ends :
    (fuel : ℕ) (old new s : String)
    → 0 < braces old
    → braces new ≡ 0
    → braces s < fuel
    → (t : String) × (replace_all fuel old new s ≡ some t) × (cut old t ≡ none)
unfolding replace_all
replace_all_ends zero old new s ho hn hf = absurd (omega arith)
replace_all_ends (suc fuel) old new s ho hn hf = elim (Option-cases (cut old s)) [
  | inl e ↦ (s, rw (e, replace_all), e)
  | inr ((b, a), e) ↦
      let (t, done, clean) = replace_all_ends fuel old new (str_append b (str_append new a)) ho hn (
        omega (
          arith,
          ap braces (cut-some old s b a e),
          braces-append b (str_append old a),
          braces-append old a,
          braces-append b (str_append new a),
          braces-append new a,
        )) in
      (t, rw (e, replace_all) done, clean)
]

-- The loop never ends where the replacement holds the placeholder itself and the text has one: no
-- number of rounds is enough.
pub replace_all_diverges :
    (fuel : ℕ) (old x y s : String)
    → cut old s ≢ none
    → replace_all fuel old (str_append x (str_append old y)) s ≡ none
unfolding replace_all
replace_all_diverges zero old x y s h = refl
replace_all_diverges (suc fuel) old x y s h = elim (Option-cases (cut old s)) [
  | inl e ↦ absurd (h e)
  | inr ((b, a), e) ↦ rw (e, replace_all) (replace_all_diverges fuel old x y _ (again b a))
]
  where
    again :
        (b a : String)
        → cut old (str_append b (str_append (str_append x (str_append old y)) a)) ≢ none
    again b a =
        let flat : str_append b (str_append (str_append x (str_append old y)) a)
            ≡ str_append (str_append b x) (str_append old (str_append y a)) =
          simp append_assoc in
        rw flat (cut-contains old (str_append b x) (str_append y a))

replace-ends :
    (rounds : ℕ) (old new s : String)
    → 0 < braces old
    → braces new ≡ 0
    → (t : String) × (replace rounds old new s ≡ some t) × (cut old t ≡ none)
replace-ends rounds old new s ho hn =
    replace_all_ends (rounds + suc (braces s)) old new s ho hn (omega arith)

if-braces :
    (test : Bool) (x y : String) → braces x ≡ 0 → braces y ≡ 0 → braces (if test then x else y) ≡ 0
if-braces true x y hx hy = hx
if-braces false x y hx hy = hy

platform-braces : (goos : String) → braces goos ≡ 0 → braces (map_platform goos) ≡ 0
unfolding map_platform
platform-braces goos h =
    let windows : String = if str_eq goos "windows" then "win-cpu" else goos in
    let linux : String = if str_eq goos "linux" then "ubuntu" else windows in
    if-braces (str_eq goos "darwin") "macos" linux refl (
      if-braces (str_eq goos "linux") "ubuntu" windows refl
        (if-braces (str_eq goos "windows") "win-cpu" goos refl h))

-- The expansion of a template ends, whatever the template and the number of extra rounds, where
-- the version, the system and the architecture hold no brace. The text {ext} is then left nowhere.
pub expand_url_ends :
    (rounds : ℕ) (tpl version goos goarch : String)
    → braces version ≡ 0
    → braces goos ≡ 0
    → braces goarch ≡ 0
    → (url : String) × (expand_url rounds tpl version goos goarch ≡ some url)
      × (cut "{ext}" url ≡ none)
unfolding expand_url
expand_url_ends rounds tpl version goos goarch hv ho ha =
    let (a, ea, _) = replace-ends rounds "{version}" version tpl (omega arith) hv in
    let (b, eb, _) = replace-ends rounds "{os}" goos a (omega arith) ho in
    let (c, ec, _) =
      replace-ends rounds "{platform}" (map_platform goos) b (omega arith)
        (platform-braces goos ho) in
    let (d, ed, _) =
      replace-ends rounds "{arch}" (map_arch goarch) c (omega arith)
        (if-braces (str_eq goarch "amd64") "x64" goarch refl ha) in
    let (e, ee, clean) =
      replace-ends rounds "{ext}" (map_ext goos) d (omega arith)
        (if-braces (str_eq goos "windows") "zip" "tar.gz" refl refl) in
    (e, rw (ea, eb, ec, ed, ee), clean)

-- For a version that holds the text "{version}" and a template that does, no number of rounds is
-- enough for the expansion.
pub expand_url_diverges :
    (rounds : ℕ) (tpl x y goos goarch : String)
    → cut "{version}" tpl ≢ none
    → expand_url rounds tpl (str_append x (str_append "{version}" y)) goos goarch ≡ none
unfolding expand_url
expand_url_diverges rounds tpl x y goos goarch h =
    rw (replace_all_diverges (rounds + suc (braces tpl)) "{version}" x y tpl h)
