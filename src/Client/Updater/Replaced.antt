-- ===== src/Client/Updater/Replaced.antt =====
-- internal/client/updater/updater.go: the executable that an update leaves.
use synergia.Prelude.{
  ◌≡◌, ◌⊎◌, inl, inr, refl, String, true, false, Bool, Bool-cases, Option-cases, Option, none, some,
  str_eq, eq_iff, arith,
}
use synergia.Protocol.{Update}
use synergia.Client.Updater.{
  Files, Outside, Applied, skipped, replaced, failed, self_replace, build_manager_download_url,
  fetch, hash_ok, apply, install, finish,
}

-- The executable after a replacement by `content` that succeeded, and after one that did not.
abbrev Moved : Option String → String → Files × Bool → Type 0
Moved old content r =
    ((r.1 ≡ true) × (r.0.exec ≡ some content)) ⊎ ((r.1 ≡ false) × (r.0.exec ≡ old))

self_replace-Moved :
    (o : Outside) (content : String) (exec bak : Option String)
    → o.rolls_back ≡ true
    → Moved exec content (self_replace o (record { exec = exec; bak = bak; tmp = some content }))
unfolding self_replace
self_replace-Moved o content none bak back = inr (refl, refl)
self_replace-Moved o content (some e) bak back = elim (Bool-cases o.backs_up) [
  | inr b ↦ rw b (inr (refl, refl))
  | inl b ↦ elim (Bool-cases o.installs) [
    | inl i ↦ rw (b, i) (inl (refl, refl))
    | inr i ↦ rw (b, i, back) (inr (refl, refl))
  ]
]

-- A download from the announced URL or, where that fails, from the manager's.
abbrev pub Downloaded : Outside → Update → String → Type 0
Downloaded o bu content =
    (o.download bu.download_url ≡ some content)
    ⊎ ((o.download bu.download_url ≡ none)
        × (o.download (build_manager_download_url o bu) ≡ some content))

-- The content has the announced SHA-256, where one is announced.
abbrev pub Verified : Outside → Update → String → Type 0
Verified o bu content = (bu.sha256 ≡ "") ⊎ (o.sha256_hex content ≡ bu.sha256)

fetch-Downloaded :
    (o : Outside) (bu : Update) (content : String)
    → fetch o bu ≡ some content
    → Downloaded o bu content
unfolding fetch
fetch-Downloaded o bu content e = elim (Option-cases (o.download bu.download_url)) [
  | inl n ↦ inr (n, ground (arith, n, e))
  | inr (c, q) ↦ inl (ground (arith, q, e))
]

hash_ok-Verified :
    (o : Outside) (bu : Update) (content : String)
    → hash_ok o bu content ≡ true
    → Verified o bu content
unfolding hash_ok
hash_ok-Verified o bu content good =
    ground (arith, good, eq_iff bu.sha256 "", eq_iff (o.sha256_hex content) bu.sha256)

-- Apply has replaced the executable by such a download, or has not replaced it.
abbrev pub KeepsOrReplaced : Outside → Update → Files → Files × Applied → Type 0
KeepsOrReplaced o bu f r =
    ((r.1 ≡ replaced)
      × ((content : String) × Downloaded o bu content
          × Verified o bu content
          × (r.0.exec ≡ some content)))
    ⊎ (((r.1 ≡ skipped) ⊎ (r.1 ≡ failed)) × (r.0.exec ≡ f.exec))

module _ (o : Outside) (bu : Update) (f : Files) where
  finish-KeepsOrReplaced :
      (content : String) (r : Files × Bool)
      → Downloaded o bu content
      → Verified o bu content
      → Moved f.exec content r
      → KeepsOrReplaced o bu f (finish o r)
  finish-KeepsOrReplaced content (g, done) got good (inl (d, e)) =
      rw d (inl (refl, (content, got, good, e)))
  finish-KeepsOrReplaced content (g, done) got good (inr (d, e)) = rw d (inr (inr refl, e))

  install-KeepsOrReplaced :
      (got : Option String)
      → fetch o bu ≡ got
      → o.rolls_back ≡ true
      → KeepsOrReplaced o bu f (install o bu f got)
  unfolding install
  install-KeepsOrReplaced none e back = inr (inr refl, refl)
  install-KeepsOrReplaced (some content) e back = elim (Bool-cases (hash_ok o bu content)) [
    | inl good ↦
        rw (good, install)
          (finish-KeepsOrReplaced content (self_replace o (record f { tmp = some content }))
            (fetch-Downloaded o bu content e) (hash_ok-Verified o bu content good)
            (self_replace-Moved o content f.exec f.bak back))
    | inr bad ↦ rw (bad, install) (inr (inr refl, refl))
  ]

  -- Apply, where a rollback would succeed, has replaced the executable by a download from the
  -- announced URL or, where that fails, from the manager's, whose SHA-256 is the announced one where one
  -- is announced, or it says "skipped" or "failed" and the executable is as it
  -- was.
  pub apply-KeepsOrReplaced : o.rolls_back ≡ true → KeepsOrReplaced o bu f (apply o bu f)
  unfolding apply
  apply-KeepsOrReplaced back = elim (Bool-cases (str_eq bu.version o.version)) [
    | inl v ↦ rw (v, apply) (inr (inl refl, refl))
    | inr v ↦ rw (v, apply) (install-KeepsOrReplaced (fetch o bu) refl back)
  ]
