-- ===== src/Client/Updater.antt =====
-- internal/client/updater/updater.go and replace_unix.go: the client replaces its own executable, on a
-- system that is not Windows. A file is its content.
use synergia.Prelude.{
  String, Bool, true, false, not, ◌&&◌, Option, none, some, str_eq, str_append, if◌then◌else◌,
}
use synergia.Protocol.{Update}
pub mod Replaced

-- The executable, its backup beside it, and the downloaded file.
pub record Files : Type 0 where
  pub exec : Option String
  pub bak : Option String
  pub tmp : Option String

-- The system and the network: the running version, where the manager is, the platform, SHA-256 in hex,
-- what a download of a URL writes to the temporary file (none is an error), whether that file can be
-- read to be hashed, and whether each rename of an existing file succeeds.
pub record Outside : Type 0 where
  pub version : String
  pub manager_http_url : String
  pub os : String
  pub arch : String
  pub sha256_hex : String → String
  pub download : String → Option String
  pub hash_reads : Bool
  pub backs_up : Bool
  pub installs : Bool
  pub rolls_back : Bool

-- How Apply ends: (false, nil), (true, nil) or an error.
pub data Applied : Type 0 where
  skipped replaced failed : Applied

module _ (o : Outside) where
  unfoldable pub build_manager_download_url : Update → String
  build_manager_download_url bu = str_append o.manager_http_url (
      str_append "/download/"
        (str_append o.os (str_append "/" (str_append o.arch (str_append "?version=" bu.version)))))

  abbrev rollback : Files → Files
  rollback f = elim f.bak [
    | none ↦ f
    | some b ↦ if o.rolls_back then record f { exec = some b; bak = none } else f
  ]

  abbrev move_in : Files → Files × Bool
  move_in f = elim f.tmp [
    | none ↦ (rollback f, false)
    | some t ↦
        if o.installs
        then (record f { exec = some t; tmp = none; bak = none }, true)
        else (rollback f, false)
  ]

  -- The Bool is a nil error.
  unfoldable pub self_replace : Files → Files × Bool
  self_replace f = elim f.exec [
    | none ↦ (record f { bak = none }, false)
    | some e ↦
        if o.backs_up
        then move_in (record f { exec = none; bak = some e })
        else (record f { bak = none }, false)
  ]

  abbrev pub first_some : Option String → Option String → Option String
  first_some none b = b
  first_some (some a) b = some a

  -- The upstream URL, and then the manager's.
  unfoldable pub fetch : Update → Option String
  unfolding build_manager_download_url
  fetch bu = first_some (o.download bu.download_url) (o.download (build_manager_download_url bu))

  unfoldable pub hash_ok : Update → String → Bool
  hash_ok bu content =
      if str_eq bu.sha256 "" then true else o.hash_reads && str_eq (o.sha256_hex content) bu.sha256

  abbrev pub finish : Files × Bool → Files × Applied
  finish (f, done) = if done then (f, replaced) else (record f { tmp = none }, failed)

  -- What follows the download.
  unfoldable pub install : Update → Files → Option String → Files × Applied
  unfolding hash_ok self_replace
  install bu f none = (f, failed)
  install bu f (some content) =
      if hash_ok bu content
      then finish (self_replace (record f { tmp = some content }))
      else (record f { tmp = none }, failed)

  unfoldable pub apply : Update → Files → Files × Applied
  unfolding fetch install
  apply bu f = if str_eq bu.version o.version then (f, skipped) else install bu f (fetch bu)
