-- ===== src/Client/UpdateTests.antt =====
-- The theorems about the client's own updates and its error reports at concrete inputs.
use synergia.Prelude.{ℕ, ◌≡◌, refl, String, true, Option, some, none, List, [], ◌∷◌, length}
use synergia.Protocol.{Update}
use synergia.Client.Reporter as Reporter
use synergia.Client.Reporter.Hourly.{Spaced, reports-Spaced}
use synergia.Client.Updater.{Files, Outside, apply}
use synergia.Client.Updater.Replaced.{KeepsOrReplaced, apply-KeepsOrReplaced}

-- The same error at once, after half an hour and after an hour, and another one between them.
abbrev calls : List (Option String × String × ℕ)
calls =
    (some "lost", "main", 1000)
    ∷ (some "lost", "main", 1801000)
    ∷ (some "refused", "main", 1802000)
    ∷ (none, "main", 1803000)
    ∷ (some "lost", "main", 3601000)
    ∷ []

reports_of_calls :
    length (Reporter.run (λ msg. msg) calls (Reporter.new "worker-1" "v1")).reports ≡ 3
unfolding Reporter.run Reporter.new
reports_of_calls = refl

reports-Spaced_example :
    Spaced (λ msg. msg) (Reporter.run (λ msg. msg) calls (Reporter.new "worker-1" "v1")).reports
reports-Spaced_example = reports-Spaced (λ msg. msg) "worker-1" "v1" calls

-- GitHub does not answer, and the manager does.
abbrev outside : Outside
outside = record {
  version = "v1";
  manager_http_url = "http://manager";
  os = "linux";
  arch = "amd64";
  sha256_hex = λ content. content;
  download = λ url. elim url [ String.[] ↦ none | String.◌∷◌ c s ↦ some "new" ];
  hash_reads = true;
  backs_up = true;
  installs = true;
  rolls_back = true;
}

abbrev update : Update
update = record { version = "v2"; download_url = ""; fallback_url = ""; sha256 = "new" }

abbrev files : Files
files = record { exec = some "old"; bak = none; tmp = none }

replaces : (apply outside update files).0.exec ≡ some "new"
unfolding apply
replaces = refl

apply-KeepsOrReplaced_example : KeepsOrReplaced outside update files (apply outside update files)
apply-KeepsOrReplaced_example = apply-KeepsOrReplaced outside update files refl
