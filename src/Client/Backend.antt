-- ===== src/Client/Backend.antt =====
-- internal/client/backend/manager.go: the llama-server binary of a worker, its installation from an
-- archive and its process. The directory {dataDir}/backend is a list of named nodes; a path is a name
-- in it. An archive is the list of its entries, with their base names.
use synergia.Prelude.{
  ℕ, zero, suc, String, Bool, true, false, not, ◌&&◌, Option, none, some, List, [], ◌∷◌, str_eq,
  str_append, is_some, contains, has_suffix, if◌then◌else◌,
}
use synergia.Protocol.{Update}
use synergia.Gateway.State.{lookup, delete, insert}
use synergia.Client.Persisted.{LlamaParams}
pub mod Install

pub data Node : Type 0 where
  file : String → Node
  link : String → Node

abbrev pub Dir : Type 0
Dir = List (String × Node)

-- The path behind the links, of which the system follows 40.
unfoldable pub resolve : ℕ → String → Dir → Option String
resolve zero name dir = none
resolve (suc n) name dir = elim (lookup name dir) [
  | none ↦ some name
  | some (file c) ↦ some name
  | some (link t) ↦ resolve n t dir
]

abbrev pub max_links : ℕ
max_links = 40

-- The content that opening the path reads.
unfoldable pub read_file : String → Dir → Option String
unfolding resolve
read_file name dir = elim (resolve max_links name dir) [
  | none ↦ none
  | some target ↦ elim (lookup target dir) [
    | none ↦ none
    | some (file c) ↦ some c
    | some (link t) ↦ none
  ]
]

-- os.OpenFile with O_CREATE and O_TRUNC, and the copy of a content: it writes behind a link.
unfoldable pub write_file : String → String → Dir → Option Dir
unfolding resolve
write_file name content dir = elim (resolve max_links name dir) [
  | none ↦ none
  | some target ↦ some (insert target (file content) dir)
]

-- An entry's kind: a regular file, one of which only a part can be read, one that cannot be
-- opened or created, a link to a base name with whether os.Symlink would make it, or another.
pub data Kind : Type 0 where
  regular : String → Kind
  truncated : String → Kind
  unopened : Kind
  symlink : Bool → String → Kind
  other : Kind

pub record Entry : Type 0 where
  pub base : String
  pub kind : Kind

-- `opens` is whether the archive can be opened, `complete` whether its entries can be read to the end.
pub record Archive : Type 0 where
  pub opens : Bool
  pub complete : Bool
  pub entries : List Entry

-- What is done with an entry: the loop goes on with the directory, and with the name if a node was
-- written, or it ends.
pub data Extracted : Type 0 where
  skips : Extracted
  wrote : Dir → Extracted
  fails : Dir → Extracted

abbrev write_entry : String → String → Dir → Extracted
write_entry base content dir = elim (write_file base content dir) [
  | none ↦ fails dir
  | some dir' ↦ wrote dir'
]

-- The part that was copied is removed with its path.
abbrev remove_part : String → String → Dir → Extracted
remove_part base part dir = elim (write_file base part dir) [
  | none ↦ fails dir
  | some dir' ↦ fails (delete base dir')
]

abbrev extract_tar_entry : String → Kind → Dir → Extracted
extract_tar_entry base (regular content) dir = write_entry base content dir
extract_tar_entry base (truncated part) dir = remove_part base part dir
extract_tar_entry base unopened dir = fails dir
extract_tar_entry base (symlink made target) dir =
    if made then wrote (insert base (link target) dir) else fails (delete base dir)
extract_tar_entry base other dir = skips

-- A link in a zip file is a regular file.
abbrev extract_zip_entry : String → Kind → Dir → Extracted
extract_zip_entry base (regular content) dir = write_entry base content dir
extract_zip_entry base (truncated part) dir = remove_part base part dir
extract_zip_entry base unopened dir = fails dir
extract_zip_entry base (symlink made target) dir = write_entry base target dir
extract_zip_entry base other dir = skips

-- The loops of extractFromTarGz and extractFromZip; the Bool is err == nil.
unfoldable pub extract_entries :
    (String → Kind → Dir → Extracted) → String → Bool → List Entry → Bool → Dir → Dir × Bool
unfolding write_file
extract_entries entry binary_name complete [] found dir = (dir, complete && found)
extract_entries entry binary_name complete (e ∷ es) found dir =
    let rest = λ (f : Bool) (d : Dir). extract_entries entry binary_name complete es f d in
    if contains ".." e.base then rest found dir else elim (entry e.base e.kind dir) [
      | skips ↦ rest found dir
      | wrote dir' ↦ rest (if str_eq e.base binary_name then true else found) dir'
      | fails dir' ↦ (dir', false)
    ]

unfoldable pub extract_binary : String → String → Archive → Dir → Dir × Bool
unfolding extract_entries
extract_binary download_url binary_name a dir =
    if not a.opens
    then (dir, false)
    else extract_entries
        (if has_suffix ".zip" download_url then extract_zip_entry else extract_tar_entry)
        binary_name a.complete a.entries false dir

-- A process of llama-server: the binary's content when it was started, and its arguments.
pub record Process : Type 0 where
  pub binary : String
  pub port : String
  pub model : String
  pub params : LlamaParams

pub record Backend : Type 0 where
  pub manager_http_url : String
  pub dir : Dir
  pub current_hash : String
  pub proc : Option Process
  pub last_port : String
  pub last_model : String
  pub last_params : LlamaParams

-- The system and the network: the platform, SHA-256 in hex, downloads, and whether chmod and the start
-- of a process succeed.
pub record Outside : Type 0 where
  pub windows : Bool
  pub os : String
  pub arch : String
  pub sha256_hex : String → String
  pub download : String → Option Archive
  pub chmod : Bool
  pub spawns : String → Bool

-- How Apply ends: (false, nil), (true, nil) or an error.
pub data Applied : Type 0 where
  skipped updated failed : Applied

unfoldable pub stop : Backend → Backend
stop m = record m { proc = none }

module _ (o : Outside) where
  abbrev pub binary_name : String
  binary_name = if o.windows then "llama-server.exe" else "llama-server"

  -- The hash of a binary that is there already.
  unfoldable pub new : String → Dir → LlamaParams → Backend
  unfolding read_file
  new manager_http_url dir no_params = record {
    manager_http_url = manager_http_url;
    dir = dir;
    current_hash = elim (read_file binary_name dir) [
      | none ↦ ""
      | some content ↦ o.sha256_hex content
    ];
    proc = none;
    last_port = "";
    last_model = "";
    last_params = no_params;
  }

  unfoldable pub is_installed : Backend → Bool
  unfolding read_file
  is_installed m = is_some (read_file binary_name m.dir)

  unfoldable pub build_fallback_url : Update → Backend → String
  build_fallback_url bu m = str_append m.manager_http_url (
      str_append "/v1/backend/download?version="
        (str_append bu.version (str_append "&os=" (str_append o.os (str_append "&arch=" o.arch)))))

  abbrev pub download_any : Update → Backend → Option Archive
  download_any bu m = elim (o.download bu.download_url) [
    | none ↦ o.download (build_fallback_url bu m)
    | some a ↦ some a
  ]

  -- The check of the extracted binary against the update.
  abbrev verified : String → Option String → Bool
  verified sha256 content =
      if str_eq sha256 ""
      then true
      else elim content [ none ↦ false | some c ↦ str_eq (o.sha256_hex c) sha256 ]

  abbrev install : Update → Backend → Backend × Applied
  install bu m =
      if not (verified bu.sha256 (read_file binary_name m.dir))
      then (m, failed)
      else if not (if o.windows then true else o.chmod)
      then (m, failed)
      else (
        record m {
          current_hash = elim (read_file binary_name m.dir) [
            | none ↦ m.current_hash
            | some content ↦ o.sha256_hex content
          ];
        },
        updated,
      )

  unfoldable pub apply : Update → Backend → Backend × Applied
  unfolding extract_binary read_file stop build_fallback_url
  apply bu m =
      if not (str_eq bu.sha256 "") && str_eq bu.sha256 m.current_hash
      then (m, skipped)
      else elim (download_any bu m) [
        | none ↦ (m, failed)
        | some a ↦
            let (dir, extracted) = extract_binary bu.download_url binary_name a m.dir in
            let m' : Backend = record (stop m) { dir = dir } in
            if extracted then install bu m' else (m', failed)
      ]

  unfoldable pub start : String → String → LlamaParams → Backend → Backend × Bool
  unfolding stop read_file
  start port model_path p m = elim (read_file binary_name m.dir) [
    | none ↦ (stop m, false)
    | some content ↦
        if o.spawns content
        then (
          record m {
            proc = some (record { binary = content; port = port; model = model_path; params = p });
            last_port = port;
            last_model = model_path;
            last_params = p;
          },
          true,
        )
        else (stop m, false)
  ]

  unfoldable pub restart : Backend → Backend × Bool
  unfolding start
  restart m =
      if str_eq m.last_port ""
      then (m, false)
      else if str_eq m.last_model ""
      then (m, false)
      else start m.last_port m.last_model m.last_params m
