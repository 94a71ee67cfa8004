-- ===== src/Client/Backend/Install.antt =====
-- What Apply installs, and what it leaves behind.
use synergia.Prelude.{
  ◌≡◌, ◌≢◌, refl, String, str_eq, eq_iff, not, ◌&&◌, inl, inr, Bool-cases, Option-cases, true,
  false, none, some, arith,
}
use synergia.Protocol.{Update}
use synergia.Client.Persisted.{LlamaParams}
use synergia.Client.Backend.{
  Backend, Outside, Archive, verified, install, stop, updated, failed, apply, start, read_file,
  extract_binary, binary_name, download_any,
}

-- The binary on disk has that content, of that hash, which the manager is told, and nothing runs.
pub record IsVerified (o : Outside) (sha256 : String) (m : Backend) : Type 0 where
  pub content : String
  pub on_disk : read_file (binary_name o) m.dir ≡ some content
  pub hashed : o.sha256_hex content ≡ sha256
  pub told : m.current_hash ≡ sha256
  pub stopped : m.proc ≡ none

install-IsVerified :
    (o : Outside) (bu : Update) (m : Backend)
    → m.proc ≡ none
    → bu.sha256 ≢ ""
    → (install o bu m).1 ≡ updated
    → IsVerified o bu.sha256 (install o bu m).0
install-IsVerified o bu m p n h = elim (Option-cases (read_file (binary_name o) m.dir)) [
  | inl e ↦ absurd (ground (arith, e, eq_iff bu.sha256 ""))
  | inr (c, e) ↦
      let same : o.sha256_hex c ≡ bu.sha256 =
        ground (arith, e, eq_iff bu.sha256 "", eq_iff (o.sha256_hex c) bu.sha256) in
      record {
        content = c;
        on_disk = ground (arith, e);
        hashed = same;
        told = ground (arith, e, same);
        stopped = ground (arith, p);
      }
]

-- If Apply answers that it updated, for an update that carries a hash, then the binary on disk has that
-- hash, it is the hash that the manager is told, and llama-server does not run.
pub apply-IsVerified :
    (o : Outside) (bu : Update) (m : Backend)
    → bu.sha256 ≢ ""
    → (apply o bu m).1 ≡ updated
    → IsVerified o bu.sha256 (apply o bu m).0
unfolding apply stop
apply-IsVerified o bu m n h =
    elim (Bool-cases (not (str_eq bu.sha256 "") && str_eq bu.sha256 m.current_hash)) [
      | inl same ↦ absurd (ground arith)
      | inr other ↦ elim (Option-cases (download_any o bu m)) [
        | inl e ↦ absurd (ground arith)
        | inr (a, e) ↦
            elim (Bool-cases (extract_binary bu.download_url (binary_name o) a m.dir).1) [
              | inl done ↦
                  let dir = (extract_binary bu.download_url (binary_name o) a m.dir).0 in
                  rw (other, e, done, apply)
                    (install-IsVerified o bu (record (stop m) { dir = dir }) refl n
                      (rw (other, e, done, apply) at h))
              | inr fail ↦ absurd (ground arith)
            ]
      ]
    ]

refused :
    (o : Outside) (sha256 content : String)
    → sha256 ≢ ""
    → o.sha256_hex content ≢ sha256
    → verified o sha256 (some content) ≡ false
refused o sha256 content n wrong =
    ground (arith, eq_iff sha256 "", eq_iff (o.sha256_hex content) sha256)

apply-refused :
    (o : Outside) (bu : Update) (m : Backend) (a : Archive) (content : String)
    → bu.sha256 ≢ ""
    → bu.sha256 ≢ m.current_hash
    → download_any o bu m ≡ some a
    → (extract_binary bu.download_url (binary_name o) a m.dir).1 ≡ true
    → read_file (binary_name o) (extract_binary bu.download_url (binary_name o) a m.dir).0
      ≡ some content
    → o.sha256_hex content ≢ bu.sha256
    → apply o bu m ≡ (
      record (stop m) { dir = (extract_binary bu.download_url (binary_name o) a m.dir).0 },
      failed,
    )
unfolding apply stop
apply-refused o bu m a content n other d x r wrong =
    let new : not (str_eq bu.sha256 "") && str_eq bu.sha256 m.current_hash ≡ false =
      ground (arith, eq_iff bu.sha256 m.current_hash) in
    rw (new, d, x, r, refused o bu.sha256 content n wrong, apply) refl

-- If the extracted binary has another hash than the update's, Apply fails, and yet the binary stays on
-- disk while the hash that the manager is told stays the old one: the next start of llama-server, if
-- the system can run the binary, runs it.
pub apply_mismatch :
    (o : Outside) (bu : Update) (m : Backend) (a : Archive) (content port model : String)
    (p : LlamaParams)
    → bu.sha256 ≢ ""
    → bu.sha256 ≢ m.current_hash
    → download_any o bu m ≡ some a
    → (extract_binary bu.download_url (binary_name o) a m.dir).1 ≡ true
    → read_file (binary_name o) (extract_binary bu.download_url (binary_name o) a m.dir).0
      ≡ some content
    → o.sha256_hex content ≢ bu.sha256
    → o.spawns content ≡ true
    → ((apply o bu m).1 ≡ failed)
      × ((apply o bu m).0.current_hash ≡ m.current_hash)
      × ((start o port model p (apply o bu m).0).0.proc
          ≡ some (record { binary = content; port = port; model = model; params = p }))
unfolding start stop
apply_mismatch o bu m a content port model p n other d x r wrong s =
    rw (apply-refused o bu m a content n other d x r wrong) (refl, refl, rw (r, s, start) refl)
