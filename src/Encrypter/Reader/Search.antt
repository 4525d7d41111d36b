-- ===== src/Encrypter/Reader/Search.antt =====
-- pkg/encrypter/reader.go: what `ReadFiles` finds in an archive whose entries have distinct names.
use service_discover.Common.{
  ℕ, zero, suc, ◌≤◌, String, ◌≡◌, ◌≢◌, refl, ◌∙◌, none, List, ◌<>◌, ◌↔◌, leb, if◌then◌else◌, length,
  take, arith,
}
use service_discover.Common.Dict.{lookup}
use service_discover.Errors.{message}
use service_discover.Prog.{returns, fails}
use service_discover.Encrypter.Reader.{Scan, conclude, read_files, missing_text}
use service_discover.Encrypter.Reader.Array.{count, first_of_take}
use service_discover.Encrypter.Reader.Invariant.{archive, HasDistinctNames, IsDistinct}
use service_discover.Encrypter.Reader.Scanning.{search_all}

module _ (files : List String) (es : List (String × String)) (d : HasDistinctNames es) where
  abbrev end : Scan
  end = (search_all files es d).final

  read_files-conclude : read_files (archive es) files ≡ conclude (length files) end
  unfolding read_files
  read_files-conclude = rw ((search_all files es d).scanned, read_files)

  -- When every file that was asked for is there, nothing remains.
  none_remaining :
      (n : ℕ)
      → end.remaining ≡ n
      → IsDistinct files
      → ((f : String) → 1 ≤ count f files → lookup f es ≢ none)
      → n ≡ 0
  unfolding lookup
  none_remaining zero e distinct all = refl
  none_remaining (suc m) e distinct all =
      let v = (search_all files es d).inv in
      let (f, there) = first_of_take end.files m (rw e at v.bound) in
      let left : 1 ≤ count f (take end.remaining end.files) = rw e there in
      absurd (ground (arith, left, v.split f, distinct f, (search_all files es d).found f, all f))

  remaining_iff :
      IsDistinct files
      → (f : String)
      → (1 ≤ count f (take end.remaining end.files)) ↔ ((1 ≤ count f files) × (lookup f es ≡ none))
  unfolding lookup
  remaining_iff distinct f =
      let s = (search_all files es d).inv.split f in
      let l = (search_all files es d).found f in
      (λ h. ground (arith, s, l, distinct f), λ h. ground (arith, s, l))

-- Asked for distinct names that are all in an archive with distinct names and readable entries,
-- `ReadFiles` returns without a panic, and its map holds the content of each of the files and
-- nothing else, whatever the order of the entries.
pub read_files-found :
    (files : List String) (es : List (String × String))
    → HasDistinctNames es
    → IsDistinct files
    → ((f : String) → 1 ≤ count f files → lookup f es ≢ none)
    → (result : List (String × String)) × (read_files (archive es) files ≡ returns result)
      × ((f : String) → lookup f result ≡ (if leb 1 (count f files) then lookup f es else none))
unfolding conclude lookup
read_files-found files es d distinct all = (
  (end files es d).result,
  read_files-conclude files es d
      ∙ ground
          (arith, (search_all files es d).inv.total, none_remaining files es d _ refl distinct all),
  λ f. (search_all files es d).found f,
)

-- When one of the distinct names asked for is missing from such an archive, `ReadFiles` fails, and
-- its error lists exactly the missing names.
pub read_files-missing :
    (files : List String) (es : List (String × String)) (f : String)
    → HasDistinctNames es
    → IsDistinct files
    → 1 ≤ count f files
    → lookup f es ≡ none
    → (missing : List String) × (read_files (archive es) files
        ≡ fails (message ("not all files were found in the archive:" <> missing_text missing)))
      × ((g : String) → (1 ≤ count g missing) ↔ ((1 ≤ count g files) × (lookup g es ≡ none)))
unfolding conclude
read_files-missing files es f d distinct wanted absent =
    let s = end files es d in
    let remains = (remaining_iff files es d distinct f).1 (wanted, absent) in
    (
      take s.remaining s.files,
      read_files-conclude files es d
          ∙ ground (
            arith,
            (search_all files es d).inv.total,
            some_remaining s.remaining s.files f remains,
          ),
      remaining_iff files es d distinct,
    )
  where
    some_remaining : (n : ℕ) (fs : List String) (f : String) → 1 ≤ count f (take n fs) → 1 ≤ n
    some_remaining zero fs f h = absurd (omega arith)
    some_remaining (suc n) fs f h = omega arith
