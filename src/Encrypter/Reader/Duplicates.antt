-- ===== src/Encrypter/Reader/Duplicates.antt =====
-- `ReadFiles` on an archive that holds a name twice.
use service_discover.Common.{String, refl, ◌≡◌, none, List, [], ◌∷◌, ◌++◌, arith, eq_iff, eq_refl}
use service_discover.Common.Dict.{lookup, insert}
use service_discover.Errors.{ok}
use service_discover.World.{Item, entry}
use service_discover.Prog.{panics}
use service_discover.Encrypter.Reader.{
  Scan, index_of, take_file, scan_item, scan_items, read_files, start,
}
use service_discover.Encrypter.Reader.Invariant.{archive}

abbrev out : String
out = "runtime error: index out of range"

abbrev emptied : String → String → Scan
emptied x c = record { files = x ∷ []; remaining = 0; result = insert x c [] }

second_panics :
    (x c c' : String) (between : List (String × String)) (items : List Item)
    → lookup x between ≡ none
    → scan_items (archive between ++ entry x (ok c') ∷ items) (emptied x c) ≡ panics out
unfolding scan_items scan_item index_of take_file lookup
second_panics x c c' [] items h = ground (arith, eq_refl x)
second_panics x c c' ((name, d) ∷ between) items h =
    ground (arith, second_panics x c c' between items, eq_iff name x)

first_panics :
    (x c c' : String) (ahead between : List (String × String)) (items : List Item)
    → lookup x ahead ≡ none
    → lookup x between ≡ none
    → scan_items
        (archive ahead ++ entry x (ok c) ∷ (archive between ++ entry x (ok c') ∷ items))
        (start (x ∷ []))
      ≡ panics out
unfolding scan_items scan_item index_of take_file lookup
first_panics x c c' [] between items a h =
    ground (arith, eq_refl x, second_panics x c c' between items h)
first_panics x c c' ((name, d) ∷ ahead) between items a h =
    ground (arith, first_panics x c c' ahead between items, a, h, eq_iff name x)

-- Asked for one file, as `bootstrap-token` does, `ReadFiles` panics on every archive that holds the
-- name twice, if the entries ahead of the second of them can be read: the first entry empties the
-- slice of remaining files, and the name is still in the array.
pub read_files-duplicate :
    (x c c' : String) (ahead between : List (String × String)) (items : List Item)
    → lookup x ahead ≡ none
    → lookup x between ≡ none
    → read_files
        (archive ahead ++ entry x (ok c) ∷ (archive between ++ entry x (ok c') ∷ items))
        (x ∷ [])
      ≡ panics out
unfolding read_files
read_files-duplicate x c c' ahead between items a h =
    rw (first_panics x c c' ahead between items a h, read_files) refl
