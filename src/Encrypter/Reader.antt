-- ===== src/Encrypter/Reader.antt =====
-- pkg/encrypter/reader.go. `files` and `remainingFiles` are slices of one array: a write through
-- `remainingFiles` is seen by the loop over `files`.
pub mod Array
pub mod Invariant
pub mod Scanning
pub mod Search
pub mod Duplicates
use service_discover.Common.{
  ℕ, zero, suc, ◌-◌, String, ◌<>◌, Bool, Option, none, some, List, [], ◌∷◌, ◌==◌, ◌is◌, leb,
  if◌then◌else◌, length, get_elem?, set, take,
}
use service_discover.Common.Dict.{insert}
use service_discover.Errors.{Error, message, sentinel, key_incorrect, Result, ok, err}
use service_discover.World.{Item, entry, broken, armor_decode, read_message}
use service_discover.Prog.{Prog, Outcome, returns, fails, panics, outcome_of, ask, check, ◌>>=◌}

-- The closure of `NewReader` that answers the prompts for a key: the passphrase once, then an
-- error. `first_time` is the captured variable.
unfoldable pub pass_generator : (passphrase : String) → (first_time : Bool) → Result String × Bool
pass_generator passphrase first_time =
    if first_time then (ok passphrase, Bool.false) else (err (sentinel key_incorrect), Bool.false)

-- `ReadFile`: the data of the entry that the reader stands at.
unfoldable pub read_file : Result String → Outcome Error String
read_file content = outcome_of content

-- The variables of `ReadFiles`: the array behind both slices, the length of `remainingFiles`, and
-- the map of results.
pub record Scan : Type 0 where
  pub files : List String
  pub remaining : ℕ
  pub result : List (String × String)

-- `for index, fileName := range files`: the first index that holds the name.
unfoldable pub index_of : String → List String → Option ℕ
index_of name [] = none
index_of name (f ∷ files) =
    if name is f then some 0 else elim (index_of name files) [ none ↦ none | some i ↦ some (suc i) ]

abbrev pub out_of_range : Outcome Error Scan
out_of_range = panics "runtime error: index out of range"

-- `remainingFiles[index] = remainingFiles[len(remainingFiles)-1]`, and the shorter slice.
unfoldable pub take_file : (index : ℕ) → (name content : String) → Scan → Outcome Error Scan
take_file index name content s = elim (get_elem? (take s.remaining s.files) (s.remaining - 1)) [
  | none ↦ out_of_range
  | some last ↦
      if leb s.remaining index
      then out_of_range
      else returns (record {
        files = set s.files index last;
        remaining = s.remaining - 1;
        result = insert name content s.result;
      })
]

abbrev pub then_take : (index : ℕ) → String → Outcome Error String → Scan → Outcome Error Scan
then_take index name (returns content) s = take_file index name content s
then_take index name (fails e) s = fails e
then_take index name (panics p) s = panics p

-- One round of the outer loop.
unfoldable pub scan_item : Item → Scan → Outcome Error Scan
unfolding read_file
scan_item (broken e) s = fails e
scan_item (entry name content) s = elim (index_of name s.files) [
  | none ↦ returns s
  | some i ↦ then_take i name (read_file content) s
]

-- The outer loop, up to `io.EOF`.
unfoldable pub scan_items : List Item → Scan → Outcome Error Scan
scan_items [] s = returns s
scan_items (i ∷ items) s = elim (scan_item i s) [
  | returns s' ↦ scan_items items s'
  | fails e ↦ fails e
  | panics p ↦ panics p
]

abbrev pub missing_text : List String → String
missing_text [] = ""
missing_text (f ∷ files) = " " <> (f <> missing_text files)

-- The test behind the loop.
unfoldable pub conclude : ℕ → Scan → Outcome Error (List (String × String))
conclude wanted s =
    if length s.result == wanted
    then returns s.result
    else fails (
        message
          ("not all files were found in the archive:" <> missing_text (take s.remaining s.files)))

abbrev pub start : List String → Scan
start files = record { files = files; remaining = length files; result = [] }

-- `ReadFiles`
unfoldable pub read_files : List Item → List String → Outcome Error (List (String × String))
unfolding scan_items conclude
read_files items files = elim (scan_items items (start files)) [
  | returns s ↦ conclude (length files) s
  | fails e ↦ fails e
  | panics p ↦ panics p
]

-- `NewReader`: a tar reader is the list of what its `Next` will give.
unfoldable pub new_reader : (reader passphrase : String) → Prog Error (List Item)
new_reader reader passphrase = do
  body ← check (ask (armor_decode reader))
  check (ask (read_message body (pass_generator passphrase)))
