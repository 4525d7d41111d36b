-- ===== src/Encrypter/Reader/Invariant.antt =====
-- pkg/encrypter/reader.go: the invariant of the loop of `ReadFiles` over an archive whose entries have
-- distinct names.
use service_discover.Common.{
  ℕ, suc, ◌+◌, ◌-◌, ◌≤◌, ◌<◌, String, ◌≡◌, Option, none, some, List, [], ◌∷◌, length, get_elem?,
  set, take, arith, eq_iff, length-set,
}
use service_discover.Common.Dict.{lookup, insert, lookup-insert, length-insert_fresh}
use service_discover.Errors.{ok}
use service_discover.World.{Item, entry}
use service_discover.Prog.{returns}
use service_discover.Encrypter.Reader.{Scan, index_of, take_file}
use service_discover.Encrypter.Reader.Array.{
  one_if, count, count-take-set, count-set, count_of_get-take, count_of_get, get-index_of,
  index_of-lt,
}

-- An archive with readable entries: names and contents in order.
abbrev pub archive : List (String × String) → List Item
archive [] = []
archive ((name, content) ∷ es) = entry name (ok content) ∷ archive es

abbrev pub HasDistinctNames : List (String × String) → Type 0
HasDistinctNames [] = Unit
HasDistinctNames ((name, _) ∷ es) = (lookup name es ≡ none) × HasDistinctNames es

abbrev pub IsDistinct : List String → Type 0
IsDistinct files = (f : String) → count f files ≤ 1

abbrev pub is_found : Option String → ℕ
is_found none = 0
is_found (some _) = 1

-- No entry that is still to come has been found.
abbrev pub Fresh : List (String × String) → List (String × String) → Type 0
Fresh result [] = Unit
Fresh result ((name, _) ∷ es) = (lookup name result ≡ none) × Fresh result es

-- `wanted` are the files asked for: the first `remaining` items of the array are those not found.
pub record Inv (wanted : List String) (s : Scan) : Type 0 where
  pub bound : s.remaining ≤ length s.files
  pub total : length s.result + s.remaining ≡ length wanted
  pub split :
      (f : String)
      → count f (take s.remaining s.files) + is_found (lookup f s.result) ≡ count f wanted
  pub stale :
      (f : String)
      → lookup f s.result ≡ none
      → 1 ≤ count f s.files
      → 1 ≤ count f (take s.remaining s.files)

pub Fresh-insert :
    (name content : String) (result es : List (String × String))
    → Fresh result es
    → lookup name es ≡ none
    → Fresh (insert name content result) es
unfolding lookup
Fresh-insert name content result [] h e = tt
Fresh-insert name content result ((j, w) ∷ es) h e = ground (
  arith,
  lookup-insert name j content result,
  Fresh-insert name content result es h.1,
  eq_iff j name,
  eq_iff name j,
)

abbrev pub scan_of : List String → ℕ → List (String × String) → Scan
scan_of fs n result = record { files = fs; remaining = n; result = result }

-- A name that is found takes one round, and keeps the invariant.
module _ (wanted fs : List String) (m i : ℕ) (result : List (String × String))
    (name content last : String) (v : Inv wanted (scan_of fs (suc m) result))
    (at_last : get_elem? (take (suc m) fs) m ≡ some last) (at_i : index_of name fs ≡ some i)
    (absent : lookup name result ≡ none) where
  before_end : i < suc m
  before_end =
      index_of-lt name fs i (suc m) at_i
        (v.stale name absent (count_of_get fs i name (get-index_of name fs i at_i)))

  abbrev next_scan : Scan
  next_scan = scan_of (set fs i last) m (insert name content result)

  pub take_file-eq : take_file i name content (scan_of fs (suc m) result) ≡ returns next_scan
  unfolding take_file
  take_file-eq = let e : suc m - 1 ≡ m = omega arith in rw (e, at_last) (ground (arith, before_end))

  counted :
      (x : String) → count x (take (suc m) fs) ≡ count x (take m (set fs i last)) + one_if x name
  counted x = count-take-set x fs i m last name before_end at_last (get-index_of name fs i at_i)

  pub next_scan-Inv : Inv wanted next_scan
  next_scan-Inv = record {
    bound = omega (arith, length-set fs i last, v.bound);
    total = omega (arith, v.total, length-insert_fresh name content result absent);
    split = λ f. ground (
      arith,
      counted f,
      v.split f,
      lookup-insert name f content result,
      absent,
      eq_iff f name,
      eq_iff name f,
    );
    stale = λ f gone there. ground (
      arith,
      counted f,
      v.stale f,
      lookup-insert name f content result,
      count-set f fs i last,
      count_of_get-take fs m last at_last,
      eq_iff f last,
      eq_iff f name,
      eq_iff name f,
    );
  }
