-- ===== src/Encrypter/Reader/Scanning.antt =====
-- pkg/encrypter/reader.go: what the loop of `ReadFiles` leaves behind an archive whose entries have
-- distinct names.
use service_discover.Common.{
  ℕ, zero, suc, ◌≤◌, String, ◌≡◌, refl, ◌∙◌, inl, inr, Option, none, some, List, [], ◌∷◌, leb,
  if◌then◌else◌, length, get_elem?, set, take, arith, eq_iff, Option-cases,
}
use service_discover.Common.Dict.{lookup, insert, lookup-insert}
use service_discover.Errors.{ok}
use service_discover.World.{Item, entry}
use service_discover.Prog.{returns}
use service_discover.Encrypter.Reader.{Scan, index_of, take_file, scan_item, scan_items, start}
use service_discover.Encrypter.Reader.Array.{
  count, count-take-le, get-take_last, count_of_get, get-index_of, count_of_index_of-none,
  count-take_all,
}
use service_discover.Encrypter.Reader.Invariant.{
  archive, HasDistinctNames, Fresh, Inv, Fresh-insert, scan_of, next_scan-Inv, take_file-eq,
}

-- What the loop leaves in the map at one name.
abbrev pub found_at :
    List String → List (String × String) → List (String × String) → String → Option String
found_at wanted es result f = elim (lookup f result) [
  | some c ↦ some c
  | none ↦ if leb 1 (count f wanted) then lookup f es else none
]

pub record Scanned (wanted : List String) (es : List (String × String)) (s : Scan) : Type 0 where
  pub final : Scan
  pub scanned : scan_items (archive es) s ≡ returns final
  pub inv : Inv wanted final
  pub found : (f : String) → lookup f final.result ≡ found_at wanted es s.result f

scan_items-cons :
    (i : Item) (items : List Item) (s s' : Scan)
    → scan_item i s ≡ returns s'
    → scan_items (i ∷ items) s ≡ scan_items items s'
unfolding scan_items
scan_items-cons i items s s' e = rw (e, scan_items)

scan_item_missed :
    (name content : String) (s : Scan)
    → index_of name s.files ≡ none
    → scan_item (entry name (ok content)) s ≡ returns s
unfolding scan_item
scan_item_missed name content s e = rw (e, scan_item)

scan_item_taken :
    (name content : String) (i : ℕ) (s : Scan)
    → index_of name s.files ≡ some i
    → scan_item (entry name (ok content)) s ≡ take_file i name content s
unfolding scan_item
scan_item_taken name content i s e = rw (e, scan_item)

-- A name that is not in the array is not wanted, or has been found.
count_of_missed :
    (wanted fs : List String) (n : ℕ) (result : List (String × String)) (name : String)
    → Inv wanted (scan_of fs n result)
    → index_of name fs ≡ none
    → lookup name result ≡ none
    → count name wanted ≡ 0
count_of_missed wanted fs n result name v missed absent =
    ground
      (arith, v.split name, absent, count_of_index_of-none name fs missed, count-take-le name fs n)

count_of_taken :
    (wanted fs : List String) (n i : ℕ) (result : List (String × String)) (name : String)
    → Inv wanted (scan_of fs n result)
    → index_of name fs ≡ some i
    → lookup name result ≡ none
    → 1 ≤ count name wanted
count_of_taken wanted fs n i result name v at_i absent = ground (
  arith,
  v.split name,
  v.stale name absent (count_of_get fs i name (get-index_of name fs i at_i)),
)

module _ (wanted : List String) (name content : String) (es : List (String × String)) where
  missed_first :
      (fs : List String) (n : ℕ) (result : List (String × String))
      → Inv wanted (scan_of fs n result)
      → lookup name result ≡ none
      → index_of name fs ≡ none
      → Scanned wanted es (scan_of fs n result)
      → Scanned wanted ((name, content) ∷ es) (scan_of fs n result)
  unfolding lookup
  missed_first fs n result v absent missed rest = record {
    final = rest.final;
    scanned =
        scan_items-cons _ (archive es) _ _
          (scan_item_missed name content (scan_of fs n result) missed)
        ∙ rest.scanned;
    inv = rest.inv;
    found = λ f. ground (
      arith,
      rest.found f,
      count_of_missed wanted fs n result name v missed absent,
      eq_iff name f,
      absent,
    );
  }

  taken_first :
      (fs : List String) (m i : ℕ) (last : String) (result : List (String × String))
      → (v : Inv wanted (scan_of fs (suc m) result))
      → (at_last : get_elem? (take (suc m) fs) m ≡ some last) → (at_i : index_of name fs ≡ some i)
      → (absent : lookup name result ≡ none) → lookup name es ≡ none
      → Scanned wanted es (scan_of (set fs i last) m (insert name content result))
      → Scanned wanted ((name, content) ∷ es) (scan_of fs (suc m) result)
  unfolding lookup
  taken_first fs m i last result v at_last at_i absent new rest = record {
    final = rest.final;
    scanned =
        scan_items-cons _ (archive es) _ _ (
          scan_item_taken name content i (scan_of fs (suc m) result) at_i
          ∙ take_file-eq wanted fs m i result name content last v at_last at_i absent)
        ∙ rest.scanned;
    inv = rest.inv;
    found = λ f. ground (
      arith,
      rest.found f,
      count_of_taken wanted fs (suc m) i result name v at_i absent,
      lookup-insert name f content result,
      eq_iff name f,
      absent,
      new,
    );
  }

scan_items-found :
    (wanted : List String) (es : List (String × String)) (fs : List String) (n : ℕ)
    (result : List (String × String))
    → HasDistinctNames es
    → Fresh result es
    → Inv wanted (scan_of fs n result)
    → Scanned wanted es (scan_of fs n result)
scan_items-found wanted [] fs n result d fresh v = record {
  final = scan_of fs n result;
  scanned = unfold scan_items in refl;
  inv = v;
  found = λ f. unfold lookup in ground arith;
}
scan_items-found wanted ((name, content) ∷ es) fs zero result (new, d) (absent, fresh) v =
    elim (Option-cases (index_of name fs)) [
      | inl missed ↦
          missed_first wanted name content es fs zero result v absent missed
            (scan_items-found wanted es fs zero result d fresh v)
      | inr (i, at_i) ↦ absurd (
          omega (arith, v.stale name absent (count_of_get fs i name (get-index_of name fs i at_i))))
    ]
scan_items-found wanted ((name, content) ∷ es) fs (suc m) result (new, d) (absent, fresh) v =
    elim (Option-cases (index_of name fs)) [
      | inl missed ↦
          missed_first wanted name content es fs (suc m) result v absent missed
            (scan_items-found wanted es fs (suc m) result d fresh v)
      | inr (i, at_i) ↦
          let (last, at_last) = get-take_last fs m v.bound in
          taken_first wanted name content es fs m i last result v at_last at_i absent new (
            scan_items-found wanted es (set fs i last) m (insert name content result) d
              (Fresh-insert name content result es fresh new)
              (next_scan-Inv wanted fs m i result name content last v at_last at_i absent))
    ]

start-Inv : (files : List String) → Inv files (start files)
unfolding lookup
start-Inv files = record {
  bound = omega arith;
  total = omega arith;
  split = λ f. omega (arith, count-take_all f files);
  stale = λ f _ there. omega (arith, count-take_all f files);
}

Fresh-nil : (es : List (String × String)) → Fresh [] es
unfolding lookup
Fresh-nil [] = tt
Fresh-nil (e ∷ es) = (refl, Fresh-nil es)

pub search_all :
    (files : List String) (es : List (String × String))
    → HasDistinctNames es
    → Scanned files es (start files)
search_all files es d =
    scan_items-found files es files (length files) [] d (Fresh-nil es) (start-Inv files)
