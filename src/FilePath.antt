-- ===== src/FilePath.antt =====
-- What the code uses of Go's path/filepath on Unix: `Clean`, `Join`, `Dir` and `Rel` from the root.
use Prim.Native.String.{[] as nil, ◌∷◌ as ◌◂◌}
use service_discover.Common.{
  String, ◌<>◌, Bool, true, false, Option, none, some, List, [], ◌∷◌, code, ◌==◌, ◌is◌,
  if◌then◌else◌,
}
use mathlib.Core.List.{reverse}
use service_discover.Text.{split, join}
use service_discover.Errors.{Result, ok, err, message}

abbrev pub is_rooted : String → Bool
is_rooted nil = false
is_rooted (c ◂ s) = code c == b'/'

-- `..` on the elements so far, the last first: it takes one away, is dropped at the root, and is
-- kept in front of a relative path.
abbrev go_up : (rooted : Bool) → List String → List String
go_up true [] = []
go_up false [] = ".." ∷ []
go_up rooted (top ∷ stack) = if top is ".." then ".." ∷ top ∷ stack else stack

-- One element of a path.
unfoldable pub resolve : (rooted : Bool) → List String → (element : String) → List String
resolve rooted stack element =
    if element is ""
    then stack
    else if element is "."
    then stack
    else if element is ".."
    then go_up rooted stack
    else element ∷ stack

unfoldable pub resolve_all : (rooted : Bool) → List String → List String → List String
resolve_all rooted stack [] = stack
resolve_all rooted stack (e ∷ elements) = resolve_all rooted (resolve rooted stack e) elements

-- The elements of a clean path.
unfoldable pub elements : String → List String
unfolding resolve_all resolve split
elements path = reverse (resolve_all (is_rooted path) [] (split path b'/'))

abbrev rebuild : (rooted : Bool) → List String → String
rebuild true es = "/" <> join es "/"
rebuild false [] = "."
rebuild false (e ∷ es) = join (e ∷ es) "/"

-- `filepath.Clean`
unfoldable pub clean : String → String
unfolding elements join
clean path = rebuild (is_rooted path) (elements path)

-- `filepath.Join` of two elements: an empty one is left out.
unfoldable pub join_path : String → String → String
unfolding clean
join_path a b =
    if a is ""
    then (if b is "" then "" else clean b)
    else if b is ""
    then clean a
    else clean (a <> ("/" <> b))

-- The text up to the last slash with it, if there is one.
unfoldable pub up_to_slash : String → Option String
up_to_slash nil = none
up_to_slash (c ◂ s) = elim (up_to_slash s) [
  | some dir ↦ some (c ◂ dir)
  | none ↦ if code c == b'/' then some (c ◂ nil) else none
]

-- `filepath.Dir`
unfoldable pub dir : String → String
unfolding up_to_slash clean
dir path = elim (up_to_slash path) [ none ↦ "." | some d ↦ clean d ]

abbrev below_root : String → String → Result String
below_root target nil = err (message ("Rel: can't make " <> (target <> " relative to /")))
below_root target (c ◂ s) =
    if code c == b'/'
    then (if s is "" then ok "." else ok s)
    else err (message ("Rel: can't make " <> (target <> " relative to /")))

-- `filepath.Rel("/", target)`
unfoldable pub rel_root : String → Result String
unfolding clean
rel_root target = below_root target (clean target)
