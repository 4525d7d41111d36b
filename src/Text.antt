-- ===== src/Text.antt =====
-- What the code uses of Go's standard library on strings: `strings.Split`, `Trim`, `Fields`, `Cut`,
-- `TrimPrefix`, `TrimSuffix`, `Join`, `ReplaceAll`, `Contains`, `EqualFold`, `strconv.Itoa` and
-- `Atoi`. A string is a native text; all separators are ASCII.
use Prim.Native.String.{[] as nil, ◌∷◌ as ◌◂◌}
use service_discover.Common.{
  ℕ, zero, suc, ◌+◌, ◌/◌, ◌%◌, code, String, ◌<>◌, Bool, true, false, ◌&&◌, ◌||◌, Option, none,
  some, List, [], ◌∷◌, ◌==◌, ◌is◌, leb, if◌then◌else◌, map,
}

-- The text up to the first character that passes the test, and the parts behind it.
pub split_by : (ℕ → Bool) → String → String × List String
split_by p nil = (nil, [])
split_by p (c ◂ s) =
    let (part, parts) = split_by p s in
    if p (code c) then (nil, part ∷ parts) else (c ◂ part, parts)

-- `strings.Split(s, sep)` with a separator of one character: never empty.
unfoldable pub split : String → ℕ → List String
unfolding split_by
split s sep = let (part, parts) = split_by (λ c. c == sep) s in part ∷ parts

-- `strings.Split(s, sep)[0]`
unfoldable pub first_part : String → ℕ → String
unfolding split_by
first_part s sep = (split_by (λ c. c == sep) s).0

abbrev pub drop_empty : List String → List String
drop_empty [] = []
drop_empty (s ∷ l) = let rest = drop_empty l in if s is "" then rest else s ∷ rest

-- `unicode.IsSpace`
abbrev pub is_space : ℕ → Bool
is_space c =
    (leb 9 c && leb c 13)
    || c == 32
    || c == 0x85
    || c == 0xA0
    || c == 0x1680
    || (leb 0x2000 c && leb c 0x200A)
    || c == 0x2028
    || c == 0x2029
    || c == 0x202F
    || c == 0x205F
    || c == 0x3000

-- `strings.Fields` and `strings.FieldsSeq`
unfoldable pub fields : String → List String
unfolding split_by
fields s = let (part, parts) = split_by is_space s in drop_empty (part ∷ parts)

abbrev pub join_from : String → List String → String
join_from sep [] = ""
join_from sep (s ∷ l) = sep <> (s <> join_from sep l)

-- `strings.Join`
unfoldable pub join : List String → String → String
join [] sep = ""
join (s ∷ l) sep = s <> join_from sep l

pub trim_left : (ℕ → Bool) → String → String
trim_left p nil = nil
trim_left p (c ◂ s) = let rest = trim_left p s in if p (code c) then rest else c ◂ s

pub trim_right : (ℕ → Bool) → String → String
trim_right p nil = nil
trim_right p (c ◂ s) =
    let rest = trim_right p s in if (rest is "") && p (code c) then nil else c ◂ rest

-- `strings.Trim(s, cut)` with a cutset of one character
unfoldable pub trim : String → ℕ → String
unfolding trim_left trim_right
trim s cut = trim_right (λ c. c == cut) (trim_left (λ c. c == cut) s)

-- `strings.TrimSpace`
unfoldable pub trim_space : String → String
unfolding trim_left trim_right
trim_space s = trim_right is_space (trim_left is_space s)

pub strip_prefix : String → String → Option String
strip_prefix nil s = some s
strip_prefix (c ◂ p) nil = none
strip_prefix (c ◂ p) (d ◂ s) =
    let rest = strip_prefix p s in if code c == code d then rest else none

-- `strings.TrimPrefix`
unfoldable pub trim_prefix : String → String → String
unfolding strip_prefix
trim_prefix s p = elim (strip_prefix p s) [ none ↦ s | some rest ↦ rest ]

-- `strings.TrimSuffix`
unfoldable pub trim_suffix : String → String → String
trim_suffix nil t = nil
trim_suffix (c ◂ s) t = if (c ◂ s) is t then nil else c ◂ trim_suffix s t

-- `strings.Cut` with a separator of one character: `none` if it is not found
unfoldable pub cut : String → ℕ → Option (String × String)
cut nil sep = none
cut (c ◂ s) sep =
    let rest = cut s sep in
    if code c == sep
    then some (nil, s)
    else elim rest [ none ↦ none | some (before, after) ↦ some (c ◂ before, after) ]

-- `strings.Contains`
unfoldable pub contains_text : String → String → Bool
unfolding strip_prefix
contains_text nil t = t is ""
contains_text (c ◂ s) t = elim (strip_prefix t (c ◂ s)) [ none ↦ contains_text s t | some _ ↦ true ]

-- `strings.ReplaceAll(s, old, new)` with an `old` of one character
unfoldable pub replace_all : String → ℕ → String → String
replace_all nil old new = nil
replace_all (c ◂ s) old new =
    let rest = replace_all s old new in if code c == old then new <> rest else c ◂ rest

abbrev pub codes : String → List ℕ
codes nil = []
codes (c ◂ s) = code c ∷ codes s

-- `unicode.ToLower` on the characters whose lower case is ASCII; the others are kept.
abbrev pub lower_code : ℕ → ℕ
lower_code c =
    if leb b'A' c && leb c b'Z'
    then c + 32
    else if c == 0x130
    then b'i'
    else if c == 0x212A
    then b'k'
    else c

abbrev pub same_codes : List ℕ → List ℕ → Bool
same_codes [] [] = true
same_codes (a ∷ as') (b ∷ bs) = a == b && same_codes as' bs
same_codes _ _ = false

-- `strings.ToLower(s) == t` for an ASCII `t` in lower case
unfoldable pub lowers_to : String → String → Bool
lowers_to s t = same_codes (map lower_code (codes s)) (codes t)

-- The case folding of `strings.EqualFold` towards ASCII letters.
abbrev pub fold_code : ℕ → ℕ
fold_code c =
    if leb b'A' c && leb c b'Z'
    then c + 32
    else if c == 0x17F
    then b's'
    else if c == 0x212A
    then b'k'
    else c

-- `strings.EqualFold(s, t)` for an ASCII `t`
unfoldable pub equal_fold : String → String → Bool
equal_fold s t = same_codes (map fold_code (codes s)) (map fold_code (codes t))

abbrev pub digit : ℕ → String
digit zero = "0"
digit (suc zero) = "1"
digit (suc (suc zero)) = "2"
digit (suc (suc (suc zero))) = "3"
digit (suc (suc (suc (suc zero)))) = "4"
digit (suc (suc (suc (suc (suc zero))))) = "5"
digit (suc (suc (suc (suc (suc (suc zero)))))) = "6"
digit (suc (suc (suc (suc (suc (suc (suc zero))))))) = "7"
digit (suc (suc (suc (suc (suc (suc (suc (suc zero)))))))) = "8"
digit _ = "9"

itoa_fuel : ℕ → ℕ → String
itoa_fuel zero n = ""
itoa_fuel (suc fuel) n =
    let front = itoa_fuel fuel (n / 10) in if leb n 9 then digit n else front <> digit (n % 10)

-- `strconv.Itoa` of a number that is not negative; a number has at most as many digits as its value.
unfoldable pub itoa : ℕ → String
unfolding itoa_fuel
itoa n = itoa_fuel (suc n) n
