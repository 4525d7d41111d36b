-- ===== src/Number.antt =====
-- Go's `int` and `strconv.Atoi`.
use Prim.Native.String.{[] as nil, ◌∷◌ as ◌◂◌}
use service_discover.Common.{
  ℕ, zero, suc, ◌+◌, ◌-◌, ◌*◌, ◌^◌, code, String, ◌<>◌, ◌&&◌, ◌is◌, leb, ltb, ◌==◌, if◌then◌else◌,
}
use service_discover.Text.{itoa}
use service_discover.Errors.{
  Error, around, sentinel, invalid_syntax, value_out_of_range, is_error, Result, ok, err,
}

-- `negsuc n` is -(n + 1).
pub data ℤ : Type 0 where
  pos : ℕ → ℤ
  negsuc : ℕ → ℤ

-- The literal that encoding/json writes for an `int`.
unfoldable pub number_text : ℤ → String
unfolding itoa
number_text (pos n) = itoa n
number_text (negsuc n) = "-" <> itoa (suc n)

-- The number that stands for -n.
abbrev pub minus : ℕ → ℤ
minus n = if n == 0 then pos 0 else negsuc (n - 1)

-- `strconv.NumError`
abbrev pub parsing : String → Error → Error
parsing s e = around ("strconv.Atoi: parsing \"" <> (s <> "\": ")) e ""

syntax_error : {A : Type 0} → String → Result A
syntax_error s = err (parsing s (sentinel invalid_syntax))

range_error : {A : Type 0} → String → Result A
range_error s = err (parsing s (sentinel value_out_of_range))

-- The loop of `ParseUint` in base 10: a character is checked before the overflow that it causes.
parse_digits : String → ℕ → String → Result ℕ
unfolding syntax_error range_error
parse_digits s n nil = ok n
parse_digits s n (c ◂ rest) =
    let d = code c - b'0' in
    let next = parse_digits s (n * 10 + d) rest in
    if leb b'0' (code c) && leb (code c) b'9'
    then (if ltb (n * 10 + d) (2 ^ 64) then next else range_error s)
    else syntax_error s

unsigned : String → String → Result ℕ
unfolding parse_digits
unsigned s body = if body is "" then syntax_error s else parse_digits s 0 body

signed_value : String → (negative : ℕ) → Result ℕ → Result ℤ
unfolding range_error
signed_value s zero (ok n) = if ltb n (2 ^ 63) then ok (pos n) else range_error s
signed_value s _ (ok n) = if leb n (2 ^ 63) then ok (minus n) else range_error s
signed_value s _ (err e) = err e

unfoldable pub atoi : String → Result ℤ
unfolding unsigned signed_value
atoi nil = syntax_error nil
atoi (c ◂ rest) =
    if code c == b'-'
    then signed_value (c ◂ rest) 1 (unsigned (c ◂ rest) rest)
    else if code c == b'+'
    then signed_value (c ◂ rest) 0 (unsigned (c ◂ rest) rest)
    else signed_value (c ◂ rest) 0 (unsigned (c ◂ rest) (c ◂ rest))

-- The number that `Atoi` gives beside an error: the nearest one if the value is out of range.
abbrev nearest : String → ℤ
nearest nil = pos 0
nearest (c ◂ rest) = if code c == b'-' then minus (2 ^ 63) else pos (2 ^ 63 - 1)

abbrev value_of : String → Result ℤ → ℤ
value_of s (ok n) = n
value_of s (err e) = if is_error e value_out_of_range then nearest s else pos 0

-- `n, _ := strconv.Atoi(s)`
unfoldable pub atoi_value : String → ℤ
unfolding atoi is_error
atoi_value s = value_of s (atoi s)
